-- ===== src/Export/Clash/Entries.antt =====
-- The general entries of a proxy of a Clash profile.
use easysub.Prelude.{◌≡◌, refl, ◌∙◌, Bool, true, false, Option, none, some, [], ◌∷◌, ◌>>=◌}
use easysub.Text.{Str, codes, str_eq}
use easysub.Json.{Value, Fields, boolean, unsigned, string, get}
use easysub.Json.Lookup.{get-insert}
use easysub.Model.{Proxy}
use easysub.Structured.Fields.{value_boolean}
use easysub.Export.Clash.Fields.{insert_text, insert_nonempty, insert_flag}
use easysub.Export.Clash.Proxies.{type_name, kind_entries, first_entries, proxy_fields}
use easysub.Export.Clash.Keeps.{
  General, name_key, server_key, port_key, type_key, udp_key, tfo_key, tcp_fast_open_key, key_of,
  Keeps,
}
use easysub.Export.Clash.Reading.{kind_kept}

pub get-insert_flag_other :
    (k l : Str) (o : Option Bool) (y : Fields)
    → str_eq k l ≡ false
    → get l (insert_flag k o y) ≡ get l y
unfolding insert_flag
get-insert_flag_other k l none y h = refl
get-insert_flag_other k l (some b) y h = rw (get-insert k l (boolean b) y, h) refl

pub get-insert_nonempty_other :
    (k l v : Str) (y : Fields) → str_eq k l ≡ false → get l (insert_nonempty k v y) ≡ get l y
unfolding insert_nonempty insert_text
get-insert_nonempty_other k l [] y h = refl
get-insert_nonempty_other k l (c ∷ v) y h = rw (get-insert k l (string (c ∷ v)) y, h) refl

-- The value of a flag that was written.
unfoldable pub flag_value : Option Bool → Option Value
flag_value none = none
flag_value (some b) = some (boolean b)

pub get-insert_flag :
    (k : Str) (o : Option Bool) (y : Fields)
    → str_eq k k ≡ true
    → get k y ≡ none
    → get k (insert_flag k o y) ≡ flag_value o
unfolding insert_flag flag_value
get-insert_flag k none y e h = h
get-insert_flag k (some b) y e h = rw (get-insert k k (boolean b) y, e) refl

pub flag_read : (o : Option Bool) → (flag_value o >>= value_boolean) ≡ o
unfolding flag_value value_boolean
flag_read none = refl
flag_read (some b) = refl

module _ (p : Proxy) where
  abbrev pub middle : Fields
  middle = kind_entries p.kind p (first_entries p)

  kept : (b : General) → get (key_of b) middle ≡ get (key_of b) (first_entries p)
  unfolding Keeps
  kept b = kind_kept p.kind p (first_entries p) b

  general_kept :
      (b : General)
      → str_eq (codes "udp") (key_of b) ≡ false
      → str_eq (codes "tfo") (key_of b) ≡ false
      → get (key_of b) (proxy_fields p) ≡ get (key_of b) (first_entries p)
  unfolding proxy_fields
  general_kept b u t =
      get-insert_flag_other (codes "tfo") (key_of b) p.tcp_fast_open
        (insert_flag (codes "udp") p.udp middle) t
      ∙ get-insert_flag_other (codes "udp") (key_of b) p.udp middle u
      ∙ kept b

  pub name_entry : get (codes "name") (proxy_fields p) ≡ some (string p.name)
  unfolding first_entries get
  name_entry = general_kept name_key refl refl

  pub server_entry : get (codes "server") (proxy_fields p) ≡ some (string p.server)
  unfolding first_entries get
  server_entry = general_kept server_key refl refl

  pub port_entry : get (codes "port") (proxy_fields p) ≡ some (unsigned p.port)
  unfolding first_entries get
  port_entry = general_kept port_key refl refl

  pub type_entry : get (codes "type") (proxy_fields p) ≡ some (string (type_name p.kind))
  unfolding first_entries get
  type_entry = general_kept type_key refl refl

  pub other_tfo_entry : get (codes "tcp_fast_open") (proxy_fields p) ≡ none
  unfolding first_entries get
  other_tfo_entry = general_kept tcp_fast_open_key refl refl

  pub udp_entry : get (codes "udp") (proxy_fields p) ≡ flag_value p.udp
  unfolding proxy_fields first_entries get
  udp_entry =
      get-insert_flag_other (codes "tfo") (codes "udp") p.tcp_fast_open
        (insert_flag (codes "udp") p.udp middle) refl
      ∙ get-insert_flag (codes "udp") p.udp middle refl (kept udp_key)

  pub tfo_entry : get (codes "tfo") (proxy_fields p) ≡ flag_value p.tcp_fast_open
  unfolding proxy_fields first_entries get
  tfo_entry =
      get-insert_flag (codes "tfo") p.tcp_fast_open (insert_flag (codes "udp") p.udp middle) refl
        (get-insert_flag_other (codes "udp") (codes "tfo") p.udp middle refl ∙ kept tfo_key)
