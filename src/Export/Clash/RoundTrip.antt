-- ===== src/Export/Clash/RoundTrip.antt =====
-- A proxy of a Clash profile is read back by the parser of structured subscriptions.
use easysub.Prelude.{
  ℕ, ◌≡◌, refl, ◌∙◌, ap, ◌<◌, ◌≤◌, Bool, true, false, Option, none, some, [], ◌∷◌, arith, is_empty,
}
use easysub.Text.{Str, codes, to_ascii_lowercase}
use easysub.Text.Decimal.{u16_max}
use easysub.Json.{Fields, boolean, get}
use easysub.Json.Lookup.{get-insert}
use easysub.Model.{
  ProxyKind, shadowsocks, vmess, vless, trojan, http, https, socks5, snell, wireguard, tuic, anytls,
  hysteria2, Proxy, new_proxy, endpoint_name,
}
use easysub.Parser.Formats.{Formats}
use easysub.Parser.Fields.{non_empty}
use easysub.Structured.Fields.{read_text, read_boolean, object_at}
use easysub.Structured.Netch.{kind_named, has_endpoint, only_if}
use easysub.Structured.Object.{
  object_kinds, kind_of, peer_of, server_of, port_of, tls_flag, secured_kind, object_fields,
  object_node, parse_with, parse_proxy,
}
use easysub.Structured.Places.{object_node-SamePlace}
use easysub.Export.Clash.Fields.{insert_nonempty, insert_flag}
use easysub.Export.Clash.Proxies.{
  type_name, login_entries, kind_entries, first_entries, proxy_fields,
}
use easysub.Export.Clash.Readers.{text_first, number_first, boolean_first, no_flag}
use easysub.Export.Clash.Entries.{
  get-insert_flag_other, get-insert_nonempty_other, flag_value, middle, name_entry, server_entry,
  port_entry, type_entry, other_tfo_entry, udp_entry, tfo_entry,
}

-- Both kinds of HTTP proxies are written as `http`.
abbrev plain_kind : ProxyKind → ProxyKind
plain_kind https = http
plain_kind kind = kind

kind_named_back :
    (kind : ProxyKind)
    → kind_named object_kinds (to_ascii_lowercase (type_name kind)) ≡ some (plain_kind kind)
unfolding kind_named object_kinds to_ascii_lowercase
kind_named_back shadowsocks = refl
kind_named_back vmess = refl
kind_named_back vless = refl
kind_named_back trojan = refl
kind_named_back http = refl
kind_named_back https = refl
kind_named_back socks5 = refl
kind_named_back snell = refl
kind_named_back wireguard = refl
kind_named_back tuic = refl
kind_named_back anytls = refl
kind_named_back hysteria2 = refl

-- A flag of TLS is written for HTTPS alone among the two kinds that it decides between.
login_tls : (p : Proxy) → get (codes "tls") (login_entries p (first_entries p)) ≡ none
unfolding login_entries first_entries get
login_tls p =
    get-insert_nonempty_other (codes "password") (codes "tls") p.password
      (insert_nonempty (codes "username") p.username (first_entries p)) refl
    ∙ get-insert_nonempty_other (codes "username") (codes "tls") p.username (first_entries p) refl

tls_flag-given :
    (y : Fields) (o : Option Bool) → get (codes "tls") y ≡ flag_value o → tls_flag y ≡ o
unfolding tls_flag object_at flag_value
tls_flag-given y none e = rw (boolean_first y (codes "tls") [] none e (no_flag y), e) refl
tls_flag-given y (some b) e = rw (boolean_first y (codes "tls") [] (some b) e (no_flag y)) refl

secured_back :
    (kind : ProxyKind) (p : Proxy) (y : Fields)
    → get (codes "tls") y ≡ get (codes "tls") (kind_entries kind p (first_entries p))
    → secured_kind (plain_kind kind) (tls_flag y) ≡ kind
unfolding secured_kind kind_entries flag_value
secured_back http p y e = rw (tls_flag-given y none (e ∙ login_tls p)) refl
secured_back https p y e =
    rw
      (tls_flag-given y (some true) (
        e
        ∙ get-insert (codes "tls") (codes "tls") (boolean true)
            (login_entries p (first_entries p))))
      refl
secured_back shadowsocks p y e = refl
secured_back vmess p y e = refl
secured_back vless p y e = refl
secured_back trojan p y e = refl
secured_back socks5 p y e = refl
secured_back snell p y e = refl
secured_back wireguard p y e = refl
secured_back tuic p y e = refl
secured_back anytls p y e = refl
secured_back hysteria2 p y e = refl

endpoint_given :
    (server : Str) (port : ℕ) → is_empty server ≡ false → 0 < port → has_endpoint server port ≡ true
unfolding has_endpoint
endpoint_given server port h k = ground arith

parse_with_lem :
    (y : Fields) (build : ProxyKind → Option Fields → Str → ℕ → Proxy) (kind : ProxyKind)
    (server : Str) (port : ℕ)
    → kind_of y ≡ some kind
    → server_of (peer_of kind y) y ≡ server
    → port_of (peer_of kind y) y ≡ some port
    → has_endpoint server port ≡ true
    → parse_with y build ≡ some (build kind (peer_of kind y) server port)
unfolding parse_with only_if
parse_with_lem y build kind server port k s n e = rw (k, n, s, e) refl

parse_proxy_lem :
    (formats : Formats) (y : Fields) (g : ℕ)
    → parse_proxy formats y g ≡ parse_with y (object_node formats y g)
unfolding parse_proxy
parse_proxy_lem formats y g = refl

-- What a node read from an object has of the general entries.
object_node-general :
    (formats : Formats) (y : Fields) (g : ℕ) (kind : ProxyKind) (peer : Option Fields)
    (server : Str) (port : ℕ)
    → let q = object_node formats y g kind peer server port in
      (q.group_id ≡ g)
      × (q.server ≡ server)
      × (q.port ≡ port)
      × (q.kind ≡ secured_kind kind (tls_flag y))
      × (q.name
          ≡ non_empty (read_text y (codes "name" ∷ codes "tag" ∷ [])) (endpoint_name server port))
      × (q.udp ≡ read_boolean y (codes "udp" ∷ []))
      × (q.tcp_fast_open ≡ read_boolean y (codes "tfo" ∷ codes "tcp_fast_open" ∷ []))
unfolding object_fields new_proxy
object_node-general formats y g kind peer server port =
    object_node-SamePlace formats y g kind peer server port

-- A node that agrees with another in what does not depend on the kind, and has the group asked for.
unfoldable pub ReadsBack : ℕ → Proxy → Proxy → Type 0
ReadsBack g p q =
    (q.group_id ≡ g)
    × (q.kind ≡ p.kind)
    × (q.server ≡ p.server)
    × (q.port ≡ p.port)
    × (q.name ≡ non_empty p.name (endpoint_name p.server p.port))
    × (q.udp ≡ p.udp)
    × (q.tcp_fast_open ≡ p.tcp_fast_open)

module _ (p : Proxy) where
  tls_kept : get (codes "tls") (proxy_fields p) ≡ get (codes "tls") (middle p)
  unfolding proxy_fields
  tls_kept =
      get-insert_flag_other (codes "tfo") (codes "tls") p.tcp_fast_open
        (insert_flag (codes "udp") p.udp (middle p)) refl
      ∙ get-insert_flag_other (codes "udp") (codes "tls") p.udp (middle p) refl

  kind_of_back : kind_of (proxy_fields p) ≡ some (plain_kind p.kind)
  unfolding kind_of
  kind_of_back =
      ap (λ name. kind_named object_kinds (to_ascii_lowercase name))
        (text_first (proxy_fields p) (codes "type") [] (type_name p.kind) (type_entry p))
      ∙ kind_named_back p.kind

  server_back :
      (peer : Option Fields)
      → is_empty p.server ≡ false
      → server_of peer (proxy_fields p) ≡ p.server
  unfolding server_of non_empty
  server_back peer h =
      rw (text_first (proxy_fields p) (codes "server") [] p.server (server_entry p), h) refl

  port_back :
      (peer : Option Fields) → p.port ≤ u16_max → port_of peer (proxy_fields p) ≡ some p.port
  unfolding port_of
  port_back peer h =
      rw
        (number_first (proxy_fields p) (codes "port") (codes "server_port" ∷ []) p.port
          (port_entry p) h)
        refl

  module _ (formats : Formats) (g : ℕ) where
    abbrev back : Proxy
    back =
        object_node formats (proxy_fields p) g (plain_kind p.kind)
          (peer_of (plain_kind p.kind) (proxy_fields p)) p.server p.port

    parse_back :
        is_empty p.server ≡ false
        → 0 < p.port
        → p.port ≤ u16_max
        → parse_proxy formats (proxy_fields p) g ≡ some back
    parse_back filled low high =
        let peer = peer_of (plain_kind p.kind) (proxy_fields p) in
        parse_proxy_lem formats (proxy_fields p) g
        ∙ parse_with_lem (proxy_fields p) (object_node formats (proxy_fields p) g)
            (plain_kind p.kind) p.server p.port kind_of_back (server_back peer filled)
            (port_back peer high) (endpoint_given p.server p.port filled low)

    back-ReadsBack : ReadsBack g p back
    unfolding ReadsBack flag_value
    back-ReadsBack =
        let y = proxy_fields p in
        let h =
          object_node-general formats y g (plain_kind p.kind) (peer_of (plain_kind p.kind) y)
            p.server p.port in
        (
          h.0,
          h.3 ∙ secured_back p.kind p y tls_kept,
          h.1,
          h.2,
          h.4
              ∙ ap (λ name. non_empty name (endpoint_name p.server p.port))
                  (text_first y (codes "name") (codes "tag" ∷ []) p.name (name_entry p)),
          h.5 ∙ boolean_first y (codes "udp") [] p.udp (udp_entry p) (no_flag y),
          h.6
              ∙ boolean_first y (codes "tfo") (codes "tcp_fast_open" ∷ []) p.tcp_fast_open
                  (tfo_entry p)
                  (boolean_first y (codes "tcp_fast_open") [] none (other_tfo_entry p) (no_flag y)),
        )

    -- A node with a server and a port from 1 to 65535, written for a Clash profile, is read back by the
    -- parser of structured subscriptions as a node of the group asked for that has its kind, server,
    -- port, name, UDP and fast-open options, the endpoint standing for an empty name.
    pub parse_proxy-proxy_fields :
        is_empty p.server ≡ false
        → 0 < p.port
        → p.port ≤ u16_max
        → (q : Proxy) × (parse_proxy formats (proxy_fields p) g ≡ some q) × ReadsBack g p q
    parse_proxy-proxy_fields filled low high = (back, parse_back filled low high, back-ReadsBack)
