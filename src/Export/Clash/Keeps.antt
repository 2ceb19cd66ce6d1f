-- ===== src/Export/Clash/Keeps.antt =====
-- Writing special entries of an object keeps the general ones, which do not depend on the kind.
use easysub.Prelude.{
  ℕ, ◌≡◌, refl, Bool, true, false, not, Option, none, some, List, arith, is_empty, if◌then◌else◌,
  ◌&&◌,
}
use easysub.Text.{Str, codes, str_eq}
use easysub.Json.{Value, Fields, boolean, unsigned, string, array, get, insert, remove, array_of}
use easysub.Json.Lookup.{get-insert, get-remove}
use easysub.Export.Clash.Fields.{
  insert_text, insert_nonempty, insert_option, insert_flag, insert_list,
}

-- The keys that do not depend on the kind.
pub data General : Type 0 where
  name_key server_key port_key type_key udp_key tfo_key tcp_fast_open_key : General

abbrev pub key_of : General → Str
key_of name_key = codes "name"
key_of server_key = codes "server"
key_of port_key = codes "port"
key_of type_key = codes "type"
key_of udp_key = codes "udp"
key_of tfo_key = codes "tfo"
key_of tcp_fast_open_key = codes "tcp_fast_open"

abbrev pub is_special : Str → Bool
is_special k =
    not (str_eq k (codes "name"))
    && not (str_eq k (codes "server"))
    && not (str_eq k (codes "port"))
    && not (str_eq k (codes "type"))
    && not (str_eq k (codes "udp"))
    && not (str_eq k (codes "tfo"))
    && not (str_eq k (codes "tcp_fast_open"))

pub special_lem : (k : Str) (b : General) → is_special k ≡ true → str_eq k (key_of b) ≡ false
special_lem k name_key h = ground arith
special_lem k server_key h = ground arith
special_lem k port_key h = ground arith
special_lem k type_key h = ground arith
special_lem k udp_key h = ground arith
special_lem k tfo_key h = ground arith
special_lem k tcp_fast_open_key h = ground arith

-- The second object gives for every general key what the first gives.
unfoldable pub Keeps : Fields → Fields → Type 0
Keeps x y = (b : General) → get (key_of b) y ≡ get (key_of b) x

pub Keeps-refl : (x : Fields) → Keeps x x
unfolding Keeps
Keeps-refl x b = refl

pub Keeps-insert :
    (k : Str) (v : Value) (x y : Fields) → is_special k ≡ true → Keeps x y → Keeps x (insert k v y)
unfolding Keeps
Keeps-insert k v x y s h b = rw (get-insert k (key_of b) v y, special_lem k b s) (h b)

pub Keeps-remove : (k : Str) (x y : Fields) → is_special k ≡ true → Keeps x y → Keeps x (remove k y)
unfolding Keeps
Keeps-remove k x y s h b = rw (get-remove k (key_of b) y, special_lem k b s) (h b)

pub Keeps-if : (b : Bool) (x y z : Fields) → Keeps x y → Keeps x z → Keeps x (if b then y else z)
Keeps-if true x y z h k = h
Keeps-if false x y z h k = k

pub Keeps-text :
    (k v : Str) (x y : Fields) → is_special k ≡ true → Keeps x y → Keeps x (insert_text k v y)
unfolding insert_text
Keeps-text k v x y s h = Keeps-insert k (string v) x y s h

pub Keeps-nonempty :
    (k v : Str) (x y : Fields) → is_special k ≡ true → Keeps x y → Keeps x (insert_nonempty k v y)
unfolding insert_nonempty
Keeps-nonempty k v x y s h =
    Keeps-if (is_empty v) x y (insert_text k v y) h (Keeps-text k v x y s h)

pub Keeps-option :
    (k : Str) (o : Option ℕ) (x y : Fields)
    → is_special k ≡ true
    → Keeps x y
    → Keeps x (insert_option k o y)
unfolding insert_option
Keeps-option k none x y s h = h
Keeps-option k (some n) x y s h = Keeps-insert k (unsigned n) x y s h

pub Keeps-flag :
    (k : Str) (o : Option Bool) (x y : Fields)
    → is_special k ≡ true
    → Keeps x y
    → Keeps x (insert_flag k o y)
unfolding insert_flag
Keeps-flag k none x y s h = h
Keeps-flag k (some b) x y s h = Keeps-insert k (boolean b) x y s h

pub Keeps-list :
    (k : Str) (vs : List Str) (x y : Fields)
    → is_special k ≡ true
    → Keeps x y
    → Keeps x (insert_list k vs y)
unfolding insert_list
Keeps-list k vs x y s h =
    Keeps-if (is_empty vs) x y (insert k (array (array_of string vs)) y) h
      (Keeps-insert k (array (array_of string vs)) x y s h)
