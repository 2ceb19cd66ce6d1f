-- ===== src/Json.antt =====
-- serde_json's `Value` and its `Map`, and the operations of them that the parsers and the exporters
-- call. An object is the list of its entries, which ascend by their keys as those of a `BTreeMap` do.
pub mod Lookup
mod Tests
use easysub.Prelude.{
  ℕ, Bool, true, false, Option, none, some, List, [], ◌∷◌, ltb, ◌==◌, if◌then◌else◌,
}
use easysub.Text.{Str, codes, str_eq}
use easysub.Text.Decimal.{show}

-- A number is one that `as_u64` gives, or any other with the text that it is printed as.
mutual
  pub data Value : Type 0 where
    null : Value
    boolean : Bool → Value
    unsigned : ℕ → Value
    other_number : Str → Value
    string : Str → Value
    array : Items → Value
    object : Fields → Value

  pub data Items : Type 0 where
    nil : Items
    cons : Value → Items → Items

  pub data Fields : Type 0 where
    end : Fields
    field : Str → Value → Fields → Fields

-- `Map::get`.
unfoldable pub get : Str → Fields → Option Value
get k end = none
get k (field l v rest) = let found = get k rest in if str_eq l k then some v else found

-- The order of the keys, by code points.
unfoldable pub key_ltb : Str → Str → Bool
key_ltb k [] = false
key_ltb [] (d ∷ l) = true
key_ltb (c ∷ k) (d ∷ l) = let rest = key_ltb k l in if c == d then rest else ltb c d

-- `Map::insert`: the entries ascend.
unfoldable pub insert : Str → Value → Fields → Fields
unfolding key_ltb
insert k v end = field k v end
insert k v (field l w rest) =
    let after = insert k v rest in
    if str_eq l k
    then field l v rest
    else if key_ltb k l
    then field k v (field l w rest)
    else field l w after

-- `Map::remove`.
unfoldable pub remove : Str → Fields → Fields
remove k end = end
remove k (field l w rest) =
    let after = remove k rest in if str_eq l k then after else field l w after

abbrev pub values : Items → List Value
values nil = []
values (cons v rest) = v ∷ values rest

-- `json!` of a list of texts, and of numbers.
abbrev pub array_of {ℓ} : {A : Type ℓ} → (A → Value) → List A → Items
array_of f [] = nil
array_of f (a ∷ rest) = cons (f a) (array_of f rest)

abbrev pub as_array : Value → Option (List Value)
as_array (array items) = some (values items)
as_array v = none

abbrev pub as_object : Value → Option Fields
as_object (object fields) = some fields
as_object v = none

abbrev pub as_u64 : Value → Option ℕ
as_u64 (unsigned n) = some n
as_u64 v = none

-- The text of a scalar; any other value has none.
unfoldable pub value_string : Value → Str
unfolding show
value_string (string s) = s
value_string (unsigned n) = show n
value_string (other_number s) = s
value_string (boolean true) = codes "true"
value_string (boolean false) = codes "false"
value_string null = []
value_string (array items) = []
value_string (object fields) = []
