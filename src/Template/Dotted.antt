-- ===== src/Template/Dotted.antt =====
-- Variables with dotted names.
use easysub.Prelude.{
  OfSome, OfSome-any, OfSome-map, ◌≡◌, refl, sym, ◌∙◌, ap, Bool, true, false, ◌&&◌, Option, none,
  some, List, [], ◌∷◌, ◌>>=◌, map, all, option_map, is_some, is_empty, list_same_refl, nat_key,
}
use easysub.Text.{Str}
use easysub.Json.{
  Value, null, boolean, unsigned, other_number, string, array, object, Fields, end, get, insert,
}
use easysub.Json.Lookup.{get-insert}
use easysub.Template.{entry_object, insert_parts}

-- The value at the end of a path.
unfoldable pub get_path : List Str → Value → Option Value
unfolding get
get_path [] v = some v
get_path (part ∷ rest) (object fields) = get part fields >>= get_path rest
get_path (part ∷ rest) v = none

get-insert_same :
    (part : Str) (v : Value) (fields : Fields) → get part (insert part v fields) ≡ some v
get-insert_same part v fields = rw (get-insert part part v fields, list_same_refl part) refl

found_one :
    (part : Str) (v : Value) (fields : Fields)
    → get_path (part ∷ []) (object (insert part v fields)) ≡ some v
unfolding get_path
found_one part v fields = rw (get-insert_same part v fields) refl

found_below :
    (part : Str) (rest : List Str) (v : Value) (inner fields : Fields)
    → get_path rest (object inner) ≡ some v
    → get_path (part ∷ rest) (object (insert part (object inner) fields)) ≡ some v
unfolding get_path
found_below part rest v inner fields h = rw (get-insert_same part (object inner) fields) h

found_when_inserted :
    (parts : List Str) (v : Value) (fields : Fields)
    → is_empty parts ≡ false
    → OfSome (λ changed. get_path parts (object changed) ≡ some v) (insert_parts parts v fields)
unfolding insert_parts
found_when_inserted [] v fields n = cc
found_when_inserted (part ∷ []) v fields n = found_one part v fields
found_when_inserted (part ∷ next ∷ rest) v fields n =
    OfSome-any (λ changed. get_path (part ∷ next ∷ rest) (object changed) ≡ some v)
      (entry_object (get part fields)) _
      (λ inner.
        OfSome-map (λ changed. get_path (next ∷ rest) (object changed) ≡ some v)
          (λ changed. get_path (part ∷ next ∷ rest) (object changed) ≡ some v)
          (insert_parts (next ∷ rest) v inner) (λ changed. insert part (object changed) fields)
          (found_when_inserted (next ∷ rest) v inner refl)
          (λ changed h. found_below part (next ∷ rest) v changed fields h))

-- A variable that is inserted under a name of one part at least is found under that name.
pub insert_parts-get_path :
    (parts : List Str) (v : Value) (fields changed : Fields)
    → is_empty parts ≡ false
    → insert_parts parts v fields ≡ some changed
    → get_path parts (object changed) ≡ some v
insert_parts-get_path parts v fields changed n e = rw e at (found_when_inserted parts v fields n)

-- Where the next part may be inserted.
abbrev is_free : Option Value → Bool
is_free none = true
is_free (some (object fields)) = true
is_free (some v) = false

abbrev proper_prefixes : List Str → List (List Str)
proper_prefixes [] = []
proper_prefixes (part ∷ []) = []
proper_prefixes (part ∷ next ∷ rest) =
    (part ∷ []) ∷ map (λ prefix. part ∷ prefix) (proper_prefixes (next ∷ rest))

-- Every proper part of the name is free: no value but an object stands there.
abbrev pub is_open : List Str → Value → Bool
is_open parts v = all (λ prefix. is_free (get_path prefix v)) (proper_prefixes parts)

is_some-option_map {ℓ κ} :
    {A : Type ℓ} {B : Type κ} (f : A → B) (o : Option A) → is_some (option_map f o) ≡ is_some o
is_some-option_map f none = refl
is_some-option_map f (some a) = refl

insert_parts-end : (parts : List Str) (v : Value) → is_some (insert_parts parts v end) ≡ true
unfolding insert_parts entry_object get
insert_parts-end [] v = refl
insert_parts-end (part ∷ []) v = refl
insert_parts-end (part ∷ next ∷ rest) v =
    is_some-option_map (λ changed. insert part (object changed) end)
      (insert_parts (next ∷ rest) v end)
    ∙ insert_parts-end (next ∷ rest) v

all_free : (prefixes : List (List Str)) → all (λ prefix. true) prefixes ≡ true
all_free [] = refl
all_free (prefix ∷ rest) = all_free rest

-- The paths through an entry go on from its value.
all_below :
    (part : Str) (fields : Fields) (o : Option Value) (prefixes : List (List Str))
    → get part fields ≡ o
    → all
        (λ prefix. is_free (get_path prefix (object fields)))
        (map (λ prefix. part ∷ prefix) prefixes)
      ≡ all (λ prefix. is_free (o >>= get_path prefix)) prefixes
unfolding get_path
all_below part fields o [] e = refl
all_below part fields o (prefix ∷ rest) e =
    ap
      (λ w.
        is_free (w >>= get_path prefix)
        && all (λ prefix. is_free (get_path prefix (object fields)))
            (map (λ prefix. part ∷ prefix) rest))
      e
    ∙ ap (λ b. is_free (o >>= get_path prefix) && b) (all_below part fields o rest e)

entry_open :
    (rest : List Str) (v : Value) (f : Fields → Fields) (o : Option Value)
    → ((inner : Fields) → is_some (insert_parts rest v inner) ≡ is_open rest (object inner))
    → is_some (entry_object o >>= λ inner. option_map f (insert_parts rest v inner))
      ≡ (is_free o && all (λ prefix. is_free (o >>= get_path prefix)) (proper_prefixes rest))
unfolding entry_object
entry_open rest v f none h =
    is_some-option_map f (insert_parts rest v end)
    ∙ insert_parts-end rest v
    ∙ sym (all_free (proper_prefixes rest))
entry_open rest v f (some (object inner)) h =
    is_some-option_map f (insert_parts rest v inner) ∙ h inner
entry_open rest v f (some null) h = refl
entry_open rest v f (some (boolean b)) h = refl
entry_open rest v f (some (unsigned n)) h = refl
entry_open rest v f (some (other_number s)) h = refl
entry_open rest v f (some (string s)) h = refl
entry_open rest v f (some (array items)) h = refl

reached : (o : Option Value) → (o >>= get_path []) ≡ o
unfolding get_path
reached none = refl
reached (some v) = refl

-- Inserting a variable fails, where the program panics, exactly if another variable that is no object
-- stands at a proper part of the name.
pub insert_parts-is_open :
    (parts : List Str) (v : Value) (fields : Fields)
    → is_some (insert_parts parts v fields) ≡ is_open parts (object fields)
unfolding insert_parts get_path
insert_parts-is_open [] v fields = refl
insert_parts-is_open (part ∷ []) v fields = refl
insert_parts-is_open (part ∷ next ∷ rest) v fields =
    entry_open (next ∷ rest) v (λ changed. insert part (object changed) fields) (get part fields)
      (insert_parts-is_open (next ∷ rest) v)
    ∙ ap (λ b. is_free (get part fields) && b)
        (sym (all_below part fields (get part fields) (proper_prefixes (next ∷ rest)) refl))
    ∙ ap
        (λ w.
          is_free w
          && all (λ prefix. is_free (get_path prefix (object fields)))
              (map (λ prefix. part ∷ prefix) (proper_prefixes (next ∷ rest))))
        (sym (reached (get part fields)))
