-- ===== src/Json/Lookup.antt =====
-- What is read back of an object after a write.
use easysub.Prelude.{◌≡◌, refl, ap, true, none, some, arith, if◌then◌else◌, list_same_iff, nat_key}
use easysub.Text.{Str, str_eq}
use easysub.Json.{Value, Fields, end, field, get, insert, remove}

same_key : (k l m : Str) → str_eq k m ≡ true → str_eq k l ≡ str_eq m l
same_key k l m e = ap (λ x. str_eq x l) ((list_same_iff k m).0 e)

same_key_right : (k l m : Str) → str_eq k m ≡ true → str_eq l k ≡ str_eq l m
same_key_right k l m e = ap (λ x. str_eq l x) ((list_same_iff k m).0 e)

-- The key written gives the value written, any other key what it gave.
pub get-insert :
    (k l : Str) (v : Value) (o : Fields)
    → get l (insert k v o) ≡ (if str_eq k l then some v else get l o)
unfolding get insert
get-insert k l v end = refl
get-insert k l v (field m w rest) =
    ground (arith, get-insert k l v rest, same_key m l k, same_key_right k m l)

pub get-remove :
    (k l : Str) (o : Fields) → get l (remove k o) ≡ (if str_eq k l then none else get l o)
unfolding get remove
get-remove k l end = ground arith
get-remove k l (field m w rest) =
    ground (arith, get-remove k l rest, same_key m l k, same_key_right k m l)
