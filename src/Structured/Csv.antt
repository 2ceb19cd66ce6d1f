-- ===== src/Structured/Csv.antt =====
-- Fields written between double quotes and parted by commas are read back.
use easysub.Prelude.{
  ◌≡◌, refl, sym, ◌∙◌, ap, false, ◌==◌, List, [], ◌∷◌, ◌++◌, map, arith, any, All, append-nil,
  append_assoc, none, some,
}
use easysub.Text.{Str, codes, join}
use easysub.Structured.Surge.{finish_field, split_fields, split_csv}

-- A text between double quotes.
unfoldable pub in_quotes : Str → Str
in_quotes field = b'"' ∷ (field ++ b'"' ∷ [])

-- A field that its quotes can hold, and that is not trimmed when it is read.
abbrev pub IsPlain : Str → Type 0
IsPlain field = (any (λ c. c == b'"') field ≡ false) × (finish_field field ≡ field)

quoted_read :
    (current field rest : Str)
    → any (λ c. c == b'"') field ≡ false
    → split_fields (some b'"') current (field ++ b'"' ∷ rest)
      ≡ split_fields none (current ++ field) rest
unfolding split_fields
quoted_read current [] rest h = rw (append-nil current) refl
quoted_read current (c ∷ field) rest h =
    ground (arith, quoted_read (current ++ c ∷ []) field rest, append_assoc current (c ∷ []) field)

field_read :
    (field rest : Str)
    → any (λ c. c == b'"') field ≡ false
    → split_fields none [] (in_quotes field ++ rest) ≡ split_fields none field rest
unfolding split_fields in_quotes
field_read field rest h = rw (append_assoc field (b'"' ∷ []) rest) (quoted_read [] field rest h)

-- Fields that hold no double quote, and that neither trimming nor unquoting changes, are read back from
-- a line that has each between double quotes: a comma or a single quote within a field parts nothing.
pub split_csv-join :
    (field : Str) (fields : List Str)
    → All IsPlain (field ∷ fields)
    → split_csv (join (codes ",") (map in_quotes (field ∷ fields))) ≡ field ∷ fields
unfolding split_csv split_fields join in_quotes
split_csv-join field [] h =
    ap (split_fields none []) (sym (append-nil (in_quotes field)))
    ∙ field_read field [] h.0.0
    ∙ ap (λ f. f ∷ []) h.0.1
split_csv-join field (next ∷ fields) h =
    field_read field (b',' ∷ join (codes ",") (map in_quotes (next ∷ fields))) h.0.0
    ∙ ap (λ f. f ∷ split_csv (join (codes ",") (map in_quotes (next ∷ fields)))) h.0.1
    ∙ ap (λ rest. field ∷ rest) (split_csv-join next fields h.1)
