-- ===== src/Structured/Fields.antt =====
-- crates/easysub-core/src/structured.rs 455-568: reading the fields of an object, where the first key
-- of a list that is there counts.
use easysub.Prelude.{
  ℕ, ◌==◌, Bool, not, Option, none, some, List, [], ◌>>=◌, map, filter, filter_map, find_map, head?,
  is_empty, keep_if, leb, option_map, or_else, unwrap_or,
}
use easysub.Text.{Str, split, trim, strip_suffix_char}
use easysub.Text.Decimal.{parse_unsigned, u16_max, u32_max, u64_max}
use easysub.Json.{
  Value, Fields, boolean, unsigned, string, array, get, values, as_array, as_object, as_u64,
  value_string,
}
use easysub.Parser.Formats.{Formats}
use easysub.Parser.Fields.{parse_bool, parse_u32}

unfoldable pub first_value : Fields → List Str → Option Value
unfolding get
first_value fields keys = find_map (λ key. get key fields) keys

unfoldable pub read_text : Fields → List Str → Str
unfolding first_value value_string
read_text fields keys = unwrap_or [] (option_map value_string (first_value fields keys))

unfoldable pub value_text : Formats → Fields → List Str → Str
unfolding first_value
value_text formats fields keys = elim (first_value fields keys) [
  | none ↦ []
  | some (string s) ↦ s
  | some v ↦ unwrap_or [] (formats.json_to_string v)
]

unfoldable pub value_boolean : Value → Option Bool
unfolding parse_bool
value_boolean (boolean b) = some b
value_boolean (string s) = parse_bool s
value_boolean (unsigned n) = some (not (n == 0))
value_boolean v = none

-- Here a value that is no truth value is passed over.
unfoldable pub read_boolean : Fields → List Str → Option Bool
unfolding get value_boolean
read_boolean fields keys = find_map (λ key. get key fields >>= value_boolean) keys

unfoldable pub value_number : Value → Option ℕ
unfolding parse_unsigned
value_number (unsigned n) = some n
value_number (string s) = parse_unsigned u64_max s
value_number v = none

unfoldable pub number_u64 : Fields → List Str → Option ℕ
unfolding get value_number
number_u64 fields keys = find_map (λ key. get key fields >>= value_number) keys

-- `try_into` of a narrower type.
unfoldable pub number_upto : ℕ → Fields → List Str → Option ℕ
unfolding number_u64
number_upto most fields keys = keep_if (λ n. leb n most) (number_u64 fields keys)

unfoldable pub number_u16 : Fields → List Str → Option ℕ
unfolding number_upto
number_u16 = number_upto u16_max

unfoldable pub number_u32 : Fields → List Str → Option ℕ
unfolding number_upto
number_u32 = number_upto u32_max

unfoldable pub duration_seconds : Fields → List Str → Option ℕ
unfolding read_text parse_u32 strip_suffix_char
duration_seconds fields keys =
    let value = read_text fields keys in
    or_else (parse_u32 value) (strip_suffix_char b's' value >>= parse_u32)

-- The parts of a text between commas.
unfoldable pub comma_parts : Str → List Str
unfolding split trim
comma_parts s = filter (λ part. not (is_empty part)) (map trim (split (λ c. c == b',') s))

unfoldable pub value_strings : Value → List Str
unfolding value_string comma_parts
value_strings (array items) = filter (λ s. not (is_empty s)) (map value_string (values items))
value_strings (string s) = comma_parts s
value_strings v = []

unfoldable pub string_list : Fields → List Str → List Str
unfolding first_value value_strings
string_list fields keys = unwrap_or [] (option_map value_strings (first_value fields keys))

unfoldable pub value_first : Value → Str
unfolding value_string
value_first (array items) = unwrap_or [] (option_map value_string (head? (values items)))
value_first v = value_string v

unfoldable pub first_string : Fields → List Str → Str
unfolding first_value value_first
first_string fields keys = unwrap_or [] (option_map value_first (first_value fields keys))

-- `try_into` of a byte.
abbrev pub byte_value : Value → Option ℕ
byte_value v = keep_if (λ n. leb n 255) (as_u64 v)

unfoldable pub byte_list : Fields → List Str → List ℕ
unfolding first_value
byte_list fields keys =
    unwrap_or [] (option_map (filter_map byte_value) (first_value fields keys >>= as_array))

-- A field of an object that is an object.
unfoldable pub object_at : Str → Fields → Option Fields
unfolding get
object_at key fields = get key fields >>= as_object

-- A text of an object that may not be there.
unfoldable pub text_of : Option Fields → List Str → Str
unfolding read_text
text_of none keys = []
text_of (some fields) keys = read_text fields keys
