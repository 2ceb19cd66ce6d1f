-- ===== src/Parser/Fields.antt =====
-- crates/easysub-core/src/parser.rs 418-424, 570-636: the helpers of the parsers of proxy links.
use easysub.Prelude.{
  ℕ, ◌++◌, Bool, true, false, Option, none, some, List, [], ◌∷◌, if◌then◌else◌, is_empty, or_else,
  unwrap_or, find_map,
}
use easysub.Error.{Result, ok, AppError, ok_or, ◌>>=◌}
use easysub.Text.{Str, codes, str_eq, one_of, to_ascii_lowercase, trim}
use easysub.Text.Decimal.{parse_unsigned, u16_max, u32_max}
use easysub.Json.{Value, object, get, value_string}
use easysub.Model.{endpoint_name}
use easysub.Parser.Formats.{Formats, Engine, url_safe_no_pad, url_safe, standard_no_pad, standard}

-- A `HashMap<String, String>` by the pairs that it is collected from, where the last of a key counts.
abbrev pub Query : Type 0
Query = List (Str × Str)

unfoldable pub lookup_last : Str → Query → Option Str
lookup_last key [] = none
lookup_last key ((k, v) ∷ rest) =
    or_else (lookup_last key rest) (if str_eq k key then some v else none)

unfoldable pub query_value : Query → List Str → Str
unfolding lookup_last
query_value query keys = unwrap_or [] (find_map (λ key. lookup_last key query) keys)

unfoldable pub non_empty : Str → Str → Str
non_empty value fallback = if is_empty value then fallback else value

unfoldable pub parse_bool : Str → Option Bool
unfolding one_of to_ascii_lowercase
parse_bool value =
    let word = to_ascii_lowercase value in
    if one_of (codes "1" ∷ codes "true" ∷ []) word
    then some true
    else if one_of (codes "0" ∷ codes "false" ∷ []) word
    then some false
    else none

unfoldable pub parse_u16 : Str → Option ℕ
unfolding parse_unsigned
parse_u16 = parse_unsigned u16_max

unfoldable pub parse_u32 : Str → Option ℕ
unfolding parse_unsigned
parse_u32 = parse_unsigned u32_max

unfoldable pub json_string : Value → Str → Str
unfolding get value_string
json_string (object fields) key = elim (get key fields) [ none ↦ [] | some v ↦ value_string v ]
json_string v key = []

-- The first engine that takes the text.
unfoldable pub decode_with : Formats → List Engine → Str → Option Str
decode_with formats engines input = find_map (λ engine. formats.decode engine input) engines

abbrev pub base64_engines : List Engine
base64_engines = url_safe_no_pad ∷ url_safe ∷ standard_no_pad ∷ standard ∷ []

unfoldable pub decode_base64 : Formats → Str → Result Str
unfolding decode_with trim
decode_base64 formats input =
    ok_or AppError.bad_request (decode_with formats base64_engines (trim input))

unfoldable pub split_endpoint : Formats → Str → Result (Str × ℕ)
split_endpoint formats endpoint =
    ok_or AppError.bad_request (formats.parse_url (codes "tcp://" ++ endpoint)) >>= λ url.
    ok_or AppError.bad_request url.host_str >>= λ host.
    ok_or AppError.bad_request url.port >>= λ port. ok (host, port)

unfoldable pub non_empty_name : Formats → Str → Str → ℕ → Str
unfolding non_empty endpoint_name
non_empty_name formats fragment server port =
    non_empty (formats.percent_decode fragment) (endpoint_name server port)
