-- ===== src/Api.antt =====
-- src/api.rs: the status of an error, and what the handlers read from a request.
pub mod Origin
mod Tests
use easysub.Prelude.{
  ℕ, ◌==◌, ◌||◌, ◌++◌, Bool, true, false, not, Option, none, some, List, [], ◌∷◌, any, filter, map,
  head?, if◌then◌else◌, is_empty, keep_if, option_map, or_else, unwrap_or,
}
use easysub.Error.{
  AppError, config, bad_request, not_found, unauthorized, unsupported, upstream, limit, conversion,
  internal, Result, ok, err, ok_or, ◌>>=◌, ◌>>◌, reject_if,
}
use easysub.Text.{Str, codes, str_eq, one_of, split, trim, to_ascii_lowercase}

-- The number of the status.
unfoldable pub status_of : AppError → ℕ
status_of bad_request = 400
status_of unsupported = 400
status_of not_found = 404
status_of unauthorized = 401
status_of limit = 413
status_of upstream = 502
status_of config = 500
status_of conversion = 500
status_of internal = 500

unfoldable pub split_sources : Str → List Str
unfolding split trim
split_sources value =
    filter (λ source. not (is_empty source)) (map trim (split (λ c. c == b'|') value))

abbrev yes_words : List Str
yes_words = codes "1" ∷ codes "t" ∷ codes "true" ∷ codes "y" ∷ codes "yes" ∷ codes "on" ∷ []

abbrev no_words : List Str
no_words = codes "0" ∷ codes "f" ∷ codes "false" ∷ codes "n" ∷ codes "no" ∷ codes "off" ∷ []

unfoldable pub query_flag : Option Str → Option Bool
unfolding one_of to_ascii_lowercase
query_flag none = none
query_flag (some value) =
    let word = to_ascii_lowercase value in
    if one_of yes_words word then some true else if one_of no_words word then some false else none

-- What is read of the headers: the text of one, where it is text at all.
abbrev pub Headers : Type 0
Headers = Str → Option Str

abbrev is_filled : Str → Bool
is_filled value = not (is_empty value)

-- The first of the values that a proxy has chained.
unfoldable pub header_text : Headers → Str → Option Str
unfolding split trim
header_text headers name = keep_if is_filled (
    option_map (λ value. trim (unwrap_or [] (head? (split (λ c. c == b',') value)))) (headers name))

unfoldable pub host_of : Headers → Option Str
unfolding header_text trim
host_of headers =
    or_else (header_text headers (codes "x-forwarded-host"))
      (keep_if is_filled (option_map trim (headers (codes "host"))))

abbrev pub is_delimiter : ℕ → Bool
is_delimiter c = c == b'/' || c == b'\\' || c == b'#' || c == b'?'

unfoldable pub forwarded_scheme : Option Str → Result Str
forwarded_scheme none = ok (codes "http")
forwarded_scheme (some scheme) =
    if str_eq scheme (codes "https")
    then ok (codes "https")
    else if str_eq scheme (codes "http")
    then ok (codes "http")
    else err bad_request

-- `force` is the variable SUB_FORCE_HTTPS of the environment.
unfoldable pub scheme_of : Option Str → Headers → Result Str
unfolding query_flag forwarded_scheme header_text
scheme_of force headers =
    if unwrap_or false (query_flag force)
    then ok (codes "https")
    else forwarded_scheme (header_text headers (codes "x-forwarded-proto"))

unfoldable pub request_base_url : Option Str → Headers → Result Str
unfolding host_of scheme_of
request_base_url force headers = ok_or bad_request (host_of headers) >>= λ host.
    reject_if (any is_delimiter host) bad_request
    >> (scheme_of force headers >>= λ scheme. ok (scheme ++ (codes "://" ++ host)))
