-- ===== src/Api/Tests.antt =====
-- What the handlers read from a request at concrete headers.
use easysub.Prelude.{◌≡◌, refl, none, some, [], ◌∷◌, if◌then◌else◌}
use easysub.Error.{ok}
use easysub.Error.Yields.{Yields, IsBadRequest}
use easysub.Text.{codes, str_eq}
use easysub.Api.{Headers, split_sources, request_base_url}
use easysub.Api.Origin.{IsOrigin, request_base_url-IsOrigin}

abbrev some_headers : Headers
some_headers = λ name. if str_eq name (codes "host") then some (codes "a.b:80") else none

base_url_is_made : request_base_url (some (codes "yes")) some_headers ≡ ok (codes "https://a.b:80")
unfolding request_base_url
base_url_is_made = refl

sources_are_split : split_sources (codes "a| |b") ≡ codes "a" ∷ codes "b" ∷ []
unfolding split_sources
sources_are_split = refl

request_base_url-IsOrigin_example :
    Yields IsBadRequest IsOrigin (request_base_url none some_headers)
request_base_url-IsOrigin_example = request_base_url-IsOrigin none some_headers
