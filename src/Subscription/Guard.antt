-- ===== src/Subscription/Guard.antt =====
-- Which sources a request may use, and how many.
use easysub.Prelude.{
  ℕ, Bool, false, not, ◌&&◌, ◌||◌, Option, none, some, List, [], ◌∷◌, ◌++◌, map, ltb, ◌==◌,
  if◌then◌else◌, is_empty, length, any, unwrap_or,
}
use easysub.Error.{Result, ok, err, AppError, ◌>>=◌, ◌>>◌, reject_if}
use easysub.Text.{Str, codes, str_eq, starts_with, contains_str}
use easysub.Config.{AppConfig}
use easysub.Subscription.Request.{SubscriptionInput, source, content, SubscriptionRequest}

unfoldable pub is_token : AppConfig → Option Str → Bool
is_token config none = false
is_token config (some token) = str_eq token config.common.api_access_token

unfoldable pub request_is_authorized : AppConfig → Option Str → Bool
unfolding is_token
request_is_authorized config token = not config.common.api_mode || is_token config token

unfoldable pub is_sensitive_source : Str → Bool
is_sensitive_source s =
    starts_with (codes "file://") s
    || starts_with (codes "env:") s
    || not (contains_str (codes "://") s)

unfoldable pub is_sensitive_input : SubscriptionInput → Bool
unfolding is_sensitive_source
is_sensitive_input (source s) = is_sensitive_source s
is_sensitive_input (content text) = false

unfoldable pub reject_sensitive_inputs : List SubscriptionInput → Bool → Result (Unit {0})
reject_sensitive_inputs inputs authorized =
    reject_if (not authorized && any is_sensitive_input inputs) AppError.unauthorized

unfoldable pub enforce_source_limit : ℕ → AppConfig → Result (Unit {0})
enforce_source_limit count config =
    if count == 0
    then err AppError.bad_request
    else reject_if (ltb config.advance.max_allowed_rulesets count) AppError.limit

unfoldable pub reject_sensitive_base : Option Str → Bool → Result (Unit {0})
unfolding is_sensitive_source
reject_sensitive_base none authorized = ok tt
reject_sensitive_base (some base) authorized =
    reject_if (is_sensitive_source base && not authorized) AppError.unauthorized

unfoldable pub sources_or_default :
    AppConfig → List SubscriptionInput → Result (List SubscriptionInput)
sources_or_default config (input ∷ rest) = ok (input ∷ rest)
sources_or_default config [] =
    if is_empty config.common.default_url
    then err AppError.bad_request
    else ok (map source config.common.default_url)

unfoldable pub with_inserts : AppConfig → Bool → List SubscriptionInput → List SubscriptionInput
with_inserts config insert sources =
    let inserts = map source config.common.insert_url in
    if insert && not (is_empty config.common.insert_url)
    then if config.common.prepend_insert_url then inserts ++ sources else sources ++ inserts
    else sources

unfoldable pub is_authorized : AppConfig → SubscriptionRequest → Bool
unfolding request_is_authorized
is_authorized config request = request.trusted || request_is_authorized config request.access_token

-- `convert` up to the first fetch: the sources that will be loaded.
unfoldable pub prepare_sources : AppConfig → SubscriptionRequest → Result (List SubscriptionInput)
prepare_sources config request =
    let authorized = is_authorized config request in
    reject_if (config.common.api_mode && is_empty request.sources && not authorized)
      AppError.unauthorized
    >> (sources_or_default config request.sources >>= λ sources.
        reject_sensitive_inputs sources authorized
        >> (let all_sources =
              with_inserts config (unwrap_or config.common.enable_insert request.insert) sources in
            enforce_source_limit (length all_sources) config >> ok all_sources))
