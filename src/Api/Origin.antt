-- ===== src/Api/Origin.antt =====
-- The base address that a request gives is a scheme and a host.
use easysub.Prelude.{
  OfSome, OfSome-keep_if, OfSome-or, ◌≡◌, refl, ◌⊎◌, inl, inr, ◌++◌, false, not, Option, none, some,
  any, arith, is_empty, keep_if, option_map, unwrap_or,
}
use easysub.Error.{ok, err, ok_or, bad_request}
use easysub.Error.Yields.{Yields, IsBadRequest, Yields-bind, Yields-reject, Yields-if}
use easysub.Text.{Str, codes, str_eq, trim}
use easysub.Api.{
  Headers, is_delimiter, query_flag, header_text, host_of, forwarded_scheme, scheme_of,
  request_base_url,
}

abbrev IsScheme : Str → Type 0
IsScheme scheme = (scheme ≡ codes "http") ⊎ (scheme ≡ codes "https")

-- A scheme and a host that is not empty and holds none of the characters that end it.
abbrev pub IsOrigin : Str → Type 0
IsOrigin url =
    (scheme : Str) × (host : Str) × (url ≡ scheme ++ (codes "://" ++ host))
    × ((scheme ≡ codes "http") ⊎ (scheme ≡ codes "https"))
    × (is_empty host ≡ false)
    × (any is_delimiter host ≡ false)

forwarded_scheme-IsScheme : (o : Option Str) → Yields IsBadRequest IsScheme (forwarded_scheme o)
unfolding forwarded_scheme
forwarded_scheme-IsScheme none = inl refl
forwarded_scheme-IsScheme (some scheme) =
    Yields-if IsScheme IsBadRequest (str_eq scheme (codes "https")) (ok (codes "https")) _
      (λ h. inr refl)
      (λ h.
        Yields-if IsScheme IsBadRequest (str_eq scheme (codes "http")) (ok (codes "http"))
          (err bad_request) (λ k. inl refl) (λ k. refl))

scheme_of-IsScheme :
    (force : Option Str) (headers : Headers)
    → Yields IsBadRequest IsScheme (scheme_of force headers)
unfolding scheme_of
scheme_of-IsScheme force headers =
    Yields-if IsScheme IsBadRequest (unwrap_or false (query_flag force)) (ok (codes "https")) _
      (λ h. inr refl)
      (λ h. forwarded_scheme-IsScheme (header_text headers (codes "x-forwarded-proto")))

abbrev IsFilled : Str → Type 0
IsFilled host = is_empty host ≡ false

keep_if-IsFilled : (o : Option Str) → OfSome IsFilled (keep_if (λ value. not (is_empty value)) o)
keep_if-IsFilled o =
    OfSome-keep_if (λ value. not (is_empty value)) IsFilled o (λ value h. ground arith)

host_of-IsFilled : (headers : Headers) → OfSome IsFilled (host_of headers)
unfolding host_of header_text
host_of-IsFilled headers =
    OfSome-or IsFilled (header_text headers (codes "x-forwarded-host")) _ (keep_if-IsFilled _)
      (keep_if-IsFilled (option_map trim (headers (codes "host"))))

given_or {ℓ} :
    {A : Type ℓ} (Q : A → Type 0) (o : Option A)
    → OfSome Q o
    → Yields IsBadRequest Q (ok_or bad_request o)
given_or Q none h = refl
given_or Q (some a) h = h

-- The base address that is made of a request is `http` or `https`, and a host that is not empty and
-- holds no slash, backslash, number sign or question mark; the only error is `bad_request`.
pub request_base_url-IsOrigin :
    (force : Option Str) (headers : Headers)
    → Yields IsBadRequest IsOrigin (request_base_url force headers)
unfolding request_base_url
request_base_url-IsOrigin force headers =
    Yields-bind IsBadRequest IsFilled IsOrigin (ok_or bad_request (host_of headers)) _
      (given_or IsFilled (host_of headers) (host_of-IsFilled headers))
      (λ host filled. Yields-reject IsOrigin (any is_delimiter host) _ (λ plain.
        Yields-bind IsBadRequest IsScheme IsOrigin (scheme_of force headers) _
          (scheme_of-IsScheme force headers)
          (λ scheme known. (scheme, host, refl, known, filled, plain))))
