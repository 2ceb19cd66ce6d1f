-- ===== src/Subscription/Trust.antt =====
-- What a request without a token can make the service do.
use easysub.Prelude.{
  ℕ, ◌≡◌, ◌⊎◌, inl, inr, ap, refl, Bool, true, false, not, ◌&&◌, ◌||◌, List, [], ◌∷◌, map, any,
  contains, contains-cons, contains_self, nat_key, list_key, is_empty, unwrap_or, All, All-append,
  All-mono, Bool-cases, or-eq-false, arith,
}
use easysub.Error.{Result, ok, err, ◌>>◌, result_ok}
use easysub.Text.{Str, codes, starts_with, contains_str}
use easysub.Config.{AppConfig}
use easysub.Fetch.World.{Outside, FetchResult, Store}
use easysub.Fetch.Cache.{lift}
use easysub.Fetch.{Fetcher}
use easysub.Fetch.Access.{IsHttpGet, get_with_metadata-http}
use easysub.Subscription.Request.{SubscriptionInput, source, content, SubscriptionRequest}
use easysub.Subscription.Guard.{
  is_authorized, request_is_authorized, is_sensitive_source, is_sensitive_input,
  reject_sensitive_inputs, sources_or_default, with_inserts, prepare_sources,
}
use easysub.Subscription.Load.{Parser, load_subscription_input, fetch_and}

-- A source that the configuration itself adds.
abbrev pub IsInserted : AppConfig → SubscriptionInput → Type 0
IsInserted config input =
    (url : Str) × (input ≡ source url) × (contains config.common.insert_url url ≡ true)

module _ (outside : Outside) (fetcher : Fetcher) (parser : Parser) where
  -- Loading it makes no access but HTTP requests, whatever comes back.
  abbrev pub IsOpen : SubscriptionInput → Type 0
  IsOpen input =
      (index ttl : ℕ) (store : Store)
      → All IsHttpGet (load_subscription_input outside fetcher parser input index ttl store).trace

  lift_open : {A : Type 0} (r : Result A) (store : Store) → All IsHttpGet (lift r store).trace
  lift_open (ok a) store = tt
  lift_open (err e) store = tt

  pub fetch_and_open :
      {A : Type 0} (read : FetchResult → Result A) (s : Str) (ttl : ℕ) (store : Store)
      → is_sensitive_source s ≡ false
      → All IsHttpGet (fetch_and outside fetcher parser read s ttl store).trace
  unfolding fetch_and is_sensitive_source
  fetch_and_open read s ttl store h =
      let (local, rest) =
        or-eq-false (starts_with (codes "file://") s || starts_with (codes "env:") s)
          (not (contains_str (codes "://") s)) h in
      let (file, env) =
        or-eq-false (starts_with (codes "file://") s) (starts_with (codes "env:") s) local in
      get_with_metadata-http outside fetcher s ttl store env file

  is_sensitive_input-IsOpen :
      (input : SubscriptionInput) → is_sensitive_input input ≡ false → IsOpen input
  unfolding load_subscription_input is_sensitive_input
  is_sensitive_input-IsOpen (content text) h index ttl store = lift_open _ store
  is_sensitive_input-IsOpen (source s) h index ttl store = elim (Bool-cases (parser.is_link s)) [
    | inl link ↦ rw link (lift_open _ store)
    | inr address ↦ rw address (fetch_and_open _ s ttl store h)
  ]

  inputs-IsOpen :
      (inputs : List SubscriptionInput) → any is_sensitive_input inputs ≡ false → All IsOpen inputs
  inputs-IsOpen [] h = tt
  inputs-IsOpen (input ∷ rest) h =
      let (here, there) = or-eq-false (is_sensitive_input input) (any is_sensitive_input rest) h in
      (is_sensitive_input-IsOpen input here, inputs-IsOpen rest there)

  abbrev pub IsSafe : AppConfig → SubscriptionInput → Type 0
  IsSafe config input = IsOpen input ⊎ IsInserted config input

  inserted_urls :
      (config : AppConfig) (urls : List Str)
      → ((url : Str) → contains urls url ≡ true → contains config.common.insert_url url ≡ true)
      → All (IsSafe config) (map source urls)
  inserted_urls config [] h = tt
  inserted_urls config (url ∷ rest) h = (
    inr (url, refl, h url (contains_self url rest)),
    inserted_urls config rest (λ u k. h u (ground (arith, contains-cons url rest u, k))),
  )

  with_inserts-IsSafe :
      (config : AppConfig) (insert : Bool) (sources : List SubscriptionInput)
      → All IsOpen sources
      → All (IsSafe config) (with_inserts config insert sources)
  unfolding with_inserts
  with_inserts-IsSafe config insert sources h =
      let own = All-mono IsOpen (IsSafe config) (λ input open_one. inl open_one) sources h in
      let added = inserted_urls config config.common.insert_url (λ u k. k) in
      elim (Bool-cases (insert && not (is_empty config.common.insert_url))) [
        | inl some_more ↦ rw some_more (elim (Bool-cases config.common.prepend_insert_url) [
          | inl in_front ↦ rw in_front (All-append (IsSafe config) _ sources added own)
          | inr behind ↦ rw behind (All-append (IsSafe config) sources _ own added)
        ])
        | inr no_more ↦ rw no_more own
      ]

  sources_or_default_given :
      (config : AppConfig) (inputs : List SubscriptionInput)
      → is_empty inputs ≡ false
      → sources_or_default config inputs ≡ ok inputs
  unfolding sources_or_default
  sources_or_default_given config [] h = cc h
  sources_or_default_given config (input ∷ rest) h = refl

  api_mode_on :
      (config : AppConfig) (request : SubscriptionRequest)
      → is_authorized config request ≡ false
      → config.common.api_mode ≡ true
  unfolding is_authorized request_is_authorized
  api_mode_on config request h = ground (arith, h)

  guard_off : (b : Bool) → (b && false && not false) ≡ false
  guard_off b = ground arith

  after_limit :
      (P : List SubscriptionInput → Type 0) (r : Result (Unit {0})) (l m : List SubscriptionInput)
      → P l
      → (r >> ok l) ≡ ok m
      → P m
  after_limit P (ok u) l m p h = rw⁻¹ (ap (λ t. unwrap_or l (result_ok t)) h) p
  after_limit P (err e) l m p h = cc h

  -- If a request that is not authorised gets as far as loading its sources, each of them is one that
  -- the configuration inserts, or loading it makes no access but HTTP requests, whatever comes back
  -- and whatever the cache holds.
  pub prepare_sources-IsSafe :
      (config : AppConfig) (request : SubscriptionRequest) (sources : List SubscriptionInput)
      → is_authorized config request ≡ false
      → prepare_sources config request ≡ ok sources
      → All (IsSafe config) sources
  unfolding prepare_sources reject_sensitive_inputs
  prepare_sources-IsSafe config request sources unknown =
      elim (Bool-cases (is_empty request.sources)) [
        | inl default ↦ rw (unknown, api_mode_on config request unknown, default) (λ h. cc h)
        | inr given ↦
            rw
              (
                unknown,
                given,
                guard_off config.common.api_mode,
                sources_or_default_given config request.sources given,
              )
              (elim (Bool-cases (any is_sensitive_input request.sources)) [
                | inl local ↦ rw local (λ h. cc h)
                | inr remote ↦ rw remote (
                    after_limit (All (IsSafe config)) _ _ sources (
                      with_inserts-IsSafe config _ request.sources
                        (inputs-IsOpen request.sources remote)))
              ])
      ]
