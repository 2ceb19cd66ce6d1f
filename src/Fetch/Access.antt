-- ===== src/Fetch/Access.antt =====
-- Which accesses a fetch makes: a source that the service takes from strangers leads to HTTP accesses
-- only.
use easysub.Prelude.{
  ℕ, ◌≡◌, inl, inr, Bool, true, false, Option, none, some, List, ◌==◌, if◌then◌else◌, Bool-cases,
  Option-cases, All,
}
use easysub.Error.{Result, ok, err}
use easysub.Text.{Str, codes, starts_with, strip_prefix}
use easysub.Fetch.World.{Outside, FetchResult, Effect, http_get, CachedValue, Store}
use easysub.Fetch.Cache.{Io, lift}
use easysub.Fetch.{
  Fetcher, read_response, download, keep, get_cached, get_http, is_http, get_resolved, resolve_env,
  get_with_metadata,
}

abbrev pub IsHttpGet : Effect → Type 0
IsHttpGet (http_get url) = Unit
IsHttpGet effect = ⊥

module _ (outside : Outside) (fetcher : Fetcher) where
  lift_http : (r : Result FetchResult) (store : Store) → All IsHttpGet (lift r store).trace
  lift_http (ok r) store = tt
  lift_http (err e) store = tt

  download_http :
      (url : Str) (store : Store) → All IsHttpGet (download outside fetcher url store).trace
  unfolding download
  download_http url store = (tt, lift_http (read_response outside fetcher (outside.send url)) store)

  if_http :
      (test : Bool) (m n : Io FetchResult) (store : Store)
      → All IsHttpGet (m store).trace
      → All IsHttpGet (n store).trace
      → All IsHttpGet ((if test then m else n) store).trace
  if_http true m n store h k = h
  if_http false m n store h k = k

  keep_http :
      (url : Str) (ttl : ℕ) (trace : List Effect) (store : Store) (result : Result FetchResult)
      → All IsHttpGet trace
      → All IsHttpGet (keep outside fetcher url ttl trace store result).trace
  unfolding keep
  keep_http url ttl trace store (ok r) h = h
  keep_http url ttl trace store (err e) h = h

  get_cached_http :
      (url : Str) (ttl : ℕ) (cached : Option CachedValue) (store : Store)
      → All IsHttpGet (get_cached outside fetcher url ttl cached store).trace
  unfolding get_cached
  get_cached_http url ttl (some value) store = tt
  get_cached_http url ttl none store = keep_http url ttl _ _ _ (download_http url store)

  get_http_http :
      (url : Str) (ttl : ℕ) (store : Store)
      → All IsHttpGet (get_http outside fetcher url ttl store).trace
  unfolding get_http
  get_http_http url ttl store = elim (Bool-cases (ttl == 0)) [
    | inl e ↦ rw e (download_http url store)
    | inr e ↦ rw e (get_cached_http url ttl (outside.cached url store) store)
  ]

  -- A source that neither asks for the environment nor for a shared file makes no access but an HTTP
  -- request, whatever comes back, when local files are not allowed.
  pub get_with_metadata-http :
      (source : Str) (ttl : ℕ) (store : Store)
      → starts_with (codes "env:") source ≡ false
      → starts_with (codes "file://") source ≡ false
      → All IsHttpGet (get_with_metadata outside fetcher source ttl false store).trace
  unfolding get_with_metadata resolve_env get_resolved starts_with
  get_with_metadata-http source ttl store no_env no_file =
      elim (Option-cases (strip_prefix (codes "env:") source)) [
        | inl e ↦
            rw (e, no_file)
              (if_http (is_http outside fetcher source) (get_http outside fetcher source ttl) _
                store (get_http_http source ttl store) tt)
        | inr (name, e) ↦ cc (no_env, e)
      ]
