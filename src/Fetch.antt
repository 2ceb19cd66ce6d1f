-- ===== src/Fetch.antt =====
-- crates/easysub-core/src/fetch.rs: fetching a source over HTTP, from the shared files, from the
-- environment or from a local path, with a cache and a limit on the size.
pub mod World
pub mod Paths
pub mod Cache
pub mod Escape
pub mod Sizes
pub mod Limit
pub mod Access
mod Tests
use easysub.Prelude.{
  ℕ, ◌+◌, ◌≡◌, refl, Bool, true, false, ◌&&◌, ◌||◌, Option, none, some, List, [], ◌∷◌, ◌++◌, ltb,
  ◌==◌, if◌then◌else◌, length, is_some, option_map, unwrap_or,
}
use easysub.Error.{Result, ok, err, AppError}
use easysub.Text.{Str, codes, starts_with, strip_prefix, trim_start_by, trim_start_matches}
use World.{
  Outside, Response, FetchMetadata, CachedValue, Store, FetchResult, Effect, env_read, http_get,
  file_size, file_read, no_metadata,
}
use Paths.{secure_join}
use Cache.{Io, Outcome, done, fail, lift, note, ◌>>=◌}

pub record Fetcher : Type 0 where
  pub max_bytes : ℕ
  pub file_share_root : Str
  pub enable_file_share : Bool

module _ (outside : Outside) where
  -- The environment is read only behind the prefix `env:`.
  unfoldable pub resolve_env : Str → Io Str
  unfolding strip_prefix trim_start_by
  resolve_env source = elim (strip_prefix (codes "env:") source) [
    | none ↦ done source
    | some name ↦
        let variable = trim_start_by (λ c. c == b'/') name in
        note (env_read variable) (done (unwrap_or source (outside.env_var variable)))
  ]

  module _ (fetcher : Fetcher) where
    -- The loop over the chunks of the stream; a chunk is `none` where the connection fails.
    unfoldable pub read_chunks : List (Option Str) → Str → Result Str
    read_chunks [] body = ok body
    read_chunks (none ∷ rest) body = err AppError.upstream
    read_chunks (some chunk ∷ rest) body =
        let more = read_chunks rest (body ++ chunk) in
        if ltb fetcher.max_bytes (length body + length chunk) then err AppError.limit else more

    unfoldable pub announced : Option ℕ → Bool
    announced none = false
    announced (some n) = ltb fetcher.max_bytes n

    with_body : FetchMetadata → Result Str → Result FetchResult
    with_body metadata (ok body) = ok (record { body = body; metadata = metadata })
    with_body metadata (err e) = err e

    unfoldable pub read_response : Option Response → Result FetchResult
    unfolding announced with_body
    read_response none = err AppError.upstream
    read_response (some response) =
        if announced response.content_length
        then err AppError.limit
        else with_body response.metadata (read_chunks response.chunks [])

    unfoldable pub download : Str → Io FetchResult
    download url = note (http_get url) (lift (read_response (outside.send url)))

    abbrev pub cached_result : CachedValue → FetchResult
    cached_result value = record { body = value.body; metadata = value.metadata }

    -- What is kept of a download, and what is returned: every error comes back as an upstream error.
    unfoldable pub keep : Str → ℕ → List Effect → Store → Result FetchResult → Outcome FetchResult
    keep url ttl trace store (ok r) = record {
      trace = trace;
      store = outside.insert url (record { body = r.body; metadata = r.metadata; ttl = ttl }) store;
      result = ok r;
    }
    keep url ttl trace store (err e) = record {
      trace = trace;
      store = store;
      result = err AppError.upstream;
    }

    -- `try_get_with`: a value in the cache is returned, and a new one is kept if it can be had.
    unfoldable pub get_cached : Str → ℕ → Option CachedValue → Io FetchResult
    unfolding keep
    get_cached url ttl (some value) store = done (cached_result value) store
    get_cached url ttl none store =
        let o = download url store in keep url ttl o.trace o.store o.result

    unfoldable pub get_http : Str → ℕ → Io FetchResult
    get_http url ttl store =
        if ttl == 0 then download url store else get_cached url ttl (outside.cached url store) store

    abbrev pub local_result : Str → FetchResult
    local_result body = record { body = body; metadata = no_metadata }

    read_bytes : Option Str → Result FetchResult
    read_bytes none = err AppError.bad_request
    read_bytes (some body) = ok (local_result body)

    unfoldable pub read_sized : Str → Option ℕ → Io FetchResult
    unfolding read_bytes
    read_sized path none = fail AppError.bad_request
    read_sized path (some size) =
        if ltb fetcher.max_bytes size
        then fail AppError.limit
        else note (file_read path) (lift (read_bytes (outside.bytes_of path)))

    unfoldable pub read_limited : Str → Io FetchResult
    unfolding read_sized
    read_limited path = note (file_size path) (read_sized path (outside.size_of path))

    read_shared : Result Str → Io FetchResult
    read_shared (ok path) = read_limited path
    read_shared (err e) = fail e

    unfoldable pub is_http : Str → Bool
    is_http source = starts_with (codes "http://") source || starts_with (codes "https://") source

    -- The part of a shared source behind `file://`.
    unfoldable pub shared_name : Str → Str
    unfolding trim_start_matches trim_start_by
    shared_name source =
        trim_start_by (λ c. c == b'/') (trim_start_matches (codes "file://") source)

    unfoldable pub get_shared : Str → Io FetchResult
    unfolding read_shared
    get_shared source =
        if fetcher.enable_file_share
        then read_shared (secure_join outside fetcher.file_share_root (shared_name source))
        else fail AppError.bad_request

    unfoldable pub get_resolved : Str → ℕ → Bool → Io FetchResult
    get_resolved source ttl allow_local =
        if is_http source
        then get_http source ttl
        else if starts_with (codes "file://") source
        then get_shared source
        else if allow_local
        then read_limited source
        else fail AppError.bad_request

    unfoldable pub get_with_metadata : Str → ℕ → Bool → Io FetchResult
    get_with_metadata source ttl allow_local = do
      resolved ← resolve_env source
      get_resolved resolved ttl allow_local
