-- ===== src/Fetch/Limit.antt =====
-- The size limit on every source: no body that is fetched is larger than `max_bytes`.
use easysub.Prelude.{
  ℕ, ◌≡◌, refl, inl, inr, Bool, false, Option, none, some, arith, ltb, ◌==◌, length, Bool-cases,
  Option-cases, unwrap_or,
}
use easysub.Error.{Result, ok, err, AppError}
use easysub.Text.{Str, codes, starts_with, strip_prefix, trim_start_by}
use easysub.Fetch.World.{Outside, Store}
use easysub.Fetch.Cache.{fail, lift}
use easysub.Fetch.{
  Fetcher, read_bytes, read_sized, read_shared, get_http, read_limited, is_http, get_shared,
  get_resolved, resolve_env, get_with_metadata,
}
use easysub.Fetch.Sizes.{
  IsSmall, IsSmallStore, IsSmallOutcome, CacheAgrees, lift-IsSmallOutcome, note-IsSmallOutcome,
  if-IsSmallOutcome, get_http-IsSmall,
}

module _ (outside : Outside) (fetcher : Fetcher) where
  -- A file has the size that its metadata say.
  abbrev pub SizesAgree : Type 0
  SizesAgree =
      (path : Str) (size : ℕ) (body : Str)
      → outside.size_of path ≡ some size
      → outside.bytes_of path ≡ some body
      → length body ≡ size

  module _ (agree : SizesAgree) (cache_agrees : CacheAgrees outside fetcher) where
    read_bytes-IsSmall :
        (path : Str) (size : ℕ) (bytes : Option Str)
        → outside.size_of path ≡ some size
        → outside.bytes_of path ≡ bytes
        → ltb fetcher.max_bytes size ≡ false
        → IsSmall outside fetcher (read_bytes outside fetcher bytes)
    unfolding read_bytes
    read_bytes-IsSmall path size none known e small = tt
    read_bytes-IsSmall path size (some body) known e small =
        ground (arith, agree path size body known e, small)

    read_sized-IsSmall :
        (path : Str) (size : Option ℕ) (store : Store)
        → outside.size_of path ≡ size
        → IsSmallStore outside fetcher store
        → IsSmallOutcome outside fetcher (read_sized outside fetcher path size store)
    unfolding read_sized
    read_sized-IsSmall path none store known h = record { result_small = tt; store_small = h }
    read_sized-IsSmall path (some size) store known h =
        elim (Bool-cases (ltb fetcher.max_bytes size)) [
          | inl large ↦ rw large (record { result_small = tt; store_small = h })
          | inr small ↦ rw small (
              note-IsSmallOutcome outside fetcher _
                (lift (read_bytes outside fetcher (outside.bytes_of path))) store
                (lift-IsSmallOutcome outside fetcher
                  (read_bytes outside fetcher (outside.bytes_of path)) store
                  (read_bytes-IsSmall path size (outside.bytes_of path) known refl small) h))
        ]

    read_limited-IsSmall :
        (path : Str) (store : Store)
        → IsSmallStore outside fetcher store
        → IsSmallOutcome outside fetcher (read_limited outside fetcher path store)
    unfolding read_limited
    read_limited-IsSmall path store h =
        note-IsSmallOutcome outside fetcher _
          (read_sized outside fetcher path (outside.size_of path)) store
          (read_sized-IsSmall path (outside.size_of path) store refl h)

    read_shared-IsSmall :
        (path : Result Str) (store : Store)
        → IsSmallStore outside fetcher store
        → IsSmallOutcome outside fetcher (read_shared outside fetcher path store)
    unfolding read_shared
    read_shared-IsSmall (ok path) store h = read_limited-IsSmall path store h
    read_shared-IsSmall (err e) store h = record { result_small = tt; store_small = h }

    get_shared-IsSmall :
        (source : Str) (store : Store)
        → IsSmallStore outside fetcher store
        → IsSmallOutcome outside fetcher (get_shared outside fetcher source store)
    unfolding get_shared
    get_shared-IsSmall source store h =
        if-IsSmallOutcome outside fetcher fetcher.enable_file_share _ (fail AppError.bad_request)
          store (read_shared-IsSmall _ store h) (record { result_small = tt; store_small = h })

    get_resolved-IsSmall :
        (source : Str) (ttl : ℕ) (allow_local : Bool) (store : Store)
        → IsSmallStore outside fetcher store
        → IsSmallOutcome outside fetcher (get_resolved outside fetcher source ttl allow_local store)
    unfolding get_resolved
    get_resolved-IsSmall source ttl allow_local store h =
        if-IsSmallOutcome outside fetcher (is_http outside fetcher source)
          (get_http outside fetcher source ttl) _ store
          (get_http-IsSmall outside fetcher cache_agrees source ttl store h)
          (if-IsSmallOutcome outside fetcher (starts_with (codes "file://") source)
            (get_shared outside fetcher source) _ store (get_shared-IsSmall source store h)
            (if-IsSmallOutcome outside fetcher allow_local (read_limited outside fetcher source)
              (fail AppError.bad_request) store (read_limited-IsSmall source store h)
              (record { result_small = tt; store_small = h })))

    -- Whatever the source, the cache lifetime and the permission for local files, a body that is
    -- returned is no longer than `max_bytes`, and so is every body in the cache afterwards, provided
    -- that those in the cache before were, that files have the sizes that their metadata say, and that
    -- the cache gives back only what it holds and takes in only what it is given.
    pub get_with_metadata-IsSmall :
        (source : Str) (ttl : ℕ) (allow_local : Bool) (store : Store)
        → IsSmallStore outside fetcher store
        → IsSmallOutcome outside fetcher
            (get_with_metadata outside fetcher source ttl allow_local store)
    unfolding get_with_metadata resolve_env
    get_with_metadata-IsSmall source ttl allow_local store h =
        elim (Option-cases (strip_prefix (codes "env:") source)) [
          | inl e ↦ rw e (get_resolved-IsSmall source ttl allow_local store h)
          | inr (name, e) ↦ rw e (
              let small =
                get_resolved-IsSmall
                  (unwrap_or source (outside.env_var (trim_start_by (λ c. c == b'/') name))) ttl
                  allow_local store h in
              record { result_small = small.result_small; store_small = small.store_small })
        ]
