-- ===== src/Fetch/Sizes.antt =====
-- The size limit on what comes over HTTP, also out of the cache.
use easysub.Prelude.{
  Among, All-at, All-of, ◌⊎◌, ℕ, ◌+◌, ◌≤◌, ◌≡◌, refl, ◌∙◌, ap, inl, inr, Bool, true, false, Option,
  none, some, List, [], ◌∷◌, ◌++◌, append_assoc, append-nil, arith, ltb, ◌==◌, if◌then◌else◌,
  length, length-append, All, Bool-cases,
}
use easysub.Error.{Result, ok, err, AppError}
use easysub.Text.{Str}
use easysub.Fetch.World.{
  Outside, Response, FetchMetadata, FetchResult, Effect, http_get, CachedValue, Store,
}
use easysub.Fetch.Cache.{Io, Outcome, lift, note}
use easysub.Fetch.{
  Fetcher, read_chunks, announced, with_body, read_response, keep, get_cached, download, get_http,
}

-- The bytes of chunks that all arrived.
abbrev pub joined : List Str → Str
joined [] = []
joined (chunk ∷ rest) = chunk ++ joined rest

abbrev pub arrived : List Str → List (Option Str)
arrived [] = []
arrived (chunk ∷ rest) = some chunk ∷ arrived rest

module _ (outside : Outside) (fetcher : Fetcher) where
  -- What a successful body is: within the limit.
  abbrev pub IsSmall : Result FetchResult → Type 0
  IsSmall (ok r) = length r.body ≤ fetcher.max_bytes
  IsSmall (err e) = Unit

  abbrev SmallBody : Result Str → Type 0
  SmallBody (ok body) = length body ≤ fetcher.max_bytes
  SmallBody (err e) = Unit

  read_chunks_lem :
      (chunks : List (Option Str)) (body : Str)
      → length body ≤ fetcher.max_bytes
      → SmallBody (read_chunks outside fetcher chunks body)
  unfolding read_chunks
  read_chunks_lem [] body h = h
  read_chunks_lem (none ∷ rest) body h = tt
  read_chunks_lem (some chunk ∷ rest) body h =
      elim (Bool-cases (ltb fetcher.max_bytes (length body + length chunk))) [
        | inl large ↦ rw large tt
        | inr small ↦
            rw small (
              read_chunks_lem rest (body ++ chunk)
                (ground (arith, small, length-append body chunk)))
      ]

  -- Chunks that all arrive give their bytes in order exactly if these keep within the limit, and the
  -- error of the limit otherwise; what was read before, `body`, counts too.
  pub read_chunks-arrived :
      (chunks : List Str) (body : Str)
      → length body ≤ fetcher.max_bytes
      → read_chunks outside fetcher (arrived chunks) body ≡ (
          if ltb fetcher.max_bytes (length (body ++ joined chunks))
          then err AppError.limit
          else ok (body ++ joined chunks))
  unfolding read_chunks
  read_chunks-arrived [] body h = rw append-nil (ground (arith, h))
  read_chunks-arrived (chunk ∷ rest) body h =
      elim (Bool-cases (ltb fetcher.max_bytes (length body + length chunk))) [
        | inl large ↦ rw large (
            ground (
              arith,
              large,
              length-append body (chunk ++ joined rest),
              length-append chunk (joined rest),
            ))
        | inr small ↦ rw small (
            read_chunks-arrived rest (body ++ chunk)
              (ground (arith, small, length-append body chunk))
            ∙ ap (λ t. if ltb fetcher.max_bytes (length t) then err AppError.limit else ok t)
                (append_assoc body chunk (joined rest)))
      ]

  abbrev pub IsSmallStore : Store → Type 0
  IsSmallStore = All (λ row. length row.1.body ≤ fetcher.max_bytes)

  pub record IsSmallOutcome (o : Outcome FetchResult) : Type 0 where
    pub result_small : IsSmall o.result
    pub store_small : IsSmallStore o.store

  with_body-IsSmall :
      (metadata : FetchMetadata) (r : Result Str)
      → SmallBody r
      → IsSmall (with_body outside fetcher metadata r)
  unfolding with_body
  with_body-IsSmall metadata (ok body) h = h
  with_body-IsSmall metadata (err e) h = tt

  read_response-IsSmall :
      (response : Option Response) → IsSmall (read_response outside fetcher response)
  unfolding read_response
  read_response-IsSmall none = tt
  read_response-IsSmall (some response) =
      elim (Bool-cases (announced outside fetcher response.content_length)) [
        | inl large ↦ rw large tt
        | inr small ↦ rw small (
            with_body-IsSmall response.metadata (read_chunks outside fetcher response.chunks [])
              (read_chunks_lem response.chunks [] (omega arith)))
      ]

  pub lift-IsSmallOutcome :
      (r : Result FetchResult) (store : Store)
      → IsSmall r
      → IsSmallStore store
      → IsSmallOutcome (lift r store)
  lift-IsSmallOutcome (ok r) store h k = record { result_small = h; store_small = k }
  lift-IsSmallOutcome (err e) store h k = record { result_small = tt; store_small = k }

  pub note-IsSmallOutcome :
      (effect : Effect) (m : Io FetchResult) (store : Store)
      → IsSmallOutcome (m store)
      → IsSmallOutcome (note effect m store)
  note-IsSmallOutcome effect m store h = record {
    result_small = h.result_small;
    store_small = h.store_small;
  }

  pub if-IsSmallOutcome :
      (test : Bool) (m n : Io FetchResult) (store : Store)
      → IsSmallOutcome (m store)
      → IsSmallOutcome (n store)
      → IsSmallOutcome ((if test then m else n) store)
  if-IsSmallOutcome true m n store h k = h
  if-IsSmallOutcome false m n store h k = k

  download-IsSmall :
      (url : Str) (store : Store)
      → IsSmallStore store
      → IsSmallOutcome (download outside fetcher url store)
  unfolding download
  download-IsSmall url store h =
      note-IsSmallOutcome (http_get url) (lift (read_response outside fetcher (outside.send url)))
        store
        (lift-IsSmallOutcome (read_response outside fetcher (outside.send url)) store
          (read_response-IsSmall (outside.send url)) h)

  SmallValue : Option CachedValue → Type 0
  SmallValue none = Unit
  SmallValue (some value) = length value.body ≤ fetcher.max_bytes

  -- What the service relies on of moka: a lookup gives only what the cache holds under that key, and
  -- an insertion adds no entry but the given one.
  pub record CacheAgrees : Type 0 where
    pub looked_up :
        (url : Str) (store : Store) (value : CachedValue)
        → outside.cached url store ≡ some value
        → Among (url, value) store
    pub inserted :
        (url : Str) (value : CachedValue) (store : Store) (row : Str × CachedValue)
        → Among row (outside.insert url value store)
        → (row ≡ (url, value)) ⊎ Among row store

  cached-SmallValue :
      (agree : CacheAgrees) (url : Str) (store : Store) (cached : Option CachedValue)
      → outside.cached url store ≡ cached
      → IsSmallStore store
      → SmallValue cached
  unfolding SmallValue
  cached-SmallValue agree url store none e h = tt
  cached-SmallValue agree url store (some value) e h =
      All-at _ store h (url, value) (agree.looked_up url store value e)

  insert-IsSmallStore :
      (agree : CacheAgrees) (url : Str) (value : CachedValue) (store : Store)
      → length value.body ≤ fetcher.max_bytes
      → IsSmallStore store
      → IsSmallStore (outside.insert url value store)
  insert-IsSmallStore agree url value store h k =
      All-of _ (outside.insert url value store) (λ row m.
        elim (agree.inserted url value store row m) [
          | inl e ↦ rw e h
          | inr old ↦ All-at _ store k row old
        ])

  keep-IsSmall :
      (agree : CacheAgrees) (url : Str) (ttl : ℕ) (trace : List Effect) (store : Store)
      (r : Result FetchResult)
      → IsSmall r
      → IsSmallStore store
      → IsSmallOutcome (keep outside fetcher url ttl trace store r)
  unfolding keep
  keep-IsSmall agree url ttl trace store (ok r) h k = record {
    result_small = h;
    store_small =
        insert-IsSmallStore agree url (record { body = r.body; metadata = r.metadata; ttl = ttl })
          store h k;
  }
  keep-IsSmall agree url ttl trace store (err e) h k = record { result_small = tt; store_small = k }

  get_cached-IsSmall :
      (agree : CacheAgrees) (url : Str) (ttl : ℕ) (cached : Option CachedValue) (store : Store)
      → SmallValue cached
      → IsSmallStore store
      → IsSmallOutcome (get_cached outside fetcher url ttl cached store)
  unfolding get_cached SmallValue
  get_cached-IsSmall agree url ttl (some value) store h k = record {
    result_small = h;
    store_small = k;
  }
  get_cached-IsSmall agree url ttl none store h k =
      let d = download-IsSmall url store k in
      keep-IsSmall agree url ttl _ (download outside fetcher url store).store _ d.result_small
        d.store_small

  pub get_http-IsSmall :
      (agree : CacheAgrees) (url : Str) (ttl : ℕ) (store : Store)
      → IsSmallStore store
      → IsSmallOutcome (get_http outside fetcher url ttl store)
  unfolding get_http
  get_http-IsSmall agree url ttl store h = elim (Bool-cases (ttl == 0)) [
    | inl e ↦ rw e (download-IsSmall url store h)
    | inr e ↦ rw e (
        get_cached-IsSmall agree url ttl (outside.cached url store) store
          (cached-SmallValue agree url store (outside.cached url store) refl h) h)
  ]
