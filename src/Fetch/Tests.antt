-- ===== src/Fetch/Tests.antt =====
-- The properties of crates/easysub-core/src/fetch.rs at a concrete environment.
use easysub.Prelude.{
  Among, list_same_iff, nat_key, Bool-cases, inl, inr, ℕ, ◌≡◌, refl, true, false, Option, none,
  some, [], ◌∷◌, option_map, length, arith, if◌then◌else◌, All,
}
use easysub.Error.{ok, err, AppError}
use easysub.Text.{Str, codes, str_eq, starts_with}
use easysub.Fetch.World.{Outside, Response, FetchResult, CachedValue, Store, no_metadata}
use easysub.Fetch.Paths.{secure_join}
use easysub.Fetch.{
  Fetcher, is_http, read_chunks, resolve_env, get_resolved, get_shared, shared_name, read_limited,
  get_with_metadata,
}
use easysub.Fetch.Sizes.{arrived, IsSmallOutcome, CacheAgrees, read_chunks-arrived}
use easysub.Fetch.Limit.{SizesAgree, get_with_metadata-IsSmall}
use easysub.Fetch.Access.{IsHttpGet, get_with_metadata-http}
use easysub.Fetch.Escape.{IsBelow, secure_join-IsBelow}

abbrev some_response : Response
some_response = record {
  content_length = none;
  metadata = no_metadata;
  chunks = some (codes "ss") ∷ some (codes "://") ∷ [];
}

abbrev some_file : Str → Option Str
some_file path = if str_eq path (codes "/srv/a.ini") then some (codes "abc") else none

-- A cache that forgets nothing.
unfoldable first_under : Str → Store → Option CachedValue
first_under url [] = none
first_under url ((key, value) ∷ rest) =
    let later = first_under url rest in if str_eq key url then some value else later

abbrev some_outside : Outside
some_outside = record {
  env_var = λ name. none;
  percent_decode = λ s. s;
  send = λ url. some some_response;
  size_of = λ path. option_map length (some_file path);
  bytes_of = some_file;
  cached = first_under;
  insert = λ url value store. (url, value) ∷ store;
}

abbrev some_fetcher : Fetcher
some_fetcher = record { max_bytes = 8; file_share_root = codes "/srv/"; enable_file_share = true }

abbrev some_url : Str
some_url = codes "https://a.b/c"

abbrev some_body : FetchResult
some_body = record { body = codes "ss://"; metadata = no_metadata }

-- A shared file is read where the root holds it.
reads_shared_file :
    (get_with_metadata some_outside some_fetcher (codes "file:///a.ini") 60 false []).result
    ≡ ok (record { body = codes "abc"; metadata = no_metadata })
unfolding get_with_metadata resolve_env get_resolved get_shared shared_name secure_join read_limited
    is_http starts_with
reads_shared_file = refl

refuses_parents :
    secure_join some_outside (codes "/srv/") (codes "../a.ini") ≡ err AppError.bad_request
unfolding secure_join
refuses_parents = refl

some_sizes : SizesAgree some_outside some_fetcher
some_sizes path size body known held = length_known (some_file path) size body known held
  where
    length_known :
        (o : Option Str) (size : ℕ) (body : Str)
        → option_map length o ≡ some size
        → o ≡ some body
        → length body ≡ size
    length_known none size body known held = cc held
    length_known (some b) size body known held = cc (known, held)

abbrev pair : Str → CachedValue → Str × CachedValue
pair url value = (url, value)

first_under-Among :
    (url : Str) (store : Store) (value : CachedValue)
    → first_under url store ≡ some value
    → Among (url, value) store
unfolding first_under
first_under-Among url [] value = λ h. cc h
first_under-Among url ((key, held) ∷ rest) value = elim (Bool-cases (str_eq key url)) [
  | inl e ↦ rw e (λ h. inl (found ((list_same_iff key url).0 e) h))
  | inr e ↦ rw e (λ h. inr (first_under-Among url rest value h))
]
  where
    found : key ≡ url → some held ≡ some value → pair url value ≡ pair key held
    found e h = cc (e, h)

some_cache : CacheAgrees some_outside some_fetcher
unfolding first_under
some_cache = record {
  looked_up = λ url store value h. first_under-Among url store value h;
  inserted = λ url value store row m. m;
}

read_chunks-arrived_example :
    read_chunks some_outside some_fetcher (arrived (codes "ss" ∷ codes "://" ∷ [])) (codes "x")
    ≡ ok (codes "xss://")
read_chunks-arrived_example =
    read_chunks-arrived some_outside some_fetcher (codes "ss" ∷ codes "://" ∷ []) (codes "x")
      (omega arith)

get_with_metadata-IsSmall_example :
    IsSmallOutcome some_outside some_fetcher
      (get_with_metadata some_outside some_fetcher some_url 60 false [])
get_with_metadata-IsSmall_example =
    get_with_metadata-IsSmall some_outside some_fetcher some_sizes some_cache some_url 60 false []
      tt

get_with_metadata-http_example :
    All IsHttpGet (get_with_metadata some_outside some_fetcher some_url 60 false []).trace
unfolding starts_with
get_with_metadata-http_example =
    get_with_metadata-http some_outside some_fetcher some_url 60 [] refl refl

joins_shared_file :
    secure_join some_outside (codes "/srv/") (codes "a.ini") ≡ ok (codes "/srv/a.ini")
unfolding secure_join
joins_shared_file = refl

secure_join-IsBelow_example : IsBelow (codes "/srv/") (codes "/srv/a.ini")
secure_join-IsBelow_example =
    secure_join-IsBelow some_outside (codes "/srv/") (codes "a.ini") (codes "/srv/a.ini")
      joins_shared_file
