-- ===== src/Fetch/World.antt =====
-- What crates/easysub-core/src/fetch.rs takes from outside: the environment, the HTTP client, the
-- files, percent decoding and the cache of moka, of which `try_get_with` uses a lookup, that may have
-- forgotten what is old or was too much, and an insertion, that may not admit a value or drop others
-- for it; and the accesses to these that a run makes.
use easysub.Prelude.{ℕ, Option, none, List}
use easysub.Text.{Str}

pub record FetchMetadata : Type 0 where
  pub subscription_userinfo : Option Str
  pub profile_web_page_url : Option Str
  pub profile_update_interval : Option Str

abbrev pub no_metadata : FetchMetadata
no_metadata = record {
  subscription_userinfo = none;
  profile_web_page_url = none;
  profile_update_interval = none;
}

-- Bodies are lists of bytes.
pub record FetchResult : Type 0 where
  pub body : Str
  pub metadata : FetchMetadata

-- A response with a good status: its announced length, the three headers, and its stream of chunks,
-- where `none` is a broken connection.
pub record Response : Type 0 where
  pub content_length : Option ℕ
  pub metadata : FetchMetadata
  pub chunks : List (Option Str)

pub record CachedValue : Type 0 where
  pub body : Str
  pub metadata : FetchMetadata
  pub ttl : ℕ

-- The entries that the cache holds.
abbrev pub Store : Type 0
Store = List (Str × CachedValue)

pub record Outside : Type 0 where
  pub env_var : Str → Option Str
  pub percent_decode : Str → Str
  pub send : Str → Option Response
  pub size_of : Str → Option ℕ
  pub bytes_of : Str → Option Str
  pub cached : Str → Store → Option CachedValue
  pub insert : Str → CachedValue → Store → Store

pub data Effect : Type 0 where
  env_read http_get file_size file_read : Str → Effect
