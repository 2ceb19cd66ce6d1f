-- ===== src/Parser/Formats.antt =====
-- What crates/easysub-core/src/parser.rs and structured.rs take from other packages: the parsers of
-- URLs, forms, JSON and YAML, base64 and percent decoding.
use easysub.Prelude.{ℕ, Option, List}
use easysub.Text.{Str}
use easysub.Json.{Value}

-- What is read of a `url::Url`.
pub record Url : Type 0 where
  pub host_str : Option Str
  pub port : Option ℕ
  pub port_or_known_default : Option ℕ
  pub username : Str
  pub password : Option Str
  pub path : Str
  pub fragment : Option Str
  pub query_pairs : List (Str × Str)

-- The engines of `base64`.
pub data Engine : Type 0 where
  url_safe_no_pad url_safe standard_no_pad standard : Engine

-- Bytes are lists of numbers, as texts are.
pub record Formats : Type 0 where
  pub parse_url : Str → Option Url
  pub form_pairs : Str → List (Str × Str)
  pub decode : Engine → Str → Option Str
  pub percent_decode : Str → Str
  pub json_from_slice : Str → Option Value
  pub json_to_string : Value → Option Str
  pub yaml_from_str : Str → Option Value
