-- ===== src/Subscription/Request.antt =====
-- What a subscription request holds.
use easysub.Prelude.{ℕ, Bool, Option, List}
use easysub.Text.{Str}
use easysub.Model.{Proxy}
use easysub.Fetch.World.{FetchMetadata}

pub data SubscriptionTarget : Type 0 where
  clash sing_box : SubscriptionTarget

pub data SubscriptionInput : Type 0 where
  source content : Str → SubscriptionInput

pub record NodeConversionOptions : Type 0 where
  pub udp : Option Bool
  pub tcp_fast_open : Option Bool
  pub skip_cert_verify : Option Bool
  pub filter_deprecated : Option Bool
  pub append_proxy_type : Option Bool
  pub sort : Option Bool

pub record ClashSubscriptionOptions : Type 0 where
  pub ruleset_optimize : Option Bool
  pub ruleset_optimize_to_http : Option Bool
  pub geo_convert_ruleset : Option Bool
  pub provider_base_url : Option Str

pub record SubscriptionRequest : Type 0 where
  pub target : SubscriptionTarget
  pub sources : List SubscriptionInput
  pub external_config : Option Str
  pub access_token : Option Str
  pub trusted : Bool
  pub insert : Option Bool
  pub nodes : NodeConversionOptions
  pub clash : ClashSubscriptionOptions
  pub template_variables : List (Str × Str)

-- What one source gives: its index, its nodes and the metadata of the response.
pub record Loaded : Type 0 where
  pub index : ℕ
  pub nodes : List Proxy
  pub metadata : FetchMetadata
