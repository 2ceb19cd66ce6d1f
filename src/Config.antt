-- ===== src/Config.antt =====
-- crates/easysub-core/src/config.rs: the configuration and what is computed from it. Reading the TOML
-- file and the private subscriptions are left out.
use easysub.Prelude.{
  ℕ, ◌+◌, ◌*◌, ◌/◌, Bool, true, false, ◌||◌, Option, none, List, [], min, max, ◌==◌, if◌then◌else◌,
}
use easysub.Text.{Str, codes, starts_with}
use easysub.Fetch.Paths.{is_absolute, path_join}

pub record CommonConfig : Type 0 where
  pub api_mode : Bool
  pub api_access_token : Str
  pub default_url : List Str
  pub insert_url : List Str
  pub enable_insert : Bool
  pub prepend_insert_url : Bool
  pub append_proxy_type : Bool
  pub default_external_config : Str
  pub clash_rule_base : Str
  pub singbox_rule_base : Str
  pub proxy_config : Str

abbrev pub default_common : CommonConfig
default_common = record {
  api_mode = false;
  api_access_token = [];
  default_url = [];
  insert_url = [];
  enable_insert = true;
  prepend_insert_url = true;
  append_proxy_type = false;
  default_external_config = [];
  clash_rule_base = codes "base/clash.liquid";
  singbox_rule_base = codes "base/singbox.liquid";
  proxy_config = codes "SYSTEM";
}

pub record RulesetTransform : Type 0 where
  pub name : Str
  pub behavior : Str
  pub url_format : Str

-- The two maps are lists of their entries.
pub record NodePreferences : Type 0 where
  pub sort_flag : Bool
  pub clash_proxies_style : Str
  pub clash_proxy_groups_style : Str
  pub append_proxy_type : Bool
  pub filter_deprecated_nodes : Bool
  pub append_sub_userinfo : Bool
  pub udp_flag : Option Bool
  pub tcp_fast_open_flag : Option Bool
  pub skip_cert_verify_flag : Option Bool
  pub clash_ruleset_optimize : Bool
  pub clash_ruleset_optimize_to_http : Bool
  pub clash_geo_convert_ruleset : Bool
  pub singbox_add_clash_modes : Bool
  pub clash_rulesets : List (Str × RulesetTransform)
  pub singbox_rulesets : List (Str × RulesetTransform)

abbrev pub default_preferences : NodePreferences
default_preferences = record {
  sort_flag = false;
  clash_proxies_style = codes "flow";
  clash_proxy_groups_style = codes "block";
  append_proxy_type = false;
  filter_deprecated_nodes = false;
  append_sub_userinfo = false;
  udp_flag = none;
  tcp_fast_open_flag = none;
  skip_cert_verify_flag = none;
  clash_ruleset_optimize = false;
  clash_ruleset_optimize_to_http = false;
  clash_geo_convert_ruleset = false;
  singbox_add_clash_modes = false;
  clash_rulesets = [];
  singbox_rulesets = [];
}

pub record AdvancedConfig : Type 0 where
  pub default_port : ℕ
  pub port_env : Str
  pub log_level : Str
  pub cache_subscription : ℕ
  pub cache_config : ℕ
  pub cache_ruleset : ℕ
  pub max_allowed_rules : ℕ
  pub max_allowed_rulesets : ℕ
  pub max_download_bytes : ℕ
  pub cache_capacity_bytes : ℕ
  pub fetch_concurrency : ℕ
  pub heavy_task_concurrency : ℕ
  pub request_timeout_seconds : ℕ
  pub skip_failed_links : Bool
  pub enable_file_share : Bool
  pub file_share_path : Str
  pub enable_private_sub : Bool
  pub private_sub_config : Str

-- The processors that the system reports, `cpus`, are at least one and few enough not to overflow.
abbrev pub default_advanced : ℕ → AdvancedConfig
default_advanced cpus = record {
  default_port = 25500;
  port_env = codes "PORT";
  log_level = codes "info";
  cache_subscription = 60;
  cache_config = 300;
  cache_ruleset = 21600;
  max_allowed_rules = 1000000;
  max_allowed_rulesets = 64;
  max_download_bytes = 32 * 1024 * 1024;
  cache_capacity_bytes = 64 * 1024 * 1024;
  fetch_concurrency = min 64 (max 8 (cpus * 4));
  heavy_task_concurrency = max 1 ((cpus + 1) / 2);
  request_timeout_seconds = 30;
  skip_failed_links = true;
  enable_file_share = true;
  file_share_path = codes "./file_share";
  enable_private_sub = false;
  private_sub_config = [];
}

pub record AppConfig : Type 0 where
  pub common : CommonConfig
  pub node_pref : NodePreferences
  pub ruleset_update_interval : ℕ
  pub globals : List (Str × Str)
  pub advance : AdvancedConfig
  pub base_dir : Str

-- A zero, which would refuse everything, is taken for the default.
abbrev unless_zero : ℕ → ℕ → ℕ
unless_zero value default = if value == 0 then default else value

unfoldable pub normalize : ℕ → AppConfig → AppConfig
normalize cpus config =
    let defaults = default_advanced cpus in
    let a = config.advance in
    record config {
      advance = record a {
        max_download_bytes = unless_zero a.max_download_bytes defaults.max_download_bytes;
        max_allowed_rulesets = unless_zero a.max_allowed_rulesets defaults.max_allowed_rulesets;
        fetch_concurrency = unless_zero a.fetch_concurrency defaults.fetch_concurrency;
        heavy_task_concurrency =
            unless_zero a.heavy_task_concurrency defaults.heavy_task_concurrency;
      };
    }

unfoldable pub is_resolved : Str → Bool
unfolding is_absolute
is_resolved source =
    starts_with (codes "http://") source
    || starts_with (codes "https://") source
    || starts_with (codes "file://") source
    || starts_with (codes "env:") source
    || is_absolute source

unfoldable pub resolve_source : AppConfig → Str → Str
unfolding is_resolved path_join
resolve_source config source =
    if is_resolved source then source else path_join config.base_dir source
