-- ===== src/Subscription/Tests.antt =====
-- The properties of crates/easysub-core/src/subscription.rs at a concrete request.
use easysub.Prelude.{
  ℕ, ◌≤◌, ◌≡◌, ◌⊎◌, refl, true, false, none, some, List, [], ◌∷◌, All, any, arith,
}
use easysub.External.{RulesetSpec, surge}
use easysub.Subscription.Rulesets.{IsOpenRuleset, check_rulesets-IsOpenRuleset}
use easysub.Error.{Result, ok, err, AppError, is_err}
use easysub.Text.{codes, starts_with, contains_str}
use easysub.Config.{AppConfig, default_common, default_preferences, default_advanced}
use easysub.Fetch.World.{Outside, no_metadata}
use easysub.Fetch.{Fetcher}
use easysub.Subscription.Request.{
  SubscriptionInput, source, content, SubscriptionRequest, clash, Loaded,
}
use easysub.Subscription.Guard.{
  is_authorized, prepare_sources, reject_sensitive_inputs, sources_or_default, with_inserts,
  enforce_source_limit, is_sensitive_input,
}
use easysub.Subscription.Load.{Parser, Fetched, settle_all, check_rulesets}
use easysub.Subscription.Collect.{
  Collecting, collecting, start, finish, Run, stop, more, begin, finished_with, oks, sort_by_key,
  concurrency,
}
use easysub.Subscription.Trust.{IsSafe, prepare_sources-IsSafe}
use easysub.Subscription.Progress.{IsOver, RunsAtMost, Run-total}
use easysub.Subscription.InOrder.{source_index, collect-in_order}

abbrev some_outside : Outside
some_outside = record {
  env_var = λ name. none;
  percent_decode = λ s. s;
  send = λ url. none;
  size_of = λ path. none;
  bytes_of = λ path. none;
  cached = λ url store. none;
  insert = λ url value store. store;
}

abbrev some_fetcher : Fetcher
some_fetcher = record { max_bytes = 8; file_share_root = codes "/srv"; enable_file_share = true }

abbrev some_parser : Parser
some_parser = record {
  is_link = starts_with (codes "ss://");
  read_node = λ text index. err AppError.conversion;
  read_subscription = λ text index. ok [];
}

-- A service that asks for a token and inserts a local source of its own.
abbrev some_config : AppConfig
some_config = record {
  common = record default_common {
    api_mode = true;
    api_access_token = codes "secret";
    insert_url = codes "own.txt" ∷ [];
  };
  node_pref = default_preferences;
  ruleset_update_interval = 432000;
  globals = [];
  advance = default_advanced 4;
  base_dir = codes "/etc/easysub";
}

abbrev some_request : SubscriptionRequest
some_request = record {
  target = clash;
  sources = source (codes "https://a.b/c") ∷ content (codes "x") ∷ [];
  external_config = none;
  access_token = some (codes "guess");
  trusted = false;
  insert = none;
  nodes = record {
    udp = none;
    tcp_fast_open = none;
    skip_cert_verify = none;
    filter_deprecated = none;
    append_proxy_type = none;
    sort = none;
  };
  clash = record {
    ruleset_optimize = none;
    ruleset_optimize_to_http = none;
    geo_convert_ruleset = none;
    provider_base_url = none;
  };
  template_variables = [];
}

request_is_unknown : is_authorized some_config some_request ≡ false
unfolding is_authorized
request_is_unknown = refl

abbrev some_sources : List SubscriptionInput
some_sources = source (codes "own.txt") ∷ source (codes "https://a.b/c") ∷ content (codes "x") ∷ []

request_is_prepared : prepare_sources some_config some_request ≡ ok some_sources
unfolding prepare_sources is_authorized reject_sensitive_inputs sources_or_default with_inserts
    enforce_source_limit is_sensitive_input starts_with contains_str
request_is_prepared = refl

prepare_sources-IsSafe_example :
    All (IsSafe some_outside some_fetcher some_parser some_config) some_sources
prepare_sources-IsSafe_example =
    prepare_sources-IsSafe some_outside some_fetcher some_parser some_config some_request
      some_sources request_is_unknown request_is_prepared

-- Two sources of which the second is loaded first, and one that fails and is left out.
abbrev some_results : List (Result Fetched)
some_results = ok ([], no_metadata) ∷ err AppError.upstream ∷ []

abbrev empty_result : ℕ → Loaded
empty_result index = record { index = index; nodes = []; metadata = no_metadata }

second_first :
    Run 2
      (begin (settle_all true 0 some_results))
      (finished_with (empty_result 1 ∷ empty_result 0 ∷ []))
unfolding settle_all
second_first = more (start [] (ok (empty_result 0)) (ok (empty_result 1) ∷ []) [] (omega arith)) (
    more (start (ok (empty_result 0) ∷ []) (ok (empty_result 1)) [] [] (omega arith)) (
      more (finish (ok (empty_result 0) ∷ []) (empty_result 1) [] [] [])
        (more (finish [] (empty_result 0) [] [] (empty_result 1 ∷ [])) stop)))

collect-in_order_example :
    (any is_err (settle_all true 0 some_results) ≡ false)
    × (sort_by_key source_index (empty_result 1 ∷ empty_result 0 ∷ [])
        ≡ oks (settle_all true 0 some_results))
collect-in_order_example =
    collect-in_order 2 true some_results (empty_result 1 ∷ empty_result 0 ∷ []) second_first

-- A service for which no source may be loaded at a time, by its configuration.
abbrev stingy_config : AppConfig
stingy_config = record some_config {
  advance = record (default_advanced 4) { fetch_concurrency = 0 };
}

abbrev first_started : Collecting Loaded
first_started = collecting (ok (empty_result 0) ∷ []) (ok (empty_result 1) ∷ []) []

first_starts :
    Run (concurrency stingy_config 2) (begin (settle_all true 0 some_results)) first_started
unfolding settle_all concurrency
first_starts =
    more (start [] (ok (empty_result 0)) (ok (empty_result 1) ∷ []) [] (omega arith)) stop

Run-total_example :
    RunsAtMost 1 first_started
    × (((any is_err (settle_all true 0 some_results) ≡ true)
          × ((t : Collecting Loaded) × Run (concurrency stingy_config 2) first_started t
              × IsOver t))
        ⊎ ((finished : List Loaded) × Run
              (concurrency stingy_config 2)
              first_started
              (finished_with finished)
            × (sort_by_key source_index finished ≡ oks (settle_all true 0 some_results))))
Run-total_example = Run-total stingy_config true some_results first_started first_starts

abbrev some_specs : List RulesetSpec
some_specs =
    record {
      group = codes "Proxy";
      source = codes "https://a.b/r";
      interval = 0;
      format = surge;
      inline = false;
    }
    ∷ record {
      group = codes "Proxy";
      source = codes "[]MATCH";
      interval = 0;
      format = surge;
      inline = true;
    }
    ∷ []

specs_are_checked : check_rulesets some_config some_specs false ≡ ok tt
unfolding check_rulesets starts_with contains_str
specs_are_checked = refl

check_rulesets-IsOpenRuleset_example :
    (2 ≤ 64) × All (IsOpenRuleset some_outside some_fetcher some_parser) some_specs
check_rulesets-IsOpenRuleset_example =
    check_rulesets-IsOpenRuleset some_outside some_fetcher some_parser some_config some_specs
      specs_are_checked
