-- ===== src/Export/Clash/Tests.antt =====
-- The properties of crates/easysub-core/src/export/clash.rs at concrete rule sets.
use easysub.Prelude.{
  ℕ, ◌+◌, ◌≤◌, ◌≡◌, ◌⊎◌, refl, true, false, none, some, List, [], ◌∷◌, length, contains, list_key,
  nat_key, arith,
}
use easysub.Error.{ok}
use easysub.Text.{Str, codes}
use easysub.External.{LoadedRuleset, surge}
use easysub.Rules.Line.{Readers}
use easysub.Export.Clash.Provider.{
  Providers, ClashRulesetOptions, keys, unique_provider_name, unique_provider_name-total,
}
use easysub.Export.Clash.Adjacent.{merge_adjacent_rulesets, is_mergeable, merge_two}
use easysub.Export.Clash.Merge.{labelled, inline_sets, IsMerged, merge_adjacent_rulesets-IsMerged}
use easysub.Export.Clash.Ruleset.{Output}
use easysub.Export.Clash.Rules.{export_all}
use easysub.Export.Clash.Total.{export_all-total}

abbrev some_readers : Readers
some_readers = record { yaml = λ s. none; ip_net = λ s. none }

abbrev some_options : ClashRulesetOptions
some_options = record {
  proxies_style = codes "flow";
  proxy_groups_style = codes "block";
  optimize = true;
  optimize_to_http = false;
  geo_convert = false;
  provider_base_url = none;
  access_token = none;
  update_interval = 0;
  geo_transforms = [];
}

abbrev remote : Str → Str → LoadedRuleset
remote source content = record {
  group = codes "Proxy";
  source = source;
  content = content;
  format = surge;
}

abbrev some_rulesets : List LoadedRuleset
some_rulesets =
    remote (codes "a") (codes "DOMAIN,a.com")
    ∷ remote (codes "b") (codes "MATCH")
    ∷ remote [] (codes "[]GEOIP,CN")
    ∷ []

abbrev nothing_yet : Output
nothing_yet = record { providers = []; rules = [] }

merges_neighbours :
    merge_adjacent_rulesets some_rulesets
    ≡ remote (codes "a|b") (codes "DOMAIN,a.com\nMATCH") ∷ remote [] (codes "[]GEOIP,CN") ∷ []
unfolding merge_adjacent_rulesets is_mergeable merge_two
merges_neighbours = refl

merge_adjacent_rulesets-IsMerged_example :
    (labelled (λ r. r.content) b'\n' (merge_adjacent_rulesets some_rulesets)
      ≡ labelled (λ r. r.content) b'\n' some_rulesets)
    × (labelled (λ r. r.source) b'|' (merge_adjacent_rulesets some_rulesets)
        ≡ labelled (λ r. r.source) b'|' some_rulesets)
    × (inline_sets (merge_adjacent_rulesets some_rulesets) ≡ inline_sets some_rulesets)
    × IsMerged (merge_adjacent_rulesets some_rulesets)
merge_adjacent_rulesets-IsMerged_example = merge_adjacent_rulesets-IsMerged some_rulesets

abbrev some_providers : Providers
some_providers = (codes "a", []) ∷ (codes "a_1", []) ∷ []

unique_provider_name-total_example :
    (name : Str) × (unique_provider_name (codes "a") some_providers ≡ some name)
    × (contains (keys some_providers) name ≡ false)
    × (contains (keys some_providers) (codes "a") ≡ false → name ≡ codes "a")
unique_provider_name-total_example = unique_provider_name-total (codes "a") some_providers

export_all-total_example :
    (result : Output) × (export_all
        (λ pairs. [])
        some_options
        some_readers
        2
        some_rulesets
        nothing_yet
      ≡ ok result)
    × ((let limit : ℕ = 2 in limit ≡ 0) ⊎ (length result.rules ≤ 0 + 2))
export_all-total_example =
    export_all-total (λ pairs. []) some_options refl some_readers 2 some_rulesets nothing_yet
      (omega arith)
