-- ===== src/Export/Clash/Rules.antt =====
-- From the rule sets to the rules and providers of the profile, within the limit on rules.
use easysub.Prelude.{
  ℕ, ◌+◌, ◌-◌, max, Bool, true, false, not, ◌&&◌, Option, none, some, List, [], ◌∷◌, ◌++◌, map,
  filter, filter_map, if◌then◌else◌, ltb, ◌==◌, is_empty, length, keep_if,
}
use easysub.Error.{Result, ok, ◌>>=◌}
use easysub.Text.{Str, codes, str_eq, one_of, to_ascii_lowercase, starts_with}
use easysub.External.{LoadedRuleset}
use easysub.Config.{RulesetTransform}
use easysub.Rules.Line.{Readers}
use easysub.Rules.Common.{RuleLine, parse_common_rules_filtered}
use easysub.Export.Clash.Provider.{
  text, number, Provider, ClashRulesetOptions, insert_provider, sanitize_provider_name,
  unique_provider_name,
}
use easysub.Export.Clash.Adjacent.{merge_adjacent_rulesets}
use easysub.Export.Clash.Ruleset.{
  Output, is_clash_rule, render_rule, domain_entry, address_entry, is_moved, is_worth,
  insert_optimized_provider,
}

unfoldable pub transform_for : Str → List (Str × RulesetTransform) → Option RulesetTransform
transform_for kind [] = none
transform_for kind ((key, transform) ∷ rest) =
    if str_eq key kind then some transform else transform_for kind rest

-- `replace("%s", argument)`.
unfoldable pub fill_in : Str → Str → Str
fill_in argument [] = []
fill_in argument (c ∷ []) = c ∷ []
fill_in argument (c ∷ d ∷ rest) = elim (c == b'%' && d == b's') [
  | true ↦ argument ++ fill_in argument rest
  | false ↦ c ∷ fill_in argument (d ∷ rest)
]

unfoldable pub geo_behavior : Str → RulesetTransform → Str
geo_behavior kind transform =
    if is_empty transform.behavior
    then if str_eq kind (codes "geoip") then codes "ipcidr" else codes "domain"
    else transform.behavior

unfoldable pub geo_provider : ClashRulesetOptions → Str → Str → RulesetTransform → Provider
unfolding fill_in geo_behavior
geo_provider options kind argument transform =
    (codes "type", text (codes "http"))
    ∷ (codes "format", text (codes "mrs"))
    ∷ (codes "url", text (fill_in argument transform.url_format))
    ∷ (codes "behavior", text (geo_behavior kind transform))
    ∷ (codes "interval", number (max 1 options.update_interval))
    ∷ (codes "proxy", text (codes "DIRECT"))
    ∷ (codes "path", text (codes "./mrs/" ++ kind ++ (b'/' ∷ argument) ++ codes ".mrs"))
    ∷ []

unfoldable pub add_geo :
    ClashRulesetOptions → Str → Str → RulesetTransform → Str → Output → Option Str → Option Output
unfolding geo_provider
add_geo options kind argument transform group out none = none
add_geo options kind argument transform group out (some name) = some (record {
  providers = insert_provider name (geo_provider options kind argument transform) out.providers;
  rules = out.rules ++ (codes "RULE-SET," ++ name ++ (b',' ∷ group)) ∷ [];
})

-- `none` stands for the answer `false`.
unfoldable pub append_geo_provider : RuleLine → Str → ClashRulesetOptions → Output → Option Output
unfolding transform_for to_ascii_lowercase sanitize_provider_name one_of
append_geo_provider rule group options out =
    let kind = to_ascii_lowercase rule.kind in
    elim (transform_for kind options.geo_transforms) [
      | none ↦ none
      | some transform ↦ elim (keep_if (λ v. not (is_empty v)) rule.value) [
        | none ↦ none
        | some value ↦
            let argument = to_ascii_lowercase value in
            if one_of (codes "geoip" ∷ codes "geosite" ∷ []) kind
            then add_geo options kind argument transform group out (
                unique_provider_name (sanitize_provider_name (kind ++ (b'_' ∷ argument)))
                  out.providers)
            else none
      ]
    ]

unfoldable pub is_full : ℕ → ℕ → Bool
is_full max_rules generated = ltb 0 max_rules && (max_rules - generated == 0)

-- How many rules may still come; zero is for no limit.
unfoldable pub remaining : ℕ → ℕ → ℕ
remaining max_rules generated = if max_rules == 0 then 0 else max_rules - generated

module _ (form_urlencoded : List (Str × Str) → Str) (options : ClashRulesetOptions) where
  unfoldable pub append_optimized :
      Bool → LoadedRuleset → ℕ → Str → Str → List Str → Output → Result Output
  append_optimized false ruleset' index behavior suffix payload out = ok out
  append_optimized true ruleset' index behavior suffix payload out = do
    (name, providers) ←
        insert_optimized_provider form_urlencoded options ruleset' index behavior payload
          out.providers
    ok (record {
      providers = providers;
      rules = out.rules ++ (codes "RULE-SET," ++ name ++ (b',' ∷ ruleset'.group) ++ suffix) ∷ [];
    })

  unfoldable pub append_ruleset : LoadedRuleset → ℕ → List RuleLine → Output → Result Output
  append_ruleset ruleset' index rules out =
      let domain_payload = filter_map domain_entry rules in
      let ipcidr_payload = filter_map address_entry rules in
      let optimize_domain = is_worth options domain_payload in
      let optimize_ipcidr = is_worth options ipcidr_payload in
      let left = filter (λ rule. not (is_moved optimize_domain optimize_ipcidr rule)) rules in
      append_optimized optimize_domain ruleset' index (codes "domain") [] domain_payload out
      >>= λ with_domains.
          append_optimized optimize_ipcidr ruleset' index (codes "ipcidr") (codes ",no-resolve")
            ipcidr_payload with_domains
          >>= λ with_both. ok (record {
            providers = with_both.providers;
            rules = with_both.rules ++ map (λ rule. render_rule rule ruleset'.group) left;
          })

  -- `rules.len() == 1 && append_geo_provider(&rules[0], …)`.
  unfoldable pub try_geo : LoadedRuleset → List RuleLine → Output → Option Output
  unfolding append_geo_provider starts_with
  try_geo ruleset' (rule ∷ []) out =
      if options.geo_convert && starts_with (codes "[]") ruleset'.content
      then append_geo_provider rule ruleset'.group options out
      else none
  try_geo ruleset' rules out = none

  unfoldable pub add_rules :
      LoadedRuleset → ℕ → List RuleLine → Option Output → Output → Result Output
  unfolding append_ruleset
  add_rules ruleset' index rules (some converted) out = ok converted
  add_rules ruleset' index rules none out = append_ruleset ruleset' index rules out

  -- The loop over the merged rule sets.
  unfoldable pub export_rulesets : Readers → ℕ → ℕ → ℕ → List LoadedRuleset → Output → Result Output
  unfolding add_rules try_geo is_full remaining
  export_rulesets readers max_rules index generated [] out = ok out
  export_rulesets readers max_rules index generated (r ∷ rest) out =
      let rules =
        parse_common_rules_filtered readers r.content r.format (remaining max_rules generated)
          is_clash_rule in
      let next = export_rulesets readers max_rules (index + 1) (generated + length rules) rest in
      if is_full max_rules generated
      then ok out
      else add_rules r index rules (try_geo r rules out) out >>= next

  unfoldable pub export_all : Readers → ℕ → List LoadedRuleset → Output → Result Output
  unfolding export_rulesets
  export_all readers max_rules rulesets out =
      export_rulesets readers max_rules 0 0 (merge_adjacent_rulesets rulesets) out
