-- ===== src/Export/Clash/Limit.antt =====
-- The limit on rules holds for the whole profile, conversions and providers included.
use easysub.Prelude.{
  ℕ, ◌+◌, ◌-◌, ◌≤◌, ◌<◌, ◌≡◌, inl, inr, Bool, false, not, ◌&&◌, Option, none, some, List, [], ◌∷◌,
  ◌++◌, length-append, length-take, is_empty, length, keep_if, Bool-cases, Option-cases, arith,
}
use easysub.Text.{Str, codes, starts_with, one_of, to_ascii_lowercase}
use easysub.External.{LoadedRuleset, RulesetFormat}
use easysub.Config.{RulesetTransform}
use easysub.Rules.Line.{Readers}
use easysub.Rules.Common.{RuleLine, parse_common_rules_filtered, bound, usize_max}
use easysub.Rules.Limits.{parse_common_rules_filtered-take}
use easysub.Export.Clash.Provider.{ClashRulesetOptions}
use easysub.Export.Clash.Ruleset.{Output, is_clash_rule}
use easysub.Export.Clash.Rules.{
  append_geo_provider, add_geo, transform_for, try_geo, add_rules, is_full, remaining,
  export_rulesets,
}
use easysub.Export.Clash.Bound.{HasLength, HasLength-then, HasLength-mono, append_ruleset_lem}

bound_lem : (limit : ℕ) → 0 < limit → bound limit ≡ limit
unfolding bound
bound_lem limit h = ground (arith, h)

parse_limited :
    (readers : Readers) (content : Str) (format : RulesetFormat) (limit : ℕ)
    (accept : RuleLine → Bool)
    → limit ≤ usize_max
    → 0 < limit
    → length (parse_common_rules_filtered readers content format limit accept) ≤ limit
parse_limited readers content format limit accept h positive =
    let all_rules = parse_common_rules_filtered readers content format 0 accept in
    rw (parse_common_rules_filtered-take readers content format limit accept h)
      (omega (arith, bound_lem limit positive, length-take (bound limit) all_rules))

room_lem :
    (max_rules generated : ℕ)
    → 0 < max_rules
    → is_full max_rules generated ≡ false
    → (0 < max_rules - generated) × (remaining max_rules generated ≡ max_rules - generated)
unfolding is_full remaining
room_lem max_rules generated h room = (ground (arith, room, h), ground (arith, h))

module _ (form_urlencoded : List (Str × Str) → Str) (options : ClashRulesetOptions) where
  -- A conversion adds one rule.
  abbrev OneMore : Output → Option Output → Type 0
  OneMore out none = Unit
  OneMore out (some converted) = length converted.rules ≡ length out.rules + 1

  add_geo_lem :
      (kind argument : Str) (transform : RulesetTransform) (group : Str) (out : Output)
      (name : Option Str)
      → OneMore out (add_geo options kind argument transform group out name)
  unfolding add_geo
  add_geo_lem kind argument transform group out none = tt
  add_geo_lem kind argument transform group out (some name) =
      omega (arith, length-append out.rules ((codes "RULE-SET," ++ name ++ (b',' ∷ group)) ∷ []))

  append_geo_provider_lem :
      (rule : RuleLine) (group : Str) (out : Output)
      → OneMore out (append_geo_provider rule group options out)
  unfolding append_geo_provider
  append_geo_provider_lem rule group out =
      elim (Option-cases (transform_for (to_ascii_lowercase rule.kind) options.geo_transforms)) [
        | inl e ↦ rw (e, OneMore, append_geo_provider) tt
        | inr (transform, e) ↦
            rw (e, OneMore, append_geo_provider)
              (elim (Option-cases (keep_if (λ v. not (is_empty v)) rule.value)) [
                | inl f ↦ rw f tt
                | inr (value, f) ↦
                    rw f
                      (elim (Bool-cases (
                        one_of (codes "geoip" ∷ codes "geosite" ∷ [])
                          (to_ascii_lowercase rule.kind))) [
                            | inl g ↦ rw g (add_geo_lem _ _ transform group out _)
                            | inr g ↦ rw g tt
                          ])
              ])
      ]

  add_rules_lem :
      (r : LoadedRuleset) (index : ℕ) (rules : List RuleLine) (out : Output)
      → HasLength form_urlencoded options (length out.rules + length rules) (
          add_rules form_urlencoded options r index rules
            (try_geo form_urlencoded options r rules out)
            out)
  unfolding add_rules try_geo
  add_rules_lem r index [] out = append_ruleset_lem form_urlencoded options r index [] out
  add_rules_lem r index (rule ∷ s ∷ rules) out =
      append_ruleset_lem form_urlencoded options r index (rule ∷ s ∷ rules) out
  add_rules_lem r index (rule ∷ []) out =
      elim (Bool-cases (options.geo_convert && starts_with (codes "[]") r.content)) [
        | inl e ↦ rw e (
            converted_lem (append_geo_provider rule r.group options out)
              (append_geo_provider_lem rule r.group out))
        | inr e ↦ rw e (append_ruleset_lem form_urlencoded options r index (rule ∷ []) out)
      ]
    where
      converted_lem :
          (o : Option Output)
          → OneMore out o
          → HasLength form_urlencoded options
              (length out.rules + 1)
              (add_rules form_urlencoded options r index (rule ∷ []) o out)
      converted_lem none h = append_ruleset_lem form_urlencoded options r index (rule ∷ []) out
      converted_lem (some converted) h = omega (arith, h)

  -- If there is a limit and it is a machine number, the loop adds no more rules than the limit leaves
  -- room for, whatever is converted or moved into providers.
  pub export_rulesets-HasLength :
      (readers : Readers) (max_rules index generated : ℕ) (rulesets : List LoadedRuleset)
      (out : Output)
      → 0 < max_rules
      → max_rules ≤ usize_max
      → HasLength form_urlencoded options
          (length out.rules + (max_rules - generated))
          (export_rulesets form_urlencoded options readers max_rules index generated rulesets out)
  unfolding export_rulesets
  export_rulesets-HasLength readers max_rules index generated [] out h k = omega arith
  export_rulesets-HasLength readers max_rules index generated (r ∷ rest) out h k =
      elim (Bool-cases (is_full max_rules generated)) [
        | inl full ↦ rw full (omega arith)
        | inr room ↦ rw room (
            let rules =
              parse_common_rules_filtered readers r.content r.format (remaining max_rules generated)
                is_clash_rule in
            let (positive, known) = room_lem max_rules generated h room in
            let few : length rules ≤ remaining max_rules generated =
              parse_limited readers r.content r.format (remaining max_rules generated) is_clash_rule
                (omega (arith, known)) (omega (arith, known)) in
            HasLength-then form_urlencoded options (length out.rules + length rules) _
              (add_rules form_urlencoded options r index rules
                (try_geo form_urlencoded options r rules out) out)
              _ (add_rules_lem r index rules out)
              (λ next added.
                HasLength-mono form_urlencoded options
                  (length next.rules + (max_rules - (generated + length rules))) _ _
                  (omega (arith, added, few, known))
                  (export_rulesets-HasLength readers max_rules (index + 1)
                    (generated + length rules) rest next h k)))
      ]
