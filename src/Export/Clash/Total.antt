-- ===== src/Export/Clash/Total.antt =====
-- The rules of a profile can always be made, unless providers are fetched over HTTP.
use easysub.Prelude.{
  ℕ, zero, suc, ◌+◌, ◌-◌, ◌≤◌, ◌≡◌, ◌⊎◌, refl, inl, inr, Bool, true, false, Option, none, some,
  List, [], ◌∷◌, ◌++◌, length, filter_map, Bool-cases, arith,
}
use easysub.Error.{Result, ok, ◌>>=◌}
use easysub.Text.{Str, codes}
use easysub.External.{LoadedRuleset}
use easysub.Rules.Line.{Readers}
use easysub.Rules.Common.{RuleLine, parse_common_rules_filtered, usize_max}
use easysub.Export.Clash.Provider.{
  Providers, ClashRulesetOptions, unique_provider_name-total, ruleset_source_name,
}
use easysub.Export.Clash.Adjacent.{merge_adjacent_rulesets}
use easysub.Export.Clash.Ruleset.{
  Output, is_clash_rule, is_worth, domain_entry, address_entry, insert_optimized_provider,
  optimized_provider,
}
use easysub.Export.Clash.Rules.{
  append_optimized, append_ruleset, try_geo, add_rules, is_full, remaining, export_rulesets,
  export_all,
}
use easysub.Export.Clash.Bound.{HasLength}
use easysub.Export.Clash.Limit.{export_rulesets-HasLength}

abbrev Succeeds : {A : Type 0} → Result A → Type 0
Succeeds {A} r = (a : A) × (r ≡ ok a)

Succeeds-then :
    {A B : Type 0} (r : Result A) (next : A → Result B)
    → Succeeds r
    → ((a : A) → Succeeds (next a))
    → Succeeds (r >>= next)
Succeeds-then r next (a, e) k = rw e (k a)

module _ (form_urlencoded : List (Str × Str) → Str) (options : ClashRulesetOptions)
    (inline : options.optimize_to_http ≡ false) where
  optimized_provider_lem :
      (r : LoadedRuleset) (behavior : Str) (payload : List Str) (name : Str)
      → Succeeds (optimized_provider form_urlencoded options r behavior payload name)
  unfolding optimized_provider
  optimized_provider_lem r behavior payload name = rw inline (_, refl)

  insert_optimized_provider_lem :
      (r : LoadedRuleset) (index : ℕ) (behavior : Str) (payload : List Str) (providers : Providers)
      → Succeeds
          (insert_optimized_provider form_urlencoded options r index behavior payload providers)
  unfolding insert_optimized_provider
  insert_optimized_provider_lem r index behavior payload providers =
      let (name, known, free, same) =
        unique_provider_name-total (behavior ++ (b'_' ∷ ruleset_source_name r.source index))
          providers in
      rw known (
        Succeeds-then (optimized_provider form_urlencoded options r behavior payload name) _
          (optimized_provider_lem r behavior payload name) (λ p. (_, refl)))

  append_optimized_lem :
      (worth : Bool) (r : LoadedRuleset) (index : ℕ) (behavior suffix : Str) (payload : List Str)
      (out : Output)
      → Succeeds
          (append_optimized form_urlencoded options worth r index behavior suffix payload out)
  unfolding append_optimized
  append_optimized_lem false r index behavior suffix payload out = (out, refl)
  append_optimized_lem true r index behavior suffix payload out =
      Succeeds-then
        (insert_optimized_provider form_urlencoded options r index behavior payload out.providers) _
        (insert_optimized_provider_lem r index behavior payload out.providers) (λ p. (_, refl))

  append_ruleset_lem :
      (r : LoadedRuleset) (index : ℕ) (rules : List RuleLine) (out : Output)
      → Succeeds (append_ruleset form_urlencoded options r index rules out)
  unfolding append_ruleset
  append_ruleset_lem r index rules out =
      Succeeds-then _ _
        (append_optimized_lem (is_worth options (filter_map domain_entry rules)) r index
          (codes "domain") [] (filter_map domain_entry rules) out)
        (λ a.
          Succeeds-then _ _
            (append_optimized_lem (is_worth options (filter_map address_entry rules)) r index
              (codes "ipcidr") (codes ",no-resolve") (filter_map address_entry rules) a)
            (λ b. (_, refl)))

  add_rules_lem :
      (r : LoadedRuleset) (index : ℕ) (rules : List RuleLine) (o : Option Output) (out : Output)
      → Succeeds (add_rules form_urlencoded options r index rules o out)
  unfolding add_rules
  add_rules_lem r index rules (some converted) out = (converted, refl)
  add_rules_lem r index rules none out = append_ruleset_lem r index rules out

  export_rulesets_lem :
      (readers : Readers) (max_rules index generated : ℕ) (rulesets : List LoadedRuleset)
      (out : Output)
      → Succeeds
          (export_rulesets form_urlencoded options readers max_rules index generated rulesets out)
  unfolding export_rulesets
  export_rulesets_lem readers max_rules index generated [] out = (out, refl)
  export_rulesets_lem readers max_rules index generated (r ∷ rest) out =
      elim (Bool-cases (is_full max_rules generated)) [
        | inl full ↦ rw full (out, refl)
        | inr room ↦ rw room (
            let rules =
              parse_common_rules_filtered readers r.content r.format (remaining max_rules generated)
                is_clash_rule in
            Succeeds-then _ _
              (add_rules_lem r index rules (try_geo form_urlencoded options r rules out) out)
              (λ next.
                export_rulesets_lem readers max_rules (index + 1) (generated + length rules) rest
                  next))
      ]

  few_rules :
      (n : ℕ) (r : Result Output) (out : Output)
      → r ≡ ok out
      → HasLength form_urlencoded options n r
      → length out.rules ≤ n
  few_rules n r out e = rw e (λ h. h)

  -- Where providers are not fetched over HTTP, the rules and providers of a profile can always be made
  -- from its rule sets, whatever the limit on rules, which is a machine number; and the limit is 0,
  -- which stands for no limit, or no more rules are added than it says, whatever is merged, converted
  -- or moved into providers.
  pub export_all-total :
      (readers : Readers) (max_rules : ℕ) (rulesets : List LoadedRuleset) (out : Output)
      → max_rules ≤ usize_max
      → (result : Output) × (export_all form_urlencoded options readers max_rules rulesets out
          ≡ ok result)
        × ((max_rules ≡ 0) ⊎ (length result.rules ≤ length out.rules + max_rules))
  unfolding export_all
  export_all-total readers zero rulesets out k =
      let merged = merge_adjacent_rulesets rulesets in
      let (result, known) = export_rulesets_lem readers 0 0 0 merged out in
      (result, known, inl refl)
  export_all-total readers (suc n) rulesets out k =
      let merged = merge_adjacent_rulesets rulesets in
      let (result, known) = export_rulesets_lem readers (suc n) 0 0 merged out in
      let few = few_rules (length out.rules + (suc n - 0)) _ result known (
        export_rulesets-HasLength form_urlencoded options readers (suc n) 0 0 merged out
          (omega arith) k) in
      (result, known, inr (omega (arith, few)))
