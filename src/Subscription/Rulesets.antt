-- ===== src/Subscription/Rulesets.antt =====
-- What the rule sets of a request without a token can make the service do.
use easysub.Prelude.{
  ℕ, ◌≤◌, ◌≡◌, inl, inr, Bool, false, not, ◌&&◌, List, [], ◌∷◌, any, length, ltb, All, Bool-cases,
  or-eq-false, arith,
}
use easysub.Error.{ok}
use easysub.External.{RulesetSpec}
use easysub.Config.{AppConfig}
use easysub.Fetch.World.{Outside, Store}
use easysub.Fetch.{Fetcher}
use easysub.Fetch.Access.{IsHttpGet}
use easysub.Subscription.Guard.{is_sensitive_source}
use easysub.Subscription.Load.{Parser, load_ruleset, check_rulesets}
use easysub.Subscription.Trust.{fetch_and_open}

module _ (outside : Outside) (fetcher : Fetcher) (parser : Parser) where
  -- Loading it makes no access but HTTP requests.
  abbrev pub IsOpenRuleset : RulesetSpec → Type 0
  IsOpenRuleset spec =
      (ttl : ℕ) (store : Store)
      → All IsHttpGet (load_ruleset outside fetcher parser spec ttl store).trace

  abbrev is_local : RulesetSpec → Bool
  is_local spec = not spec.inline && is_sensitive_source spec.source

  is_local-IsOpenRuleset : (spec : RulesetSpec) → is_local spec ≡ false → IsOpenRuleset spec
  unfolding load_ruleset
  is_local-IsOpenRuleset spec h ttl store = elim (Bool-cases spec.inline) [
    | inl e ↦ rw e tt
    | inr e ↦
        rw e (fetch_and_open outside fetcher parser _ spec.source ttl store (ground (arith, h, e)))
  ]

  specs-IsOpenRuleset :
      (specs : List RulesetSpec) → any is_local specs ≡ false → All IsOpenRuleset specs
  specs-IsOpenRuleset [] h = tt
  specs-IsOpenRuleset (spec ∷ rest) h =
      let (here, there) = or-eq-false (is_local spec) (any is_local rest) h in
      (is_local-IsOpenRuleset spec here, specs-IsOpenRuleset rest there)

  -- If a request that is not authorised gets as far as loading its rule sets, they are no more than
  -- the configuration allows, and loading any of them makes no access but HTTP requests, whatever
  -- comes back and whatever the cache holds.
  pub check_rulesets-IsOpenRuleset :
      (config : AppConfig) (specs : List RulesetSpec)
      → check_rulesets config specs false ≡ ok tt
      → (length specs ≤ config.advance.max_allowed_rulesets) × All IsOpenRuleset specs
  unfolding check_rulesets
  check_rulesets-IsOpenRuleset config specs =
      elim (Bool-cases (ltb config.advance.max_allowed_rulesets (length specs))) [
        | inl many ↦ rw many (λ h. cc h)
        | inr few ↦ rw few (elim (Bool-cases (any is_local specs)) [
          | inl local ↦ rw local (λ h. cc h)
          | inr remote ↦ rw remote (λ h. (ground (arith, few), specs-IsOpenRuleset specs remote))
        ])
      ]
