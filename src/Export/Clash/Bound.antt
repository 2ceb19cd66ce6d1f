-- ===== src/Export/Clash/Bound.antt =====
-- How many rules a profile gets.
use easysub.Prelude.{
  ℕ, ◌+◌, ◌≤◌, ◌≡◌, refl, inl, inr, Bool, true, false, not, ◌&&◌, Option, none, some, List, [], ◌∷◌,
  ◌++◌, map, length-append, length-map, filter, filter_map, leb, is_some, length, list_same_iff,
  nat_key, Bool-cases, arith, push_some,
}
use easysub.Error.{Result, ok, err, ◌>>=◌}
use easysub.Text.{Str, codes, str_eq}
use easysub.External.{LoadedRuleset}
use easysub.Rules.Common.{RuleLine}
use easysub.Export.Clash.Provider.{Providers, ClashRulesetOptions}
use easysub.Export.Clash.Ruleset.{
  Output, render_rule, domain_entry, address_entry, is_domain_kind, is_address_kind, is_moved,
  is_worth, optimize_min_count, insert_optimized_provider,
}
use easysub.Export.Clash.Rules.{append_optimized, append_ruleset}

abbrev one_if : Bool → ℕ
one_if true = 1
one_if false = 0

abbrev if_counts : Bool → ℕ → ℕ
if_counts true n = n
if_counts false n = 0

kinds_apart : (rule : RuleLine) → is_domain_kind rule ≡ true → is_address_kind rule ≡ false
unfolding is_domain_kind is_address_kind
kinds_apart rule h = elim (Bool-cases (str_eq rule.kind (codes "DOMAIN"))) [
  | inl e ↦ rw ((list_same_iff rule.kind (codes "DOMAIN")).0 e) refl
  | inr e ↦ rw ((list_same_iff rule.kind (codes "DOMAIN-SUFFIX")).0 (ground (arith, h, e))) refl
]

domain_entry_lem :
    (rule : RuleLine)
    → is_some (domain_entry rule) ≡ true
    → (is_domain_kind rule ≡ true) × (is_some rule.value ≡ true)
unfolding domain_entry is_domain_kind
domain_entry_lem rule = entry_lem rule.kind rule.value rule.no_resolve
  where
    entry_lem :
        (kind : Str) (value : Option Str) (no_resolve : Bool)
        → let rule : RuleLine = record { kind = kind; value = value; no_resolve = no_resolve } in
          is_some (domain_entry rule) ≡ true → (is_domain_kind rule ≡ true) × (is_some value ≡ true)
    entry_lem kind none n = λ h. cc h
    entry_lem kind (some []) n = λ h. cc h
    entry_lem kind (some (c ∷ s)) n = elim (Bool-cases (str_eq kind (codes "DOMAIN"))) [
      | inl e ↦ rw e (λ h. (refl, refl))
      | inr e ↦ rw e (elim (Bool-cases (str_eq kind (codes "DOMAIN-SUFFIX"))) [
        | inl f ↦ rw f (λ h. (refl, refl))
        | inr f ↦ rw f (λ h. cc h)
      ])
    ]

address_entry_lem :
    (rule : RuleLine)
    → is_some (address_entry rule) ≡ (is_address_kind rule && rule.no_resolve && is_some rule.value)
unfolding address_entry
address_entry_lem rule = elim (Bool-cases (is_address_kind rule && rule.no_resolve)) [
  | inl e ↦ rw e refl
  | inr e ↦ rw e refl
]

-- A rule goes to one place at most.
one_place :
    (d i : Bool) (rule : RuleLine)
    → one_if (not (is_moved d i rule))
        + (if_counts d (one_if (is_some (domain_entry rule)))
            + if_counts i (one_if (is_some (address_entry rule))))
      ≤ 1
unfolding is_moved
one_place true true rule =
    ground (arith, domain_entry_lem rule, address_entry_lem rule, kinds_apart rule)
one_place true false rule = ground (arith, domain_entry_lem rule)
one_place false true rule = ground (arith, address_entry_lem rule)
one_place false false rule = omega arith

length-push_some :
    (o : Option Str) (l : List Str) → length (push_some o l) ≡ one_if (is_some o) + length l
length-push_some none l = omega arith
length-push_some (some s) l = omega arith

places :
    (d i : Bool) (rules : List RuleLine)
    → length (filter (λ rule. not (is_moved d i rule)) rules)
        + (if_counts d (length (filter_map domain_entry rules))
            + if_counts i (length (filter_map address_entry rules)))
      ≤ length rules
places true true [] = omega arith
places true false [] = omega arith
places false true [] = omega arith
places false false [] = omega arith
places true true (rule ∷ rules) = ground (
  arith,
  one_place true true rule,
  places true true rules,
  length-push_some (domain_entry rule) (filter_map domain_entry rules),
  length-push_some (address_entry rule) (filter_map address_entry rules),
)
places true false (rule ∷ rules) = ground (
  arith,
  one_place true false rule,
  places true false rules,
  length-push_some (domain_entry rule) (filter_map domain_entry rules),
  length-push_some (address_entry rule) (filter_map address_entry rules),
)
places false true (rule ∷ rules) = ground (
  arith,
  one_place false true rule,
  places false true rules,
  length-push_some (domain_entry rule) (filter_map domain_entry rules),
  length-push_some (address_entry rule) (filter_map address_entry rules),
)
places false false (rule ∷ rules) =
    ground (arith, one_place false false rule, places false false rules)

module _ (form_urlencoded : List (Str × Str) → Str) (options : ClashRulesetOptions) where
  abbrev pub HasLength : ℕ → Result Output → Type 0
  HasLength n (ok out) = length out.rules ≤ n
  HasLength n (err e) = Unit

  append_optimized_lem :
      (worth : Bool) (r : LoadedRuleset) (index : ℕ) (behavior suffix : Str) (payload : List Str)
      (out : Output)
      → HasLength
          (length out.rules + one_if worth)
          (append_optimized form_urlencoded options worth r index behavior suffix payload out)
  unfolding append_optimized
  append_optimized_lem false r index behavior suffix payload out = omega arith
  append_optimized_lem true r index behavior suffix payload out =
      inserted
        (insert_optimized_provider form_urlencoded options r index behavior payload out.providers)
    where
      inserted :
          (inserted_one : Result (Str × Providers))
          → HasLength (length out.rules + 1) (
              inserted_one >>= λ x. ok (record {
                providers = x.1;
                rules = out.rules ++ (codes "RULE-SET," ++ x.0 ++ 44 ∷ r.group ++ suffix) ∷ [];
              }))
      inserted (ok x) = omega (
        arith,
        length-append out.rules ((codes "RULE-SET," ++ x.0 ++ 44 ∷ r.group ++ suffix) ∷ []),
      )
      inserted (err e) = tt

  -- What is worth a provider is at least one rule.
  worth_counts :
      (payload : List Str)
      → one_if (is_worth options payload) ≤ if_counts (is_worth options payload) (length payload)
  unfolding is_worth
  worth_counts payload =
      elim (Bool-cases (options.optimize && leb optimize_min_count (length payload))) [
        | inl e ↦ rw e (ground (arith, e))
        | inr e ↦ rw e (omega arith)
      ]

  pub HasLength-mono : (m n : ℕ) (r : Result Output) → m ≤ n → HasLength m r → HasLength n r
  HasLength-mono m n (ok out) h k = omega arith
  HasLength-mono m n (err e) h k = tt

  pub HasLength-then :
      (m n : ℕ) (r : Result Output) (next : Output → Result Output)
      → HasLength m r
      → ((out : Output) → length out.rules ≤ m → HasLength n (next out))
      → HasLength n (r >>= next)
  HasLength-then m n (ok out) next h k = k out h
  HasLength-then m n (err e) next h k = tt

  pub append_ruleset_lem :
      (r : LoadedRuleset) (index : ℕ) (rules : List RuleLine) (out : Output)
      → HasLength
          (length out.rules + length rules)
          (append_ruleset form_urlencoded options r index rules out)
  unfolding append_ruleset
  append_ruleset_lem r index rules out =
      let domains = filter_map domain_entry rules in
      let addresses = filter_map address_entry rules in
      let d = is_worth options domains in
      let i = is_worth options addresses in
      let left = filter (λ rule. not (is_moved d i rule)) rules in
      let start = length out.rules in
      HasLength-then (start + one_if d) _
        (append_optimized form_urlencoded options d r index (codes "domain") [] domains out) _
        (append_optimized_lem d r index (codes "domain") [] domains out)
        (λ a ha.
          HasLength-then (start + one_if d + one_if i) _
            (append_optimized form_urlencoded options i r index (codes "ipcidr")
              (codes ",no-resolve") addresses a)
            _
            (HasLength-mono (length a.rules + one_if i) (start + one_if d + one_if i) _
              (omega (arith, ha))
              (append_optimized_lem i r index (codes "ipcidr") (codes ",no-resolve") addresses a))
            (λ b hb. omega (
              arith,
              hb,
              places d i rules,
              worth_counts domains,
              worth_counts addresses,
              length-append b.rules (map (λ rule. render_rule rule r.group) left),
              length-map left (λ rule. render_rule rule r.group),
            )))
