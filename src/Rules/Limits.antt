-- ===== src/Rules/Limits.antt =====
-- The rule limits: an early end of the loops gives the first rules, and no more than the limit.
use easysub.Prelude.{
  ℕ, zero, suc, ◌-◌, ◌≤◌, ◌<◌, ◌≡◌, refl, sym, ◌∙◌, ap, inl, inr, Bool, Option, none, some, List,
  [], ◌∷◌, ◌++◌, append-nil, append_assoc, arith, leb, length, length-append, take, filter_map,
  push_some, Bool-cases, Option-cases,
}
use easysub.Text.{Str, codes, strip_prefix}
use easysub.Model.{RuleBehavior}
use easysub.External.{RulesetFormat}
use easysub.Rules.Line.{Readers, candidates}
use easysub.Rules.Common.{RuleLine, usize_max, bound, parse_common_rules_filtered}
use easysub.Rules.Normalize.{normalize_candidate, collect_rules, normalize_rules_allow_empty}

take-nil {ℓ} : {A : Type ℓ} (n : ℕ) → take n [] ≡ (let l : List A = [] in l)
take-nil zero = refl
take-nil (suc n) = refl

take-take {ℓ} : {A : Type ℓ} (m n : ℕ) (l : List A) → m ≤ n → take m (take n l) ≡ take m l
take-take zero n l h = refl
take-take (suc m) zero l h = absurd (omega arith)
take-take (suc m) (suc n) [] h = refl
take-take (suc m) (suc n) (x ∷ l) h = ap (λ t. x ∷ t) (take-take m n l (omega arith))

-- One item at most.
take-push_some {ℓ} :
    {A : Type ℓ} (n : ℕ) (o : Option A) → 0 < n → take n (push_some o []) ≡ push_some o []
take-push_some zero o h = absurd (omega arith)
take-push_some (suc n) none h = refl
take-push_some (suc n) (some a) h = ap (λ t. a ∷ t) (take-nil n)

bound_pos : (limit : ℕ) → 0 < bound limit
unfolding bound
bound_pos limit = ground arith

bound-le-max : (limit : ℕ) → limit ≤ usize_max → bound limit ≤ usize_max
unfolding bound
bound-le-max limit h = ground arith

-- A limit gives the first rules of those that there are without one, whatever the content; a limit
-- of zero is none.
pub parse_common_rules_filtered-take :
    (readers : Readers) (content : Str) (format : RulesetFormat) (limit : ℕ)
    (accept : RuleLine → Bool)
    → limit ≤ usize_max
    → parse_common_rules_filtered readers content format limit accept
      ≡ take (bound limit) (parse_common_rules_filtered readers content format 0 accept)
unfolding parse_common_rules_filtered
parse_common_rules_filtered-take readers content format limit accept h =
    elim (Option-cases (strip_prefix (codes "[]") content)) [
      | inl e ↦
          rw (e, parse_common_rules_filtered)
            (sym (take-take (bound limit) (bound 0) _ (bound-le-max limit h)))
      | inr (inline, e) ↦
          rw (e, parse_common_rules_filtered)
            (sym (take-push_some (bound limit) _ (bound_pos limit)))
    ]

-- One more item in front of what may be taken.
take-push {ℓ} :
    {A : Type ℓ} (n : ℕ) (o : Option A) (l r : List A)
    → length r < n
    → r ++ take (n - length r) (push_some o l)
      ≡ (r ++ push_some o []) ++ take (n - length (r ++ push_some o [])) l
take-push n none l r h = rw append-nil
take-push n (some a) l r h =
    let m = n - length r - 1 in
    let e : n - length r ≡ suc m = omega arith in
    let e' : n - length (r ++ a ∷ []) ≡ m = omega (arith, length-append r (a ∷ [])) in
    rw (e, e', append_assoc r (a ∷ []) (take m l))

collect_rules_lem :
    (readers : Readers) (behavior : RuleBehavior) (limit : ℕ) (l result : List Str)
    → length result ≤ limit
    → collect_rules readers behavior limit l result
      ≡ result ++ take (limit - length result) (filter_map (normalize_candidate readers behavior) l)
unfolding collect_rules
collect_rules_lem readers behavior limit [] result h = rw take-nil (sym (append-nil result))
collect_rules_lem readers behavior limit (raw ∷ rest) result h =
    elim (Bool-cases (leb limit (length result))) [
      | inl full ↦
          let e : limit - length result ≡ 0 = ground (arith, full) in
          rw (full, e, append-nil result)
      | inr room ↦
          let o = normalize_candidate readers behavior raw in
          let less : length result < limit = ground (arith, room) in
          rw room (
            collect_rules_lem readers behavior limit rest (result ++ push_some o []) (fits o less)
            ∙ sym (
                take-push limit o (filter_map (normalize_candidate readers behavior) rest) result
                  less))
    ]
  where
    fits : (o : Option Str) → length result < limit → length (result ++ push_some o []) ≤ limit
    fits none less = omega (arith, length-append {0} result [])
    fits (some a) less = omega (arith, length-append {0} result (a ∷ []))

-- The normalised rules are the first ones, up to the limit, of what the lines of the rule set give
-- in their order; a limit of zero stands for the largest number of the machine.
pub normalize_rules_allow_empty-take :
    (readers : Readers) (content : Str) (behavior : RuleBehavior) (max_rules : ℕ)
    → normalize_rules_allow_empty readers content behavior max_rules
      ≡ take
          (bound max_rules)
          (filter_map (normalize_candidate readers behavior) (candidates readers content))
unfolding normalize_rules_allow_empty
normalize_rules_allow_empty-take readers content behavior max_rules =
    collect_rules_lem readers behavior (bound max_rules) (candidates readers content) []
      (omega arith)
    ∙ ap
        (λ n.
          take n (filter_map (normalize_candidate readers behavior) (candidates readers content)))
        (omega arith)
