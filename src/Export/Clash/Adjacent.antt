-- ===== src/Export/Clash/Adjacent.antt =====
-- `merge_adjacent_rulesets`: neighbours of the same group and format become one rule set.
use easysub.Prelude.{
  ◌≡◌, refl, Bool, true, false, not, ◌&&◌, List, [], ◌∷◌, ◌++◌, if◌then◌else◌, is_empty,
}
use easysub.Text.{str_eq}
use easysub.External.{
  RulesetFormat, surge, quan_x, clash_domain, clash_ip_cidr, clash_classical, LoadedRuleset,
}

unfoldable pub format_eq : RulesetFormat → RulesetFormat → Bool
format_eq surge surge = true
format_eq quan_x quan_x = true
format_eq clash_domain clash_domain = true
format_eq clash_ip_cidr clash_ip_cidr = true
format_eq clash_classical clash_classical = true
format_eq _ _ = false

unfoldable pub is_mergeable : LoadedRuleset → LoadedRuleset → Bool
unfolding format_eq
is_mergeable previous next =
    not (is_empty previous.source)
    && not (is_empty next.source)
    && str_eq previous.group next.group
    && format_eq previous.format next.format

unfoldable pub merge_two : LoadedRuleset → LoadedRuleset → LoadedRuleset
merge_two previous next = record previous {
  source = previous.source ++ (b'|' ∷ next.source);
  content = previous.content ++ (b'\n' ∷ next.content);
}

-- The loop, with the last rule set of `merged` at hand.
unfoldable pub merge_after : LoadedRuleset → List LoadedRuleset → List LoadedRuleset
merge_after previous [] = previous ∷ []
merge_after previous (next ∷ rest) =
    let merged = merge_after (merge_two previous next) rest in
    let apart = previous ∷ merge_after next rest in
    if is_mergeable previous next then merged else apart

unfoldable pub merge_adjacent_rulesets : List LoadedRuleset → List LoadedRuleset
unfolding merge_after
merge_adjacent_rulesets [] = []
merge_adjacent_rulesets (first ∷ rest) = merge_after first rest

pub format_eq-same : (f g : RulesetFormat) → format_eq f g ≡ true → f ≡ g
unfolding format_eq
format_eq-same surge surge h = refl
format_eq-same surge quan_x h = cc
format_eq-same surge clash_domain h = cc
format_eq-same surge clash_ip_cidr h = cc
format_eq-same surge clash_classical h = cc
format_eq-same quan_x surge h = cc
format_eq-same quan_x quan_x h = refl
format_eq-same quan_x clash_domain h = cc
format_eq-same quan_x clash_ip_cidr h = cc
format_eq-same quan_x clash_classical h = cc
format_eq-same clash_domain surge h = cc
format_eq-same clash_domain quan_x h = cc
format_eq-same clash_domain clash_domain h = refl
format_eq-same clash_domain clash_ip_cidr h = cc
format_eq-same clash_domain clash_classical h = cc
format_eq-same clash_ip_cidr surge h = cc
format_eq-same clash_ip_cidr quan_x h = cc
format_eq-same clash_ip_cidr clash_domain h = cc
format_eq-same clash_ip_cidr clash_ip_cidr h = refl
format_eq-same clash_ip_cidr clash_classical h = cc
format_eq-same clash_classical surge h = cc
format_eq-same clash_classical quan_x h = cc
format_eq-same clash_classical clash_domain h = cc
format_eq-same clash_classical clash_ip_cidr h = cc
format_eq-same clash_classical clash_classical h = refl

pub format_eq_refl : (f : RulesetFormat) → format_eq f f ≡ true
unfolding format_eq
format_eq_refl surge = refl
format_eq_refl quan_x = refl
format_eq_refl clash_domain = refl
format_eq_refl clash_ip_cidr = refl
format_eq_refl clash_classical = refl
