-- ===== src/Group/Tests.antt =====
-- The properties of crates/easysub-core/src/group.rs at concrete groups, nodes and selectors.
use easysub.Prelude.{
  ◌≡◌, refl, ◌⊎◌, true, false, not, ◌&&◌, ◌||◌, some, List, [], ◌∷◌, ◌++◌, String, contains, any,
  Distinct, list_key, nat_key,
}
use easysub.Text.{Str, codes, contains_str}
use easysub.Text.Signed.{pos}
use easysub.Model.{Proxy, new_proxy, vmess}
use easysub.External.Group.{ProxyGroup, select}
use easysub.Group.{members}
use easysub.Group.Matcher.{RegexEngine, matches, compile}
use easysub.Group.Range.{
  match_range, match_range-meaning, range_items, excludes, is_positive, includes,
}
use easysub.Group.Members.{asked, members-Distinct, members-exact}
use easysub.Group.Order.{members-append}

-- Patterns that are texts, found anywhere in the subject.
abbrev plain : RegexEngine
plain = record { Regex = Str; compile = λ s. some s; is_match = contains_str }

abbrev node : String → Proxy
node s = record (new_proxy vmess (codes "h") 443) { name = codes s }

abbrev two_nodes : List Proxy
two_nodes = node "alpha" ∷ node "beta" ∷ []

abbrev with_selectors : List Str → ProxyGroup
with_selectors selectors = record {
  name = codes "g";
  kind = select;
  selectors = selectors;
  providers = [];
  url = [];
  interval = 0;
  tolerance = 0;
}

abbrev some_group : ProxyGroup
some_group = with_selectors (codes "[]DIRECT" ∷ codes "a" ∷ codes "alpha" ∷ [])

members_run :
    members plain some_group two_nodes ≡ codes "DIRECT" ∷ codes "alpha" ∷ codes "beta" ∷ []
unfolding members compile matches contains new_proxy contains_str
members_run = refl

fallback_run : members plain (with_selectors (codes "zzz" ∷ [])) two_nodes ≡ codes "DIRECT" ∷ []
unfolding members compile matches contains new_proxy contains_str
fallback_run = refl

members-Distinct_example : Distinct (members plain some_group two_nodes)
members-Distinct_example = members-Distinct plain some_group two_nodes

members-exact_example :
    (asked plain some_group two_nodes (codes "beta") ≡ true
      → contains (members plain some_group two_nodes) (codes "beta") ≡ true)
    × (contains (members plain some_group two_nodes) (codes "beta") ≡ true
        → (asked plain some_group two_nodes (codes "beta") ≡ true)
          ⊎ ((members plain some_group two_nodes ≡ codes "DIRECT" ∷ [])
              × ((other : Str) → asked plain some_group two_nodes other ≡ false)))
members-exact_example = members-exact plain some_group two_nodes (codes "beta")

alpha_is_asked : asked plain (with_selectors (codes "alpha" ∷ [])) two_nodes (codes "alpha") ≡ true
unfolding compile matches new_proxy contains_str
alpha_is_asked = refl

members-append_example :
    (rest : List Str) × (members plain (with_selectors (codes "alpha" ∷ codes "b" ∷ [])) two_nodes
      ≡ members plain (with_selectors (codes "alpha" ∷ [])) two_nodes ++ rest)
members-append_example =
    members-append plain (with_selectors []) two_nodes (codes "alpha" ∷ []) (codes "b" ∷ [])
      (codes "alpha") alpha_is_asked

match_range-meaning_example : match_range (codes "1-3,!2") (pos 2) ≡ (
    not (any (excludes (pos 2)) (range_items (codes "1-3,!2")))
    && (not (any is_positive (range_items (codes "1-3,!2")))
        || any (includes (pos 2)) (range_items (codes "1-3,!2"))))
match_range-meaning_example = match_range-meaning (codes "1-3,!2") (pos 2)
