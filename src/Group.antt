-- ===== src/Group.antt =====
-- crates/easysub-core/src/group.rs: the members of a proxy group, chosen by the group's selectors.
pub mod Range
pub mod Matcher
pub mod Members
pub mod Order
mod Tests
use easysub.Prelude.{
  Bool, true, false, not, ◌&&◌, Option, none, some, List, [], ◌∷◌, ◌++◌, if◌then◌else◌, is_empty,
  contains, list_key, nat_key,
}
use easysub.Text.{Str, codes, strip_prefix}
use easysub.Model.{Proxy}
use easysub.External.Group.{ProxyGroup}
use Matcher.{RegexEngine, SelectorMatcher, compile, matches}

-- The locals of `members`.
pub record Selection : Type 0 where
  pub selected : List Str
  pub used : List Str

-- `used.insert(name); selected.push(name)`, with no look at whether the name is used.
unfoldable pub push : Str → Selection → Selection
push name s = record { selected = s.selected ++ name ∷ []; used = name ∷ s.used }

-- `if used.insert(name) { selected.push(name) }`.
unfoldable pub choose : Str → Selection → Selection
unfolding push
choose name s = if contains s.used name then s else push name s

module _ (engine : RegexEngine) where
  unfoldable pub add_node : SelectorMatcher engine → Proxy → Selection → Selection
  unfolding push
  add_node matcher node s =
      if not (contains s.used node.name) && matches engine matcher node then push node.name s else s

  unfoldable pub add_nodes : SelectorMatcher engine → List Proxy → Selection → Selection
  unfolding add_node
  add_nodes matcher [] s = s
  add_nodes matcher (node ∷ nodes) s = add_nodes matcher nodes (add_node matcher node s)

  -- One round of the loop over the selectors.
  unfoldable pub add_selector : List Proxy → Str → Selection → Selection
  unfolding add_nodes choose strip_prefix
  add_selector nodes selector s = elim (strip_prefix (codes "[]") selector) [
    | some literal ↦ choose literal s
    | none ↦ add_nodes (compile engine selector) nodes s
  ]

  unfoldable pub add_selectors : List Proxy → List Str → Selection → Selection
  unfolding add_selector
  add_selectors nodes [] s = s
  add_selectors nodes (selector ∷ rest) s = add_selectors nodes rest (add_selector nodes selector s)

  unfoldable pub members : ProxyGroup → List Proxy → List Str
  unfolding add_selectors
  members group nodes =
      let selected =
        (add_selectors nodes group.selectors (record { selected = []; used = [] })).selected in
      if is_empty selected then codes "DIRECT" ∷ [] else selected
