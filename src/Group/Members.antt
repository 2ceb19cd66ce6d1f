-- ===== src/Group/Members.antt =====
-- The members of a group: exactly what the selectors ask for, each once, and never none at all.
use easysub.Prelude.{
  ◌≡◌, refl, sym, ◌∙◌, ◌⊎◌, inl, inr, Bool, true, false, not, ◌&&◌, ◌||◌, none, some, List, [], ◌∷◌,
  arith, is_empty, any, contains, contains-append, contains-cons, contains-nil, Distinct,
  Distinct-snoc, list_key, nat_key, list_same, list_same_iff, Bool-cases, Option-cases,
}
use easysub.Text.{Str, codes, strip_prefix}
use easysub.Model.{Proxy}
use easysub.External.Group.{ProxyGroup}
use easysub.Group.{
  Selection, push, choose, add_node, add_nodes, add_selector, add_selectors, members,
}
use easysub.Group.Matcher.{RegexEngine, SelectorMatcher, compile, matches}

-- `used` is the set of the names in `selected`, where no name stands twice.
pub record IsGood (s : Selection) : Type 0 where
  pub distinct : Distinct s.selected
  pub agree : (a : Str) → contains s.used a ≡ contains s.selected a

push-IsGood :
    (name : Str) (s : Selection) → contains s.used name ≡ false → IsGood s → IsGood (push name s)
unfolding push
push-IsGood name s new g = record {
  distinct = Distinct-snoc s.selected name g.distinct (sym (g.agree name) ∙ new);
  agree = λ a. ground (
    arith,
    g.agree a,
    contains-cons name s.used a,
    contains-append s.selected (name ∷ []) a,
    contains-cons name [] a,
    contains-nil a,
  );
}

contains-push :
    (name : Str) (s : Selection) (a : Str)
    → contains (push name s).selected a ≡ (list_same name a || contains s.selected a)
unfolding push
contains-push name s a =
    ground
      (arith, contains-append s.selected (name ∷ []) a, contains-cons name [] a, contains-nil a)

choose-IsGood : (name : Str) (s : Selection) → IsGood s → IsGood (choose name s)
unfolding choose
choose-IsGood name s g = elim (Bool-cases (contains s.used name)) [
  | inl old ↦ rw old g
  | inr new ↦ rw new (push-IsGood name s new g)
]

contains-choose :
    (name : Str) (s : Selection) (a : Str)
    → IsGood s
    → contains (choose name s).selected a ≡ (list_same name a || contains s.selected a)
unfolding choose
contains-choose name s a g = elim (Bool-cases (contains s.used name)) [
  | inl old ↦ rw old (ground (arith, old, g.agree name, list_same_iff name a))
  | inr new ↦ rw new (contains-push name s a)
]

module _ (engine : RegexEngine) where
  -- A node of the given name that the matcher accepts.
  abbrev pub asks_by_node : SelectorMatcher engine → Str → Proxy → Bool
  asks_by_node matcher name node = list_same node.name name && matches engine matcher node

  -- What one selector asks for, with no regard to the others: its literal, or the nodes that match.
  abbrev pub asks_for : List Proxy → Str → Str → Bool
  asks_for nodes name selector = elim (strip_prefix (codes "[]") selector) [
    | some literal ↦ list_same literal name
    | none ↦ any (asks_by_node (compile engine selector) name) nodes
  ]

  add_node-IsGood :
      (matcher : SelectorMatcher engine) (node : Proxy) (s : Selection)
      → IsGood s
      → IsGood (add_node engine matcher node s)
  unfolding add_node
  add_node-IsGood matcher node s g =
      elim (Bool-cases (not (contains s.used node.name) && matches engine matcher node)) [
        | inl take ↦ rw take (push-IsGood node.name s (ground (arith, take)) g)
        | inr leave ↦ rw leave g
      ]

  contains-add_node :
      (matcher : SelectorMatcher engine) (node : Proxy) (s : Selection) (a : Str)
      → IsGood s
      → contains (add_node engine matcher node s).selected a
        ≡ (asks_by_node matcher a node || contains s.selected a)
  unfolding add_node
  contains-add_node matcher node s a g =
      elim (Bool-cases (not (contains s.used node.name) && matches engine matcher node)) [
        | inl take ↦ rw take (ground (arith, take, contains-push node.name s a))
        | inr leave ↦ rw leave (ground (arith, leave, g.agree node.name, list_same_iff node.name a))
      ]

  add_nodes_lem :
      (matcher : SelectorMatcher engine) (nodes : List Proxy) (s : Selection) (a : Str)
      → IsGood s
      → IsGood (add_nodes engine matcher nodes s)
        × (contains (add_nodes engine matcher nodes s).selected a
            ≡ (any (asks_by_node matcher a) nodes || contains s.selected a))
  unfolding add_nodes
  add_nodes_lem matcher [] s a g = (g, refl)
  add_nodes_lem matcher (node ∷ nodes) s a g =
      let t = add_node engine matcher node s in
      let (good, e) = add_nodes_lem matcher nodes t a (add_node-IsGood matcher node s g) in
      (good, ground (arith, e, contains-add_node matcher node s a g))

  add_selector_lem :
      (nodes : List Proxy) (selector : Str) (s : Selection) (a : Str)
      → IsGood s
      → IsGood (add_selector engine nodes selector s)
        × (contains (add_selector engine nodes selector s).selected a
            ≡ (asks_for nodes a selector || contains s.selected a))
  unfolding add_selector
  add_selector_lem nodes selector s a g = elim (Option-cases (strip_prefix (codes "[]") selector)) [
    | inl e ↦ rw (e, add_selector) (add_nodes_lem (compile engine selector) nodes s a g)
    | inr (literal, e) ↦
        rw (e, add_selector) (choose-IsGood literal s g, contains-choose literal s a g)
  ]

  add_selectors_lem :
      (nodes : List Proxy) (selectors : List Str) (s : Selection) (a : Str)
      → IsGood s
      → IsGood (add_selectors engine nodes selectors s)
        × (contains (add_selectors engine nodes selectors s).selected a
            ≡ (any (asks_for nodes a) selectors || contains s.selected a))
  unfolding add_selectors
  add_selectors_lem nodes [] s a g = (g, refl)
  add_selectors_lem nodes (selector ∷ rest) s a g =
      let t = add_selector engine nodes selector s in
      let (good, e) = add_selector_lem nodes selector s a g in
      let (good', e') = add_selectors_lem nodes rest t a good in (good', ground (arith, e, e'))

  abbrev pub chosen : ProxyGroup → List Proxy → Selection
  chosen group nodes =
      add_selectors engine nodes group.selectors (record { selected = []; used = [] })

  chosen_lem :
      (group : ProxyGroup) (nodes : List Proxy) (a : Str)
      → IsGood (chosen group nodes)
        × (contains (chosen group nodes).selected a ≡ any (asks_for nodes a) group.selectors)
  chosen_lem group nodes a =
      let start : IsGood (record { selected = []; used = [] }) = record {
        distinct = tt;
        agree = λ b. refl;
      } in
      let (good, e) =
        add_selectors_lem nodes group.selectors (record { selected = []; used = [] }) a start in
      (good, ground (arith, e, contains-nil a))

  -- No name stands twice among the members of a group, whatever the selectors and the nodes.
  pub members-Distinct :
      (group : ProxyGroup) (nodes : List Proxy) → Distinct (members engine group nodes)
  unfolding members
  members-Distinct group nodes = elim (Bool-cases (is_empty (chosen group nodes).selected)) [
    | inl none_chosen ↦ rw none_chosen (contains-nil (codes "DIRECT"), tt)
    | inr some_chosen ↦ rw some_chosen (chosen_lem group nodes []).0.distinct
  ]

  -- What the selectors of a group ask for.
  abbrev pub asked : ProxyGroup → List Proxy → Str → Bool
  asked group nodes name = any (asks_for nodes name) group.selectors

  empty-asked :
      (group : ProxyGroup) (nodes : List Proxy) (name : Str)
      → is_empty (chosen group nodes).selected ≡ true
      → asked group nodes name ≡ false
  empty-asked group nodes name h =
      nothing (chosen group nodes).selected h (chosen_lem group nodes name).1
    where
      nothing :
          (l : List Str)
          → is_empty l ≡ true
          → contains l name ≡ asked group nodes name
          → asked group nodes name ≡ false
      nothing [] h e = sym e ∙ contains-nil name
      nothing (x ∷ xs) h e = cc

  -- A group for which a selector asks for something has no fallback.
  pub members-chosen :
      (group : ProxyGroup) (nodes : List Proxy) (name : Str)
      → asked group nodes name ≡ true
      → members engine group nodes ≡ (chosen group nodes).selected
  unfolding members
  members-chosen group nodes name h = elim (Bool-cases (is_empty (chosen group nodes).selected)) [
    | inl none_chosen ↦ cc (h, empty-asked group nodes name none_chosen)
    | inr some_chosen ↦ rw some_chosen
  ]

  -- A group has every name that one of its selectors asks for: a literal, or the name of a node that
  -- the selector matches. It has no other name, except that a group for which no selector asks for
  -- anything has the single member DIRECT.
  pub members-exact :
      (group : ProxyGroup) (nodes : List Proxy) (name : Str)
      → (asked group nodes name ≡ true → contains (members engine group nodes) name ≡ true)
        × (contains (members engine group nodes) name ≡ true
            → (asked group nodes name ≡ true)
              ⊎ ((members engine group nodes ≡ codes "DIRECT" ∷ [])
                  × ((other : Str) → asked group nodes other ≡ false)))
  unfolding members
  members-exact group nodes name = elim (Bool-cases (is_empty (chosen group nodes).selected)) [
    | inl none_chosen ↦ rw none_chosen (
      λ h. cc (h, empty-asked group nodes name none_chosen),
      λ h. inr (refl, λ other. empty-asked group nodes other none_chosen),
    )
    | inr some_chosen ↦ rw some_chosen (
      λ h. (chosen_lem group nodes name).1 ∙ h,
      λ h. inl (sym (chosen_lem group nodes name).1 ∙ h),
    )
  ]
