-- ===== src/Group/Order.antt =====
-- The order of a group's members: earlier selectors come first.
use easysub.Prelude.{
  ◌≡◌, refl, sym, ◌∙◌, true, not, ◌&&◌, List, [], ◌∷◌, ◌++◌, append-nil, append_assoc, arith, inl,
  inr, any-append, ap, contains, Bool-cases, Option-cases, list_key, nat_key,
}
use easysub.Text.{Str, codes, strip_prefix}
use easysub.Model.{Proxy}
use easysub.External.Group.{ProxyGroup}
use easysub.Group.{
  Selection, push, choose, add_node, add_nodes, add_selector, add_selectors, members,
}
use easysub.Group.Matcher.{RegexEngine, SelectorMatcher, compile, matches}
use easysub.Group.Members.{asks_for, asked, members-chosen}

-- `t` has the selected names of `s` in front.
abbrev Extends : Selection → Selection → Type 0
Extends s t = (rest : List Str) × (t.selected ≡ s.selected ++ rest)

Extends-refl : (s : Selection) → Extends s s
Extends-refl s = ([], sym (append-nil s.selected))

Extends-trans : (s t u : Selection) → Extends s t → Extends t u → Extends s u
Extends-trans s t u (a, p) (b, q) = (a ++ b, rw (q, p) (append_assoc s.selected a b))

push-Extends : (name : Str) (s : Selection) → Extends s (push name s)
unfolding push
push-Extends name s = (name ∷ [], refl)

choose-Extends : (name : Str) (s : Selection) → Extends s (choose name s)
unfolding choose
choose-Extends name s = elim (Bool-cases (contains s.used name)) [
  | inl old ↦ rw old (Extends-refl s)
  | inr new ↦ rw new (push-Extends name s)
]

module _ (engine : RegexEngine) where
  add_node-Extends :
      (matcher : SelectorMatcher engine) (node : Proxy) (s : Selection)
      → Extends s (add_node engine matcher node s)
  unfolding add_node
  add_node-Extends matcher node s =
      elim (Bool-cases (not (contains s.used node.name) && matches engine matcher node)) [
        | inl take ↦ rw take (push-Extends node.name s)
        | inr leave ↦ rw leave (Extends-refl s)
      ]

  add_nodes-Extends :
      (matcher : SelectorMatcher engine) (nodes : List Proxy) (s : Selection)
      → Extends s (add_nodes engine matcher nodes s)
  unfolding add_nodes
  add_nodes-Extends matcher [] s = Extends-refl s
  add_nodes-Extends matcher (node ∷ nodes) s =
      let t = add_node engine matcher node s in
      Extends-trans s t (add_nodes engine matcher nodes t) (add_node-Extends matcher node s)
        (add_nodes-Extends matcher nodes t)

  add_selector-Extends :
      (nodes : List Proxy) (selector : Str) (s : Selection)
      → Extends s (add_selector engine nodes selector s)
  unfolding add_selector
  add_selector-Extends nodes selector s = elim (Option-cases (strip_prefix (codes "[]") selector)) [
    | inl e ↦ rw (e, add_selector) (add_nodes-Extends (compile engine selector) nodes s)
    | inr (literal, e) ↦ rw (e, add_selector) (choose-Extends literal s)
  ]

  add_selectors-Extends :
      (nodes : List Proxy) (selectors : List Str) (s : Selection)
      → Extends s (add_selectors engine nodes selectors s)
  unfolding add_selectors
  add_selectors-Extends nodes [] s = Extends-refl s
  add_selectors-Extends nodes (selector ∷ rest) s =
      let t = add_selector engine nodes selector s in
      Extends-trans s t (add_selectors engine nodes rest t) (add_selector-Extends nodes selector s)
        (add_selectors-Extends nodes rest t)

  add_selectors-append :
      (nodes : List Proxy) (xs ys : List Str) (s : Selection)
      → add_selectors engine nodes (xs ++ ys) s
        ≡ add_selectors engine nodes ys (add_selectors engine nodes xs s)
  unfolding add_selectors
  add_selectors-append nodes [] ys s = refl
  add_selectors-append nodes (x ∷ xs) ys s =
      add_selectors-append nodes xs ys (add_selector engine nodes x s)

  -- If the first selectors `xs` of a group ask for something, then the members that `xs` alone would
  -- give come first, in their order, before whatever the later selectors `ys` add.
  pub members-append :
      (group : ProxyGroup) (nodes : List Proxy) (xs ys : List Str) (name : Str)
      → asked engine (record group { selectors = xs }) nodes name ≡ true
      → (rest : List Str) × (members engine (record group { selectors = xs ++ ys }) nodes
          ≡ members engine (record group { selectors = xs }) nodes ++ rest)
  members-append group nodes xs ys name h =
      let start : Selection = record { selected = []; used = [] } in
      let (rest, e) = add_selectors-Extends nodes ys (add_selectors engine nodes xs start) in
      let both : asked engine (record group { selectors = xs ++ ys }) nodes name ≡ true =
        any-append (asks_for engine nodes name) xs ys ∙ ground (arith, h) in
      (
        rest,
        members-chosen engine (record group { selectors = xs ++ ys }) nodes name both
            ∙ (ap (λ (s : Selection). s.selected) (add_selectors-append nodes xs ys start)
                ∙ (e
                    ∙ ap (λ l. l ++ rest)
                        (sym
                          (members-chosen engine (record group { selectors = xs }) nodes name h)))),
      )
