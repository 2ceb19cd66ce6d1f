-- ===== src/Parser/Grouped.antt =====
-- The errors of `parse_node` and `parse_subscription`, and the group of the nodes that they give.
use easysub.Prelude.{
  ℕ, ◌≡◌, refl, sym, ap, none, some, ◌⊎◌, inl, inr, true, false, not, List, [], ◌∷◌, All, All-mono,
  filter, filter_map, push_some, map, is_empty, if◌then◌else◌, Option-cases,
}
use easysub.Error.{AppError, Result, ok, err, result_ok, is_err}
use easysub.Error.Yields.{Yields, IsBadRequest, Yields-map, Yields-mono}
use easysub.Text.{Str, trim, lines}
use easysub.Model.{Proxy}
use easysub.Structured.Document.{parse_structured}
use easysub.Structured.Endpoints.{InGroup}
use easysub.Structured.Whole.{AreNodes, parse_structured-InGroup}
use easysub.Parser.Formats.{Formats}
use easysub.Parser.Node.{
  dispatch, looks_like_proxy, parse_node, link_nodes, subscription_text, parse_subscription,
}
use easysub.Parser.Errors.{AnyNode}
use easysub.Parser.Recognised.{dispatch-errors}
use easysub.Parser.Kept.{cleaned, looks_like_proxy-cleaned, looks_like_proxy-is_known}

-- The two errors of a link.
abbrev pub IsLinkError : AppError → Type 0
IsLinkError e = (e ≡ AppError.bad_request) ⊎ (e ≡ AppError.unsupported)

module _ (formats : Formats) where
  -- A text that looks like a proxy, as it is or once the white space, the quotes and the tag around it
  -- are taken off, gives a node of the group asked for, or `bad_request`: it is never refused as an
  -- unknown link.
  pub parse_node-recognised :
      (input : Str) (g : ℕ)
      → (looks_like_proxy input ≡ true) ⊎ (looks_like_proxy (cleaned input) ≡ true)
      → Yields IsBadRequest (λ p. p.group_id ≡ g) (parse_node formats input g)
  unfolding parse_node
  parse_node-recognised input g h =
      let looks : looks_like_proxy (cleaned input) ≡ true = elim h [
        | inl e ↦ looks_like_proxy-cleaned input e
        | inr e ↦ e
      ] in
      Yields-map IsBadRequest AnyNode (λ p. p.group_id ≡ g) _ (dispatch formats (cleaned input) g)
        (dispatch-errors formats IsBadRequest (cleaned input) g (λ e k. k)
          (λ k. absurd (cc (k, looks_like_proxy-is_known (cleaned input) looks))))
        (λ p k. refl)

  -- Any text gives a node of the group asked for, or one of the two errors.
  pub parse_node-errors :
      (input : Str) (g : ℕ) → Yields IsLinkError (λ p. p.group_id ≡ g) (parse_node formats input g)
  unfolding parse_node
  parse_node-errors input g =
      Yields-map IsLinkError AnyNode (λ p. p.group_id ≡ g) _ (dispatch formats (cleaned input) g)
        (dispatch-errors formats IsLinkError (cleaned input) g (λ e k. inl k) (λ k. inr refl))
        (λ p k. refl)

  -- The nodes of a list of links.
  abbrev AreLinks : ℕ → List Proxy → Type 0
  AreLinks g nodes = (is_empty nodes ≡ false) × All (λ p. p.group_id ≡ g) nodes

  push_node :
      (g : ℕ) (r : Result Proxy) (nodes : List Proxy)
      → Yields IsLinkError (λ p. p.group_id ≡ g) r
      → All (λ p. p.group_id ≡ g) nodes
      → All (λ p. p.group_id ≡ g) (push_some (result_ok r) nodes)
  push_node g (ok p) nodes h k = (h, k)
  push_node g (err e) nodes h k = k

  collect_nodes :
      (g : ℕ) (ls : List Str)
      → All
          (λ (p : Proxy). p.group_id ≡ g)
          (filter_map (λ line. result_ok (parse_node formats line g)) ls)
  collect_nodes g [] = tt
  collect_nodes g (line ∷ rest) =
      push_node g (parse_node formats line g) _ (parse_node-errors line g) (collect_nodes g rest)

  in_group : (g : ℕ) (nodes : List Proxy) → All (InGroup g) nodes → All (λ p. p.group_id ≡ g) nodes
  unfolding InGroup
  in_group g nodes h = All-mono (InGroup g) (λ p. p.group_id ≡ g) (λ p k. k.0) nodes h

  -- The lines of a subscription that hold anything.
  abbrev pub link_lines : Str → List Str
  link_lines content =
      filter (λ line. not (is_empty line)) (map trim (lines (subscription_text formats content)))

  -- What the lines that are nodes give.
  abbrev pub good_links : Str → ℕ → List (Result Proxy)
  good_links content g =
      filter (λ r. not (is_err r)) (map (λ line. parse_node formats line g) (link_lines content))

  push_good :
      (r : Result Proxy) (nodes : List Proxy) (rest : List (Result Proxy))
      → map ok nodes ≡ filter (λ s. not (is_err s)) rest
      → map ok (push_some (result_ok r) nodes) ≡ filter (λ s. not (is_err s)) (r ∷ rest)
  push_good (ok p) nodes rest h = ap (λ l. ok p ∷ l) h
  push_good (err e) nodes rest h = h

  good_lem :
      (g : ℕ) (ls : List Str)
      → map ok (filter_map (λ line. result_ok (parse_node formats line g)) ls)
        ≡ filter (λ r. not (is_err r)) (map (λ line. parse_node formats line g) ls)
  good_lem g [] = refl
  good_lem g (line ∷ rest) =
      push_good (parse_node formats line g) _ (map (λ next. parse_node formats next g) rest)
        (good_lem g rest)

  given_nodes :
      (g : ℕ) (nodes : List Proxy) (good : List (Result Proxy))
      → All (λ p. p.group_id ≡ g) nodes
      → map ok nodes ≡ good
      → Yields
          (λ e. (e ≡ AppError.unsupported) × (good ≡ []))
          (λ found. AreLinks g found × (map ok found ≡ good))
          (if is_empty nodes then err AppError.unsupported else ok nodes)
  given_nodes g [] good h e = (refl, sym e)
  given_nodes g (p ∷ nodes) good h e = ((refl, h), e)

  abbrev pub IsRefused : Str → ℕ → AppError → Type 0
  IsRefused content g e =
      (e ≡ AppError.unsupported)
      × (parse_structured formats content g ≡ none)
      × (good_links content g ≡ [])

  abbrev pub AreRead : Str → ℕ → List Proxy → Type 0
  AreRead content g nodes =
      (is_empty nodes ≡ false)
      × All (λ p. p.group_id ≡ g) nodes
      × ((parse_structured formats content g ≡ some nodes)
          ⊎ ((parse_structured formats content g ≡ none) × (map ok nodes ≡ good_links content g)))

  pub parse_subscription-grouped :
      (content : Str) (g : ℕ)
      → Yields (IsRefused content g) (AreRead content g) (parse_subscription formats content g)
  unfolding parse_subscription link_nodes
  parse_subscription-grouped content g = elim (Option-cases (parse_structured formats content g)) [
    | inl e ↦
        let nodes = link_nodes formats (subscription_text formats content) g in
        let given =
          given_nodes g nodes (good_links content g) (collect_nodes g (link_lines content))
            (good_lem g (link_lines content)) in
        rw (e, parse_subscription)
          (Yields-mono _ _ _ _ (if is_empty nodes then err AppError.unsupported else ok nodes) given
            (λ error h. (h.0, e, h.1)) (λ found h. (h.0.0, h.0.1, inr (e, h.1))))
    | inr (nodes, e) ↦
        let h : AreNodes g nodes = rw e at (parse_structured-InGroup formats g content) in
        rw (e, parse_subscription) (h.0, in_group g nodes h.1, inl e)
  ]
