-- ===== src/Structured/Whole.antt =====
-- A structured subscription as a whole.
use easysub.Prelude.{
  OfSome, OfSome-any, OfSome-if, ℕ, ◌≡◌, inl, inr, false, not, none, List, [], ◌∷◌, ◌>>=◌, arith,
  All, All-append, is_empty, Option-cases,
}
use easysub.Text.{Str, lines}
use easysub.Json.{Value, Fields, get, as_array, as_object}
use easysub.Model.{Proxy}
use easysub.Parser.Formats.{Formats}
use easysub.Structured.Surge.{parse_surge_proxies}
use easysub.Structured.Object.{parse_proxy}
use easysub.Structured.Document.{
  is_surge, is_document, document_keys, some_nodes, nodes_of, nodes_at, parse_document,
  parse_structured,
}
use easysub.Structured.Endpoints.{InGroup, OfSome-only_if}
use easysub.Structured.Nodes.{All-push_some, surge_lines-InGroup}
use easysub.Structured.Places.{parse_proxy-InGroup}

-- Some nodes, each of the group and with an endpoint.
abbrev pub AreNodes : ℕ → List Proxy → Type 0
AreNodes g nodes = (is_empty nodes ≡ false) × All (InGroup g) nodes

some_nodes-AreNodes :
    (g : ℕ) (nodes : List Proxy) → All (InGroup g) nodes → OfSome (AreNodes g) (some_nodes nodes)
some_nodes-AreNodes g nodes h =
    OfSome-only_if (AreNodes g) (not (is_empty nodes)) nodes (λ e. (ground arith, h))

module _ (formats : Formats) (g : ℕ) where
  nodes_of-InGroup : (values : List Value) → All (InGroup g) (nodes_of formats g values)
  unfolding nodes_of
  nodes_of-InGroup [] = tt
  nodes_of-InGroup (v ∷ rest) =
      All-push_some (InGroup g) (as_object v >>= λ fields. parse_proxy formats fields g)
        (nodes_of formats g rest)
        (OfSome-any (InGroup g) (as_object v) (λ fields. parse_proxy formats fields g)
          (λ fields. parse_proxy-InGroup formats fields g))
        (nodes_of-InGroup rest)

  nodes_at-InGroup :
      (root : Fields) (keys : List Str) → All (InGroup g) (nodes_at formats root g keys)
  unfolding nodes_at
  nodes_at-InGroup root [] = tt
  nodes_at-InGroup root (key ∷ keys) = elim (Option-cases (get key root >>= as_array)) [
    | inl e ↦ rw (e, nodes_at) (nodes_at-InGroup root keys)
    | inr (values, e) ↦
        rw (e, nodes_at)
          (All-append (InGroup g) (nodes_of formats g values) (nodes_at formats root g keys)
            (nodes_of-InGroup values) (nodes_at-InGroup root keys))
  ]

  parse_document-InGroup : (content : Str) → OfSome (AreNodes g) (parse_document formats content g)
  unfolding parse_document
  parse_document-InGroup content = OfSome-any (AreNodes g) (formats.yaml_from_str content) _ (λ v.
      OfSome-any (AreNodes g) (as_object v) _ (λ root.
        some_nodes-AreNodes g (nodes_at formats root g document_keys)
          (nodes_at-InGroup root document_keys)))

  -- What is parsed as a Surge configuration or as a document is one node at least, and each has the
  -- group asked for, a server and a port from 1 to 65535.
  pub parse_structured-InGroup :
      (content : Str) → OfSome (AreNodes g) (parse_structured formats content g)
  unfolding parse_structured parse_surge_proxies
  parse_structured-InGroup content =
      OfSome-if (AreNodes g) (is_surge content) (some_nodes (parse_surge_proxies content g)) _
        (some_nodes-AreNodes g (parse_surge_proxies content g)
          (surge_lines-InGroup g false (lines content)))
        (OfSome-if (AreNodes g) (is_document content) (parse_document formats content g) none
          (parse_document-InGroup content) tt)
