-- ===== src/Structured/Document.antt =====
-- crates/easysub-core/src/structured.rs 9-40: a document of nodes.
use easysub.Prelude.{
  ℕ, ◌==◌, ◌||◌, Bool, not, Option, none, some, List, [], ◌∷◌, ◌++◌, ◌>>=◌, any, filter_map,
  if◌then◌else◌, is_empty,
}
use easysub.Text.{
  Str, codes, one_of, trim, trim_start_by, is_whitespace, lines, starts_with_char,
  eq_ignore_ascii_case,
}
use easysub.Json.{Value, Fields, get, as_array, as_object}
use easysub.Model.{Proxy}
use easysub.Parser.Formats.{Formats}
use easysub.Structured.Netch.{only_if}
use easysub.Structured.Object.{parse_proxy}
use easysub.Structured.Surge.{parse_surge_proxies}

unfoldable pub is_surge : Str → Bool
unfolding lines trim eq_ignore_ascii_case
is_surge content = any (λ line. eq_ignore_ascii_case (trim line) (codes "[proxy]")) (lines content)

unfoldable pub is_document : Str → Bool
unfolding lines trim one_of trim_start_by is_whitespace
is_document content =
    starts_with_char (λ c. c == b'{') (trim_start_by is_whitespace content)
    || any
        (λ line.
          one_of (codes "proxies:" ∷ codes "outbounds:" ∷ codes "endpoints:" ∷ []) (trim line))
        (lines content)

abbrev pub document_keys : List Str
document_keys = codes "proxies" ∷ codes "outbounds" ∷ codes "endpoints" ∷ []

abbrev pub some_nodes : List Proxy → Option (List Proxy)
some_nodes nodes = only_if (not (is_empty nodes)) nodes

module _ (formats : Formats) where
  -- The nodes of one list of a document.
  unfoldable pub nodes_of : ℕ → List Value → List Proxy
  unfolding parse_proxy
  nodes_of group_id values =
      filter_map (λ v. as_object v >>= λ fields. parse_proxy formats fields group_id) values

  unfoldable pub nodes_at : Fields → ℕ → List Str → List Proxy
  unfolding nodes_of get
  nodes_at root group_id [] = []
  nodes_at root group_id (key ∷ keys) = elim (get key root >>= as_array) [
    | none ↦ nodes_at root group_id keys
    | some values ↦ nodes_of group_id values ++ nodes_at root group_id keys
  ]

  unfoldable pub parse_document : Str → ℕ → Option (List Proxy)
  unfolding nodes_at only_if
  parse_document content group_id = formats.yaml_from_str content >>= λ value.
      as_object value >>= λ root. some_nodes (nodes_at root group_id document_keys)

  -- `structured::parse_subscription`.
  unfoldable pub parse_structured : Str → ℕ → Option (List Proxy)
  unfolding is_surge is_document parse_document parse_surge_proxies only_if
  parse_structured content group_id =
      if is_surge content
      then some_nodes (parse_surge_proxies content group_id)
      else if is_document content
      then parse_document content group_id
      else none
