-- ===== src/Export/Names.antt =====
-- `prepare_nodes` of crates/easysub-core/src/export/mod.rs: every exported node gets a name of its own.
pub mod Unique
pub mod Sorted
use easysub.Prelude.{
  ℕ, suc, ◌+◌, ◌≡◌, refl, Bool, true, false, ◌&&◌, ◌||◌, Option, none, some, List, [], ◌∷◌, ◌++◌,
  map, ltb, ◌==◌, if◌then◌else◌, String, length, contains, list_key, nat_key, option_map, unwrap_or,
  ◌>>=◌, list_same,
}
use easysub.Prelude.Fresh.{first_free}
use easysub.Text.{Str, codes, str_eq, replace_char}
use easysub.Text.Decimal.{show}
use easysub.Model.{Proxy, label, new_proxy, ProxyKind, vmess}

-- `format!("[{}] {}", node.kind.label(), node.name)`.
unfoldable pub append_kind : Proxy → Proxy
unfolding label
append_kind node = record node { name = b'[' ∷ (label node.kind ++ b']' ∷ b' ' ∷ node.name) }

-- `format!("{base} {counter}")`.
unfoldable pub candidate : Str → ℕ → Str
unfolding show
candidate base counter = base ++ b' ' ∷ show counter

-- The hash map `next` as an association list.
unfoldable pub next_counter : Str → List (Str × ℕ) → Option ℕ
next_counter key [] = none
next_counter key ((k, v) ∷ rest) = if str_eq k key then some v else next_counter key rest

-- The locals of the loop, and the names that it has given out.
pub record Renamer : Type 0 where
  pub used : List Str
  pub next : List (Str × ℕ)

-- The inner loop: more fuel than names in use, and the counter goes up in each round.
unfoldable pub free_counter : Str → ℕ → List Str → Option ℕ
unfolding first_free contains
free_counter base counter used = first_free (candidate base) (suc (length used)) counter used

unfoldable pub rename : Str → Renamer → Option (Str × Renamer)
rename given r =
    let base = replace_char b'=' b'-' given in
    let counter = unwrap_or 2 (next_counter base r.next) in
    if contains r.used base
    then option_map
        (λ k. (
          candidate base k,
          record { used = candidate base k ∷ r.used; next = (base, k + 1) ∷ r.next },
        ))
        (free_counter base counter r.used)
    else some (base, record r { used = base ∷ r.used })

unfoldable pub rename_nodes : List Proxy → Renamer → Option (List Proxy)
rename_nodes [] r = some []
rename_nodes (node ∷ nodes) r = do
  (name, r') ← rename node.name r
  rest ← rename_nodes nodes r'
  some (record node { name = name } ∷ rest)

-- `str::cmp` compares UTF-8 bytes, whose order is that of the characters.
unfoldable pub str_leb : Str → Str → Bool
str_leb [] t = true
str_leb (c ∷ s) [] = false
str_leb (c ∷ s) (d ∷ t) = ltb c d || (c == d && str_leb s t)

-- `sort_by` on the names, which is stable.
unfoldable pub insert_node : Proxy → List Proxy → List Proxy
unfolding str_leb
insert_node n [] = n ∷ []
insert_node n (m ∷ ms) =
    let rest = insert_node n ms in if str_leb n.name m.name then n ∷ m ∷ ms else m ∷ rest

unfoldable pub sort_nodes : List Proxy → List Proxy
unfolding insert_node
sort_nodes [] = []
sort_nodes (n ∷ ns) = insert_node n (sort_nodes ns)

unfoldable pub prepare_nodes : List Proxy → Bool → Bool → Option (List Proxy)
unfolding append_kind rename_nodes sort_nodes
prepare_nodes nodes append_type sort = do
  let named = if append_type then map append_kind nodes else nodes
  renamed ← rename_nodes named (record { used = []; next = [] })
  some (if sort then sort_nodes renamed else renamed)

abbrev pub names : List Proxy → List Str
names = map (λ node. node.name)

abbrev named_node : String → Proxy
named_node s = record (new_proxy vmess (codes "example.com") 443) { name = codes s }

deduplicates :
    option_map names (
      prepare_nodes
        (named_node "node" ∷ named_node "node" ∷ named_node "node 2" ∷ named_node "node" ∷ [])
        false
        false)
    ≡ some (codes "node" ∷ codes "node 2" ∷ codes "node 2 2" ∷ codes "node 3" ∷ [])
unfolding prepare_nodes rename replace_char next_counter free_counter candidate
deduplicates = refl
