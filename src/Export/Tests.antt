-- ===== src/Export/Tests.antt =====
-- The properties of crates/easysub-core/src/export/mod.rs at concrete nodes.
use mathlib.Core.List.{Perm}
use easysub.Prelude.{
  ℕ, ◌≤◌, ◌≡◌, false, true, some, List, [], ◌∷◌, String, map, if◌then◌else◌, contains, All,
  Distinct, list_key, nat_key,
}
use easysub.Text.{codes}
use easysub.Model.{Proxy, new_proxy, trojan}
use easysub.Export.Names.{append_kind, prepare_nodes, names, free_counter, candidate}
use easysub.Export.Names.Unique.{IsClean, SameButName, free_counter-total, prepare_nodes-unsorted}
use easysub.Export.Names.Sorted.{IsInOrder, prepare_nodes-sorted}

abbrev node : String → Proxy
node s = record (new_proxy trojan (codes "h") 443) { name = codes s }

abbrev same_names : List Proxy
same_names = node "n=1" ∷ node "n-1" ∷ node "a" ∷ []

free_counter-total_example :
    (k : ℕ) × (free_counter (codes "a") 2 (codes "a 2" ∷ codes "a" ∷ []) ≡ some k)
    × (contains (codes "a 2" ∷ codes "a" ∷ []) (candidate (codes "a") k) ≡ false)
    × (2 ≤ k)
free_counter-total_example = free_counter-total (codes "a") 2 (codes "a 2" ∷ codes "a" ∷ [])

prepare_nodes-unsorted_example :
    (out : List Proxy) × (prepare_nodes same_names true false ≡ some out)
    × Distinct (names out)
    × All IsClean (names out)
    × SameButName (if true then map append_kind same_names else same_names) out
prepare_nodes-unsorted_example = prepare_nodes-unsorted same_names true

prepare_nodes-sorted_example :
    (out unsorted : List Proxy) × (prepare_nodes same_names false true ≡ some out)
    × (prepare_nodes same_names false false ≡ some unsorted)
    × Perm out unsorted
    × Distinct (names out)
    × IsInOrder out
prepare_nodes-sorted_example = prepare_nodes-sorted same_names false
