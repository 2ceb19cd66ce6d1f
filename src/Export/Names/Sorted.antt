-- ===== src/Export/Names/Sorted.antt =====
-- Sorting the renamed nodes keeps them and their different names, and puts the names in order.
use mathlib.Core.List.{Perm}
use mathlib.Core.List.Perm
use easysub.Prelude.{
  ◌≡◌, refl, ◌∙◌, inl, inr, Bool, true, false, ◌||◌, some, List, [], ◌∷◌, arith, contains,
  contains-cons, Distinct, list_key, nat_key, list_same, list_same_iff, Bool-cases,
}
use easysub.Text.{Str}
use easysub.Model.{Proxy}
use easysub.Export.Names.{str_leb, insert_node, sort_nodes, names, prepare_nodes}
use easysub.Export.Names.Unique.{prepare_nodes-unsorted}

-- Neighbouring names stand in order.
abbrev pub IsInOrder : List Proxy → Type 0
IsInOrder [] = Unit
IsInOrder (a ∷ []) = Unit
IsInOrder (a ∷ b ∷ l) = (str_leb a.name b.name ≡ true) × IsInOrder (b ∷ l)

str_leb_total : (s t : Str) → str_leb s t ≡ false → str_leb t s ≡ true
unfolding str_leb
str_leb_total [] t h = cc
str_leb_total (c ∷ s) [] h = refl
str_leb_total (c ∷ s) (d ∷ t) h = ground (arith, str_leb_total s t)

insert_node-IsInOrder : (n : Proxy) (l : List Proxy) → IsInOrder l → IsInOrder (insert_node n l)
unfolding insert_node
insert_node-IsInOrder n [] h = tt
insert_node-IsInOrder n (a ∷ []) h = ground (arith, str_leb_total n.name a.name)
insert_node-IsInOrder n (a ∷ b ∷ l) h =
    ground (arith, str_leb_total n.name a.name, insert_node-IsInOrder n (b ∷ l))

sort_nodes-IsInOrder : (l : List Proxy) → IsInOrder (sort_nodes l)
unfolding sort_nodes
sort_nodes-IsInOrder [] = tt
sort_nodes-IsInOrder (n ∷ l) = insert_node-IsInOrder n (sort_nodes l) (sort_nodes-IsInOrder l)

insert_node-perm : (n : Proxy) (l : List Proxy) → Perm (insert_node n l) (n ∷ l)
unfolding insert_node
insert_node-perm n [] = Perm.refl (n ∷ [])
insert_node-perm n (a ∷ l) = elim (Bool-cases (str_leb n.name a.name)) [
  | inl before ↦ rw before (Perm.refl (n ∷ a ∷ l))
  | inr after ↦ rw after (Perm.trans (Perm.cons a (insert_node-perm n l)) (Perm.swap n a l))
]

sort_nodes-perm : (l : List Proxy) → Perm (sort_nodes l) l
unfolding sort_nodes
sort_nodes-perm [] = Perm.refl []
sort_nodes-perm (n ∷ l) =
    Perm.trans (insert_node-perm n (sort_nodes l)) (Perm.cons n (sort_nodes-perm l))

contains-insert_node :
    (n : Proxy) (l : List Proxy) (x : Str)
    → contains (names (insert_node n l)) x ≡ (list_same n.name x || contains (names l) x)
unfolding insert_node
contains-insert_node n [] x = contains-cons n.name [] x
contains-insert_node n (a ∷ l) x = elim (Bool-cases (str_leb n.name a.name)) [
  | inl before ↦ rw before (contains-cons n.name (a.name ∷ names l) x)
  | inr after ↦
      rw
        (
          after,
          contains-cons a.name (names (insert_node n l)) x,
          contains-insert_node n l x,
          contains-cons a.name (names l) x,
        )
        (ground arith)
]

insert_node-Distinct :
    (n : Proxy) (l : List Proxy)
    → contains (names l) n.name ≡ false
    → Distinct (names l)
    → Distinct (names (insert_node n l))
unfolding insert_node
insert_node-Distinct n [] h d = (h, tt)
insert_node-Distinct n (a ∷ l) h d = elim (Bool-cases (str_leb n.name a.name)) [
  | inl before ↦ rw before (h, d)
  | inr after ↦ rw after (
    ground (
      arith,
      h,
      d,
      contains-cons a.name (names l) n.name,
      contains-insert_node n l a.name,
      list_same_iff a.name n.name,
      list_same_iff n.name a.name,
    ),
    insert_node-Distinct n l (ground (arith, h, contains-cons a.name (names l) n.name)) d.1,
  )
]

contains-sort_nodes :
    (l : List Proxy) (x : Str) → contains (names (sort_nodes l)) x ≡ contains (names l) x
unfolding sort_nodes
contains-sort_nodes [] x = refl
contains-sort_nodes (n ∷ l) x = rw (
  contains-insert_node n (sort_nodes l) x,
  contains-sort_nodes l x,
  contains-cons n.name (names l) x,
)

sort_nodes-Distinct : (l : List Proxy) → Distinct (names l) → Distinct (names (sort_nodes l))
unfolding sort_nodes
sort_nodes-Distinct [] d = tt
sort_nodes-Distinct (n ∷ l) d =
    insert_node-Distinct n (sort_nodes l) (contains-sort_nodes l n.name ∙ d.0)
      (sort_nodes-Distinct l d.1)

sort-prepare_nodes :
    (nodes : List Proxy) (append_type : Bool) (unsorted : List Proxy)
    → prepare_nodes nodes append_type false ≡ some unsorted
    → prepare_nodes nodes append_type true ≡ some (sort_nodes unsorted)
unfolding prepare_nodes
sort-prepare_nodes nodes append_type unsorted h = ground (arith, h)

-- Preparing nodes with sorting succeeds too: the result has the nodes that preparing without sorting
-- gives, each as often, with all names different, and with neighbouring names in order.
pub prepare_nodes-sorted :
    (nodes : List Proxy) (append_type : Bool)
    → (out unsorted : List Proxy) × (prepare_nodes nodes append_type true ≡ some out)
      × (prepare_nodes nodes append_type false ≡ some unsorted)
      × Perm out unsorted
      × Distinct (names out)
      × IsInOrder out
prepare_nodes-sorted nodes append_type =
    let (unsorted, result, distinct, _, _) = prepare_nodes-unsorted nodes append_type in
    (
      sort_nodes unsorted,
      unsorted,
      sort-prepare_nodes nodes append_type unsorted result,
      result,
      sort_nodes-perm unsorted,
      sort_nodes-Distinct unsorted distinct,
      sort_nodes-IsInOrder unsorted,
    )
