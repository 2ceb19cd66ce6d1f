-- ===== src/Export/Names/Unique.antt =====
-- Renaming ends, and gives every node a name that no other node has.
use easysub.Prelude.{
  ℕ, suc, ◌+◌, ◌≤◌, ◌≡◌, refl, sym, ◌∙◌, ap, inl, inr, Bool, true, false, some, List, [], ◌∷◌, ◌++◌,
  map, ◌==◌, arith, if◌then◌else◌, length, any, any-append, all, All, contains, contains-cons,
  contains-nil, Distinct, list_key, nat_key, list_same_iff, Bool-cases, unwrap_or,
}
use easysub.Prelude.Fresh.{first_free_sound, first_free-total}
use easysub.Text.{Str, replace_char}
use easysub.Text.Decimal.{show, show_injective, is_decimal, all-show}
use easysub.Model.{Proxy}
use easysub.Export.Names.{
  append_kind, candidate, next_counter, Renamer, free_counter, rename, rename_nodes, names,
  prepare_nodes,
}

tail_of : Str → Str
tail_of [] = []
tail_of (c ∷ s) = s

append_cancel : (s t u : Str) → s ++ t ≡ s ++ u → t ≡ u
unfolding tail_of
append_cancel [] t u e = e
append_cancel (c ∷ s) t u e = append_cancel s t u (ap tail_of e)

candidate_injective : (base : Str) (i j : ℕ) → candidate base i ≡ candidate base j → i ≡ j
unfolding candidate tail_of
candidate_injective base i j e =
    show_injective i j (ap tail_of (append_cancel base (b' ' ∷ show i) (b' ' ∷ show j) e))

-- The inner loop of the renaming ends for every base name, counter and set of used names: it finds a
-- counter, not below the one it starts from, whose candidate is not in use.
pub free_counter-total :
    (base : Str) (counter : ℕ) (used : List Str)
    → (k : ℕ) × (free_counter base counter used ≡ some k)
      × (contains used (candidate base k) ≡ false)
      × (counter ≤ k)
unfolding free_counter
free_counter-total base counter used =
    let (k, e) =
      first_free-total (candidate base) (candidate_injective base) (suc (length used)) counter used
        (omega arith) in
    let (free, above) = first_free_sound (candidate base) (suc (length used)) counter used k e in
    (k, e, free, above)

-- A text with no equals sign.
abbrev pub is_equals : ℕ → Bool
is_equals c = c == b'='

abbrev pub IsClean : Str → Type 0
IsClean s = any is_equals s ≡ false

replace_char-IsClean : (s : Str) → IsClean (replace_char b'=' b'-' s)
unfolding replace_char
replace_char-IsClean [] = refl
replace_char-IsClean (c ∷ s) = ground (arith, replace_char-IsClean s)

decimal-IsClean : (s : Str) → all is_decimal s ≡ true → IsClean s
unfolding is_decimal
decimal-IsClean [] h = refl
decimal-IsClean (c ∷ s) h = ground (arith, decimal-IsClean s)

candidate-IsClean : (base : Str) (k : ℕ) → IsClean base → IsClean (candidate base k)
unfolding candidate
candidate-IsClean base k h =
    any-append is_equals base (b' ' ∷ show k)
    ∙ ground (arith, h, decimal-IsClean (show k) (all-show k))

-- One renaming: it succeeds, and the name is new and clean.
record Renamed (given : Str) (r : Renamer) : Type 0 where
  name : Str
  after : Renamer
  result : rename given r ≡ some (name, after)
  is_new : contains r.used name ≡ false
  is_used : after.used ≡ name ∷ r.used
  is_clean : IsClean name

rename_lem : (given : Str) (r : Renamer) → Renamed given r
unfolding rename
rename_lem given r =
    let base = replace_char b'=' b'-' given in
    elim (Bool-cases (contains r.used base)) [
      | inl taken ↦
          let (k, e, free, _) =
            free_counter-total base (unwrap_or 2 (next_counter base r.next)) r.used in
          record {
            name = candidate base k;
            after = record { used = candidate base k ∷ r.used; next = (base, k + 1) ∷ r.next };
            result = rw (taken, e) refl;
            is_new = free;
            is_used = refl;
            is_clean = candidate-IsClean base k (replace_char-IsClean given);
          }
      | inr free ↦ record {
        name = base;
        after = record r { used = base ∷ r.used };
        result = rw free refl;
        is_new = free;
        is_used = refl;
        is_clean = replace_char-IsClean given;
      }
    ]

-- The second list has the nodes of the first in their order, and only the names may differ.
abbrev pub SameButName : List Proxy → List Proxy → Type 0
SameButName [] [] = Unit
SameButName [] (m ∷ ms) = ⊥
SameButName (n ∷ ns) [] = ⊥
SameButName (n ∷ ns) (m ∷ ms) = (m ≡ record n { name = m.name }) × SameButName ns ms

-- None of the names stands in `used`.
abbrev AllNew : List Str → List Str → Type 0
AllNew used = All (λ name. contains used name ≡ false)

AllNew-cons :
    (used : List Str) (name : Str) (l : List Str)
    → AllNew (name ∷ used) l
    → AllNew used l × (contains l name ≡ false)
AllNew-cons used name [] h = (tt, contains-nil name)
AllNew-cons used name (m ∷ l) h =
    let (rest, absent) = AllNew-cons used name l h.1 in
    (
      (ground (arith, h.0, contains-cons name used m), rest),
      ground (
        arith,
        h.0,
        absent,
        contains-cons name used m,
        contains-cons m l name,
        list_same_iff m name,
        list_same_iff name m,
      ),
    )

record AllRenamed (nodes : List Proxy) (r : Renamer) : Type 0 where
  out : List Proxy
  result : rename_nodes nodes r ≡ some out
  all_new : AllNew r.used (names out)
  distinct : Distinct (names out)
  clean : All IsClean (names out)
  same : SameButName nodes out

rename_nodes_lem : (nodes : List Proxy) (r : Renamer) → AllRenamed nodes r
unfolding rename_nodes
rename_nodes_lem [] r = record {
  out = [];
  result = refl;
  all_new = tt;
  distinct = tt;
  clean = tt;
  same = tt;
}
rename_nodes_lem (node ∷ nodes) r =
    let step = rename_lem node.name r in
    let rest = rename_nodes_lem nodes step.after in
    let fresh : AllNew (step.name ∷ r.used) (names rest.out) = rw (sym step.is_used) rest.all_new in
    let (all_new, absent) = AllNew-cons r.used step.name (names rest.out) fresh in
    record {
      out = record node { name = step.name } ∷ rest.out;
      result = rw (step.result, rest.result) refl;
      all_new = (step.is_new, all_new);
      distinct = (absent, rest.distinct);
      clean = (step.is_clean, rest.clean);
      same = (refl, rest.same);
    }

-- Preparing nodes for export without sorting always succeeds. The names of the prepared nodes are all
-- different and hold no equals sign, and the nodes are the given ones in their order, each unchanged
-- but for its name.
pub prepare_nodes-unsorted :
    (nodes : List Proxy) (append_type : Bool)
    → (out : List Proxy) × (prepare_nodes nodes append_type false ≡ some out)
      × Distinct (names out)
      × All IsClean (names out)
      × SameButName (if append_type then map append_kind nodes else nodes) out
unfolding prepare_nodes
prepare_nodes-unsorted nodes append_type =
    let named = if append_type then map append_kind nodes else nodes in
    let r = rename_nodes_lem named (record { used = []; next = [] }) in
    (r.out, rw r.result refl, r.distinct, r.clean, r.same)
