-- ===== src/Subscription/InOrder.antt =====
-- The sources of a profile keep their order, in whatever order they are loaded.
use easysub.Prelude.{
  ℕ, ◌+◌, ◌<◌, ◌≡◌, ap, refl, ◌∙◌, Bool, true, false, List, [], ◌∷◌, any, All, arith,
}
use easysub.Error.{Result, ok, err, is_err}
use easysub.Fetch.World.{no_metadata}
use easysub.Subscription.Request.{Loaded}
use easysub.Subscription.Load.{Fetched, settle_all}
use easysub.Subscription.Collect.{Run, begin, finished_with, oks, insert_by_key, sort_by_key}
use easysub.Subscription.Apart.{Apart, AllApart}
use easysub.Subscription.Order.{Run-sorted}

abbrev pub source_index : Loaded → ℕ
source_index l = l.index

settle_all_from :
    (skip : Bool) (i j : ℕ) (results : List (Result Fetched))
    → i < j
    → All (λ l. i < l.index) (oks (settle_all skip j results))
unfolding settle_all
settle_all_from skip i j [] h = tt
settle_all_from skip i j (ok (nodes, metadata) ∷ rest) h =
    (h, settle_all_from skip i (j + 1) rest (omega arith))
settle_all_from true i j (err e ∷ rest) h = (h, settle_all_from true i (j + 1) rest (omega arith))
settle_all_from false i j (err e ∷ rest) h = settle_all_from false i (j + 1) rest (omega arith)

above-Apart :
    (l : Loaded) (rest : List Loaded)
    → All (λ m. l.index < m.index) rest
    → Apart source_index l rest
above-Apart l [] h = tt
above-Apart l (m ∷ rest) h = let below = h.0 in ((λ e. omega arith), above-Apart l rest h.1)

settle_all-AllApart :
    (skip : Bool) (j : ℕ) (results : List (Result Fetched))
    → AllApart source_index (oks (settle_all skip j results))
unfolding settle_all
settle_all-AllApart skip j [] = tt
settle_all-AllApart skip j (ok (nodes, metadata) ∷ rest) = (
  above-Apart (record { index = j; nodes = nodes; metadata = metadata }) _
      (settle_all_from skip j (j + 1) rest (omega arith)),
  settle_all-AllApart skip (j + 1) rest,
)
settle_all-AllApart true j (err e ∷ rest) = (
  above-Apart (record { index = j; nodes = []; metadata = no_metadata }) _
      (settle_all_from true j (j + 1) rest (omega arith)),
  settle_all-AllApart true (j + 1) rest,
)
settle_all-AllApart false j (err e ∷ rest) = settle_all-AllApart false (j + 1) rest

insert_below :
    (l : Loaded) (rest : List Loaded)
    → All (λ m. l.index < m.index) rest
    → insert_by_key source_index l rest ≡ l ∷ rest
unfolding insert_by_key
insert_below l [] h = refl
insert_below l (m ∷ rest) h = let below = h.0 in ground arith

sort_by_key-settle_all :
    (skip : Bool) (j : ℕ) (results : List (Result Fetched))
    → sort_by_key source_index (oks (settle_all skip j results)) ≡ oks (settle_all skip j results)
unfolding settle_all sort_by_key
sort_by_key-settle_all skip j [] = refl
sort_by_key-settle_all skip j (ok (nodes, metadata) ∷ rest) =
    ap (insert_by_key source_index _) (sort_by_key-settle_all skip (j + 1) rest)
    ∙ insert_below _ _ (settle_all_from skip j (j + 1) rest (omega arith))
sort_by_key-settle_all true j (err e ∷ rest) =
    ap (insert_by_key source_index _) (sort_by_key-settle_all true (j + 1) rest)
    ∙ insert_below _ _ (settle_all_from true j (j + 1) rest (omega arith))
sort_by_key-settle_all false j (err e ∷ rest) = sort_by_key-settle_all false (j + 1) rest

-- However many sources are loaded at a time and in whatever order they finish: if collecting ends
-- well, no source has failed that must not, and sorting by the index gives what the sources gave, in
-- the order of the sources.
pub collect-in_order :
    (limit : ℕ) (skip : Bool) (results : List (Result Fetched)) (finished : List Loaded)
    → Run limit (begin (settle_all skip 0 results)) (finished_with finished)
    → (any is_err (settle_all skip 0 results) ≡ false)
      × (sort_by_key source_index finished ≡ oks (settle_all skip 0 results))
collect-in_order limit skip results finished run =
    let (no_error, sorted) =
      Run-sorted source_index limit (settle_all skip 0 results) finished
        (settle_all-AllApart skip 0 results) run in
    (no_error, sorted ∙ sort_by_key-settle_all skip 0 results)
