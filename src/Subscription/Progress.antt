-- ===== src/Subscription/Progress.antt =====
-- Loading the sources of a request ends, whatever the turns that the tasks take.
use easysub.Prelude.{
  ℕ, zero, suc, ◌+◌, ◌*◌, ◌<◌, ◌≤◌, ◌≡◌, ◌⊎◌, inl, inr, refl, [], ◌∷◌, length, length-append, arith,
  any, any-append, true, false, Bool-cases, max, Bool, List,
}
use easysub.Error.{Result, ok, err, is_err}
use easysub.Config.{AppConfig}
use easysub.Subscription.Request.{Loaded}
use easysub.Subscription.Load.{Fetched, settle_all}
use easysub.Subscription.InOrder.{source_index, collect-in_order}
use easysub.Subscription.Collect.{
  finished_with, sort_by_key, oks, Collecting, collecting, failed, Step, start, finish, give_up,
  Run, stop, more, begin, concurrency,
}

module _ {A : Type 0} where
  -- What is left to do: a task that waits counts twice, once for its start.
  abbrev pub work_left : Collecting A → ℕ
  work_left (collecting running waiting finished) = length running + 2 * length waiting
  work_left (failed e) = 0

  -- Nothing runs or waits, or an error has ended it.
  abbrev pub IsOver : Collecting A → Type 0
  IsOver (collecting running waiting finished) = (running ≡ []) × (waiting ≡ [])
  IsOver (failed e) = Unit

  -- Every step leaves less to do, so that no run is longer than the work there is at its start.
  Step-work_left : (limit : ℕ) (s t : Collecting A) → Step limit s t → work_left t < work_left s
  Step-work_left limit s t (start running task waiting finished room) =
      omega (arith, length-append running (task ∷ []))
  Step-work_left limit s t (finish before a after waiting finished) =
      omega (arith, length-append before (ok a ∷ after), length-append before after)
  Step-work_left limit s t (give_up before e after waiting finished) =
      omega (arith, length-append before (err e ∷ after))

  advance :
      (limit : ℕ) (s : Collecting A) → 0 < limit → IsOver s ⊎ ((t : Collecting A) × Step limit s t)
  advance limit (failed e) h = inl tt
  advance limit (collecting (ok a ∷ after) waiting finished) h =
      inr (_, finish [] a after waiting finished)
  advance limit (collecting (err e ∷ after) waiting finished) h =
      inr (_, give_up [] e after waiting finished)
  advance limit (collecting [] [] finished) h = inl (refl, refl)
  advance limit (collecting [] (task ∷ waiting) finished) h =
      inr (_, start [] task waiting finished h)

  finish_work :
      (fuel limit : ℕ) (s : Collecting A)
      → 0 < limit
      → work_left s ≤ fuel
      → (t : Collecting A) × Run limit s t × IsOver t
  finish_work zero limit (collecting [] [] finished) h enough = (_, stop, (refl, refl))
  finish_work zero limit (collecting (r ∷ running) waiting finished) h enough = absurd (omega arith)
  finish_work zero limit (collecting [] (task ∷ waiting) finished) h enough = absurd (omega arith)
  finish_work zero limit (failed e) h enough = (_, stop, tt)
  finish_work (suc fuel) limit s h enough = elim (advance limit s h) [
    | inl over ↦ (s, stop, over)
    | inr (t, step) ↦
        let less = Step-work_left limit s t step in
        let (u, run, over) = finish_work fuel limit t h (omega arith) in (u, more step run, over)
  ]

  -- At most so many tasks run.
  abbrev pub RunsAtMost : ℕ → Collecting A → Type 0
  RunsAtMost n (collecting running waiting finished) = length running ≤ n
  RunsAtMost n (failed e) = Unit

  Step-RunsAtMost :
      (limit : ℕ) (s t : Collecting A) → Step limit s t → RunsAtMost limit s → RunsAtMost limit t
  Step-RunsAtMost limit s t (start running task waiting finished room) h =
      omega (arith, length-append running (task ∷ []))
  Step-RunsAtMost limit s t (finish before a after waiting finished) h =
      omega (arith, length-append before (ok a ∷ after), length-append before after)
  Step-RunsAtMost limit s t (give_up before e after waiting finished) h = tt

  Run-RunsAtMost :
      (limit : ℕ) (s t : Collecting A) → Run limit s t → RunsAtMost limit s → RunsAtMost limit t
  Run-RunsAtMost limit s t stop h = h
  Run-RunsAtMost limit s u (more {t = t} step run) h =
      Run-RunsAtMost limit t u run (Step-RunsAtMost limit s t step h)

module _ {A : Type 0} where
  -- No task has failed or will.
  abbrev IsFine : Collecting A → Type 0
  IsFine (collecting running waiting finished) =
      (any is_err running ≡ false) × (any is_err waiting ≡ false)
  IsFine (failed e) = ⊥

  Step-IsFine : (limit : ℕ) (s t : Collecting A) → Step limit s t → IsFine s → IsFine t
  Step-IsFine limit s t (start running task waiting finished room) (h, k) =
      (ground (arith, h, k, any-append is_err running (task ∷ [])), ground (arith, k))
  Step-IsFine limit s t (finish before a after waiting finished) (h, k) = (
    ground (arith, h, any-append is_err before (ok a ∷ after), any-append is_err before after),
    k,
  )
  Step-IsFine limit s t (give_up before e after waiting finished) (h, k) =
      absurd (ground (arith, h, any-append is_err before (err e ∷ after)))

  Run-IsFine : (limit : ℕ) (s t : Collecting A) → Run limit s t → IsFine s → IsFine t
  Run-IsFine limit s t stop h = h
  Run-IsFine limit s u (more {t = t} step run) h =
      Run-IsFine limit t u run (Step-IsFine limit s t step h)

  Run-trans : (limit : ℕ) (s t u : Collecting A) → Run limit s t → Run limit t u → Run limit s u
  Run-trans limit s t u stop rest = rest
  Run-trans limit s t u (more {t = next} step run) rest =
      more step (Run-trans limit next t u run rest)

  IsOver-finished :
      (t : Collecting A) → IsOver t → IsFine t → (finished : List A) × (t ≡ finished_with finished)
  IsOver-finished (collecting running waiting finished) (h, k) fine = (finished, rw (h, k) refl)
  IsOver-finished (failed e) h fine = absurd fine

RunsAtMost-mono :
    {A : Type 0} (m n : ℕ) (s : Collecting A) → m ≤ n → RunsAtMost m s → RunsAtMost n s
RunsAtMost-mono m n (collecting running waiting finished) h k = omega (arith, k)
RunsAtMost-mono m n (failed e) h k = tt

concurrency_bounds :
    (config : AppConfig) (count : ℕ)
    → (0 < concurrency config count)
      × (concurrency config count ≤ max config.advance.fetch_concurrency 1)
unfolding concurrency
concurrency_bounds config count = (omega arith, omega arith)

-- With the concurrency that the service works out from its configuration and the number of sources,
-- in every state that loading the sources of a request reaches, no more tasks run than the
-- configuration allows, or one if it allows none. From there loading can go on to an end, whatever
-- the configuration and the number of sources: unless a source fails that must not, all tasks finish,
-- and sorting by the index gives what the sources gave, in the order of the sources; otherwise nothing
-- runs or waits any more or an error has ended it.
pub Run-total :
    (config : AppConfig) (skip : Bool) (results : List (Result Fetched)) (s : Collecting Loaded)
    → Run (concurrency config (length results)) (begin (settle_all skip 0 results)) s
    → RunsAtMost (max config.advance.fetch_concurrency 1) s
      × (((any is_err (settle_all skip 0 results) ≡ true)
            × ((t : Collecting Loaded) × Run (concurrency config (length results)) s t × IsOver t))
          ⊎ ((finished : List Loaded) × Run
                (concurrency config (length results))
                s
                (finished_with finished)
              × (sort_by_key source_index finished ≡ oks (settle_all skip 0 results))))
Run-total config skip results s run =
    let limit = concurrency config (length results) in
    let (positive, bounded) = concurrency_bounds config (length results) in
    let (t, rest, over) = finish_work (work_left s) limit s positive (omega arith) in
    let whole = Run-trans limit (begin (settle_all skip 0 results)) s t run rest in
    (
      RunsAtMost-mono limit (max config.advance.fetch_concurrency 1) s bounded
          (Run-RunsAtMost limit (begin (settle_all skip 0 results)) s run (omega arith)),
      elim (Bool-cases (any is_err (settle_all skip 0 results))) [
        | inl bad ↦ inl (bad, (t, rest, over))
        | inr good ↦
            let (finished, e) =
              IsOver-finished t over
                (Run-IsFine limit (begin (settle_all skip 0 results)) t whole (refl, good)) in
            inr (
              finished,
              rw e at rest,
              (collect-in_order limit skip results finished (rw e at whole)).1,
            )
      ],
    )
