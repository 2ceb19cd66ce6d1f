-- ===== src/Subscription/Collect.antt =====
-- Loading the sources of a request: how many at a time, and `sort_by_key` on what comes back. Between
-- the two stands `buffer_unordered(limit).try_collect()` of futures_util. `Collecting`, `Step` and
-- `Run` put down what its documentation says, for the theorems to assume: at most `limit` tasks run
-- at a time, their results come in the order in which they happen to finish, and the first error
-- ends the stream.
use easysub.Prelude.{ℕ, ◌<◌, List, [], ◌∷◌, ◌++◌, min, max, leb, if◌then◌else◌, length, filter_map}
use easysub.Error.{Result, ok, err, AppError, result_ok}
use easysub.Config.{AppConfig}

-- `fetch_concurrency.min(sources.len()).max(1)`.
unfoldable pub concurrency : AppConfig → ℕ → ℕ
concurrency config count = max (min config.advance.fetch_concurrency count) 1

-- Each task is known by what it will give.
pub data Collecting (A : Type 0) : Type 0 where
  collecting : (running waiting : List (Result A)) (finished : List A) → Collecting A
  failed : AppError → Collecting A

pub data Step {A : Type 0} (limit : ℕ) : Collecting A → Collecting A → Type 0 where
  start :
      (running : List (Result A)) (task : Result A) (waiting : List (Result A)) (finished : List A)
      → length running < limit
      → Step limit
          (collecting running (task ∷ waiting) finished)
          (collecting (running ++ task ∷ []) waiting finished)
  finish :
      (before : List (Result A)) (a : A) (after waiting : List (Result A)) (finished : List A)
      → Step limit
          (collecting (before ++ ok a ∷ after) waiting finished)
          (collecting (before ++ after) waiting (finished ++ a ∷ []))
  give_up :
      (before : List (Result A)) (e : AppError) (after waiting : List (Result A))
      (finished : List A)
      → Step limit (collecting (before ++ err e ∷ after) waiting finished) (failed e)

pub data Run {A : Type 0} (limit : ℕ) : Collecting A → Collecting A → Type 0 where
  stop : {s : Collecting A} → Run limit s s
  more : {s t u : Collecting A} → Step limit s t → Run limit t u → Run limit s u

module _ {A : Type 0} where
  abbrev pub begin : List (Result A) → Collecting A
  begin tasks = collecting [] tasks []

  abbrev pub finished_with : List A → Collecting A
  finished_with finished = collecting [] [] finished

  -- The successful results of tasks.
  abbrev pub oks : List (Result A) → List A
  oks = filter_map result_ok

  module _ (key : A → ℕ) where
    unfoldable pub insert_by_key : A → List A → List A
    insert_by_key a [] = a ∷ []
    insert_by_key a (b ∷ rest) =
        let later = insert_by_key a rest in if leb (key a) (key b) then a ∷ b ∷ rest else b ∷ later

    -- A stable sort.
    unfoldable pub sort_by_key : List A → List A
    unfolding insert_by_key
    sort_by_key [] = []
    sort_by_key (a ∷ rest) = insert_by_key a (sort_by_key rest)
