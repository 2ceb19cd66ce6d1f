-- ===== src/Fetch/Cache.antt =====
-- Actions that read and fill the cache, note their accesses and may fail.
use easysub.Prelude.{List, [], ◌∷◌, ◌++◌}
use easysub.Error.{Result, ok, err, AppError}
use easysub.Fetch.World.{Effect, Store}

pub record Outcome (A : Type 0) : Type 0 where
  pub trace : List Effect
  pub store : Store
  pub result : Result A

abbrev pub Io : Type 0 → Type 0
Io A = Store → Outcome A

module _ {A : Type 0} where
  abbrev pub done : A → Io A
  done a store = record { trace = []; store = store; result = ok a }

  abbrev pub fail : AppError → Io A
  fail e store = record { trace = []; store = store; result = err e }

  abbrev pub lift : Result A → Io A
  lift (ok a) = done a
  lift (err e) = fail e

  -- An access, and what follows it.
  abbrev pub note : Effect → Io A → Io A
  note effect m store = let o = m store in record o { trace = effect ∷ o.trace }

module _ {A B : Type 0} where
  -- What follows a step, with the accesses of both.
  abbrev pub follow : List Effect → Store → Result A → (A → Io B) → Outcome B
  follow trace store (ok a) f = let o = f a store in record o { trace = trace ++ o.trace }
  follow trace store (err e) f = record { trace = trace; store = store; result = err e }

  infixl 5 ◌>>=◌
  abbrev pub ◌>>=◌ : Io A → (A → Io B) → Io B
  ◌>>=◌ m f store = let o = m store in follow o.trace o.store o.result f
