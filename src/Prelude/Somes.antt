-- ===== src/Prelude/Somes.antt =====
-- Properties of what may not be there, and how they pass through chains of optional results.
use mathlib.Core.Path.{◌≡◌}
use mathlib.Core.Logic.{inl, inr}
use mathlib.Core.Bool.{Bool, true, false}
use mathlib.Core.Option.{Option, none, some}
use easysub.Prelude.Tests.{if◌then◌else◌, Bool-cases, keep_if, or_else, option_map, ◌>>=◌}

-- What is there has the property.
abbrev pub OfSome {ℓ} : {A : Type ℓ} → (A → Type 0) → Option A → Type 0
OfSome Q none = Unit
OfSome Q (some a) = Q a

pub OfSome-bind {ℓ κ} :
    {A : Type ℓ} {B : Type κ} (R : A → Type 0) (Q : B → Type 0) (o : Option A) (f : A → Option B)
    → OfSome R o
    → ((a : A) → R a → OfSome Q (f a))
    → OfSome Q (o >>= f)
OfSome-bind R Q none f h k = tt
OfSome-bind R Q (some a) f h k = k a h

pub OfSome-any {ℓ κ} :
    {A : Type ℓ} {B : Type κ} (Q : B → Type 0) (o : Option A) (f : A → Option B)
    → ((a : A) → OfSome Q (f a))
    → OfSome Q (o >>= f)
OfSome-any Q none f k = tt
OfSome-any Q (some a) f k = k a

pub OfSome-keep_if {ℓ} :
    {A : Type ℓ} (p : A → Bool) (Q : A → Type 0) (o : Option A)
    → ((a : A) → p a ≡ true → Q a)
    → OfSome Q (keep_if p o)
OfSome-keep_if p Q none h = tt
OfSome-keep_if p Q (some a) h = elim (Bool-cases (p a)) [ inl e ↦ rw e (h a e) | inr e ↦ rw e tt ]

pub OfSome-if {ℓ} :
    {A : Type ℓ} (Q : A → Type 0) (b : Bool) (o r : Option A)
    → OfSome Q o
    → OfSome Q r
    → OfSome Q (if b then o else r)
OfSome-if Q true o r h k = h
OfSome-if Q false o r h k = k

pub OfSome-or {ℓ} :
    {A : Type ℓ} (Q : A → Type 0) (o r : Option A)
    → OfSome Q o
    → OfSome Q r
    → OfSome Q (or_else o r)
OfSome-or Q none r h k = k
OfSome-or Q (some a) r h k = h

pub OfSome-map {ℓ κ} :
    {A : Type ℓ} {B : Type κ} (R : A → Type 0) (Q : B → Type 0) (o : Option A) (f : A → B)
    → OfSome R o
    → ((a : A) → R a → Q (f a))
    → OfSome Q (option_map f o)
OfSome-map R Q none f h k = tt
OfSome-map R Q (some a) f h k = k a h
