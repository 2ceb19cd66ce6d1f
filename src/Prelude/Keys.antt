-- ===== src/Prelude/Keys.antt =====
-- Types with a Boolean equality, and lists used as sets of such values.
use Prim.Native.Nat.{ℕ, ◌≤◌, ◌<◌}
use mathlib.Core.Path.{◌≡◌, refl}
use mathlib.Core.Logic.{◌↔◌, ◌≢◌}
use mathlib.Core.List.{List, [], ◌∷◌, ◌++◌}
use mathlib.Core.Bool.{Bool, true, false, ◌&&◌, ◌||◌}
use native.Mathlib.Omega.{arith}
use easysub.Prelude.Tests.{◌==◌, ==_iff, if◌then◌else◌}
use easysub.Prelude.Lists.{length}

pub record Key {ℓ} (A : Type ℓ) : Type ℓ where
  pub same : A → A → Bool
  pub same_iff : (a b : A) → (same a b ≡ true) ↔ (a ≡ b)

instance abbrev pub nat_key : Key ℕ
nat_key = record { same = ◌==◌; same_iff = ==_iff }

-- Two texts are equal if their characters are.
module _ {ℓ} {A : Type ℓ} ⦃k : Key A⦄ where
  abbrev pub list_same : List A → List A → Bool
  list_same [] [] = true
  list_same [] (y ∷ ys) = false
  list_same (x ∷ xs) [] = false
  list_same (x ∷ xs) (y ∷ ys) = k.same x y && list_same xs ys

  list_same_sound : (xs ys : List A) → list_same xs ys ≡ true → xs ≡ ys
  list_same_sound [] [] h = refl
  list_same_sound [] (y ∷ ys) h = cc
  list_same_sound (x ∷ xs) [] h = cc
  list_same_sound (x ∷ xs) (y ∷ ys) h = ground (arith, (k.same_iff x y).0, list_same_sound xs ys)

  pub list_same_refl : (xs : List A) → list_same xs xs ≡ true
  list_same_refl [] = refl
  list_same_refl (x ∷ xs) = ground (arith, (k.same_iff x x).1 refl, list_same_refl xs)

  pub list_same_iff : (xs ys : List A) → (list_same xs ys ≡ true) ↔ (xs ≡ ys)
  list_same_iff xs ys = (list_same_sound xs ys, λ e. rw e (list_same_refl ys))

  -- `HashSet::contains`, `Vec::contains`.
  unfoldable pub contains : List A → A → Bool
  contains [] a = false
  contains (x ∷ xs) a = k.same x a || contains xs a

  pub contains-append :
      (xs ys : List A) (a : A) → contains (xs ++ ys) a ≡ (contains xs a || contains ys a)
  unfolding contains
  contains-append [] ys a = refl
  contains-append (x ∷ xs) ys a = ground (arith, contains-append xs ys a)

  pub contains-cons :
      (x : A) (xs : List A) (a : A) → contains (x ∷ xs) a ≡ (k.same x a || contains xs a)
  unfolding contains
  contains-cons x xs a = refl

  pub contains-nil : (a : A) → contains [] a ≡ false
  unfolding contains
  contains-nil a = refl

  pub contains_self : (x : A) (xs : List A) → contains (x ∷ xs) x ≡ true
  unfolding contains
  contains_self x xs = ground (arith, (k.same_iff x x).1 refl)

  -- No value stands twice.
  abbrev pub Distinct : List A → Type 0
  Distinct [] = Unit
  Distinct (x ∷ xs) = (contains xs x ≡ false) × Distinct xs

  pub Distinct-snoc :
      (xs : List A) (a : A) → Distinct xs → contains xs a ≡ false → Distinct (xs ++ a ∷ [])
  unfolding contains
  Distinct-snoc [] a h n = (refl, tt)
  Distinct-snoc (x ∷ xs) a h n = (
    ground (arith, contains-append xs (a ∷ []) x, k.same_iff x a, k.same_iff a x),
    Distinct-snoc xs a h.1 (ground arith),
  )

  -- All occurrences of a value taken out.
  unfoldable pub without : A → List A → List A
  without a [] = []
  without a (x ∷ xs) = let rest = without a xs in if k.same x a then rest else x ∷ rest

  length-without_le : (a : A) (xs : List A) → length (without a xs) ≤ length xs
  unfolding without
  length-without_le a [] = omega arith
  length-without_le a (x ∷ xs) = ground (arith, length-without_le a xs)

  pub length-without :
      (a : A) (xs : List A) → contains xs a ≡ true → length (without a xs) < length xs
  unfolding without contains
  length-without a [] h = cc
  length-without a (x ∷ xs) h = ground (arith, length-without_le a xs, length-without a xs)

  pub contains-without : (a b : A) (xs : List A) → a ≢ b → contains (without a xs) b ≡ contains xs b
  unfolding without contains
  contains-without a b [] h = refl
  contains-without a b (x ∷ xs) h =
      ground (arith, k.same_iff x a, k.same_iff x b, contains-without a b xs h)

instance abbrev pub list_key {ℓ} : {A : Type ℓ} ⦃k : Key A⦄ → Key (List A)
list_key ⦃k⦄ = record { same = list_same; same_iff = list_same_iff }
