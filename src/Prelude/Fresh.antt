-- ===== src/Prelude/Fresh.antt =====
-- The search for a name that is not taken: `loop { candidate; counter += 1; if free { break } }`.
use Prim.Native.Nat.{ℕ, zero, suc, ◌+◌, ◌≤◌, ◌<◌}
use mathlib.Core.Path.{◌≡◌, refl, sym, ◌∙◌}
use mathlib.Core.Logic.{◌≢◌, inl, inr}
use mathlib.Core.List.{List}
use mathlib.Core.Bool.{false}
use mathlib.Core.Option.{Option, none, some}
use native.Mathlib.Omega.{arith}
use easysub.Prelude.Tests.{if◌then◌else◌, Bool-cases}
use easysub.Prelude.Lists.{length}
use easysub.Prelude.Keys.{Key, contains, without, length-without, contains-without}

module _ {ℓ} {A : Type ℓ} ⦃k : Key A⦄ (name : ℕ → A) where
  -- The first counter from `i` on whose name is not in `used`; `none` when the fuel runs out.
  unfoldable pub first_free : ℕ → ℕ → List A → Option ℕ
  first_free zero i used = none
  first_free (suc fuel) i used =
      let later = first_free fuel (i + 1) used in if contains used (name i) then later else some i

  pub first_free_sound :
      (fuel i : ℕ) (used : List A) (j : ℕ)
      → first_free fuel i used ≡ some j
      → (contains used (name j) ≡ false) × (i ≤ j)
  unfolding first_free
  first_free_sound zero i used j h = cc
  first_free_sound (suc fuel) i used j h = elim (Bool-cases (contains used (name i))) [
    | inl taken ↦
        let e : first_free fuel (i + 1) used ≡ some j = rw taken at h in
        let r = first_free_sound fuel (i + 1) used j e in (r.0, omega (arith, r.1))
    | inr free ↦ let e : some i ≡ some j = rw free at h in ground arith
  ]

  module _ (injective : (i j : ℕ) → name i ≡ name j → i ≡ j) where
    -- A name below the counter does not matter.
    first_free-without :
        (fuel i l : ℕ) (used : List A)
        → l < i
        → first_free fuel i (without (name l) used) ≡ first_free fuel i used
    unfolding first_free
    first_free-without zero i l used h = refl
    first_free-without (suc fuel) i l used h =
        let differ : name l ≢ name i = λ e. absurd (omega (arith, injective l i e)) in
        rw (
          contains-without (name l) (name i) used differ,
          first_free-without fuel (i + 1) l used (omega arith),
        )

    -- More fuel than taken names is enough.
    pub first_free-total :
        (fuel i : ℕ) (used : List A)
        → length used < fuel
        → (j : ℕ) × (first_free fuel i used ≡ some j)
    unfolding first_free
    first_free-total zero i used h = absurd (omega arith)
    first_free-total (suc fuel) i used h = elim (Bool-cases (contains used (name i))) [
      | inl taken ↦
          let (j, e) =
            first_free-total fuel (i + 1) (without (name i) used)
              (omega (arith, length-without (name i) used taken)) in
          (j, rw taken (sym (first_free-without fuel (i + 1) i used (omega arith)) ∙ e))
      | inr free ↦ (i, rw free)
    ]
