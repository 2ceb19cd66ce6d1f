-- ===== src/Error/Yields.antt =====
-- What is known of a result on both of its sides, and how that passes through chains of results.
use easysub.Prelude.{◌≡◌, refl, Bool, true, false, Option, none, some, if◌then◌else◌}
use easysub.Error.{AppError, Result, ok, err, ok_or, ◌>>=◌, ◌>>◌, reject_if, result_map}

-- `P` holds of the error, or `Q` of the value.
abbrev pub Yields {ℓ} : {A : Type ℓ} → (AppError → Type 0) → (A → Type 0) → Result A → Type 0
Yields P Q (ok a) = Q a
Yields P Q (err e) = P e

abbrev pub IsBadRequest : AppError → Type 0
IsBadRequest e = e ≡ AppError.bad_request

module _ (P : AppError → Type 0) where
  pub Yields-bind {ℓ κ} :
      {A : Type ℓ} {B : Type κ} (R : A → Type 0) (Q : B → Type 0) (r : Result A) (f : A → Result B)
      → Yields P R r
      → ((a : A) → R a → Yields P Q (f a))
      → Yields P Q (r >>= f)
  Yields-bind R Q (ok a) f h k = k a h
  Yields-bind R Q (err e) f h k = h

  pub Yields-map {ℓ κ} :
      {A : Type ℓ} {B : Type κ} (R : A → Type 0) (Q : B → Type 0) (f : A → B) (r : Result A)
      → Yields P R r
      → ((a : A) → R a → Q (f a))
      → Yields P Q (result_map f r)
  Yields-map R Q f (ok a) h k = k a h
  Yields-map R Q f (err e) h k = h

  pub Yields-mono {ℓ} :
      {A : Type ℓ} (P' : AppError → Type 0) (Q R : A → Type 0) (r : Result A)
      → Yields P Q r
      → ((e : AppError) → P e → P' e)
      → ((a : A) → Q a → R a)
      → Yields P' R r
  Yields-mono P' Q R (ok a) h f g = g a h
  Yields-mono P' Q R (err e) h f g = f e h

-- Chains that fail with `bad_request` alone.
module _ {κ} {B : Type κ} (Q : B → Type 0) where
  pub Yields-reject :
      (b : Bool) (r : Result B)
      → (b ≡ false → Yields IsBadRequest Q r)
      → Yields IsBadRequest Q (reject_if b AppError.bad_request >> r)
  Yields-reject true r h = refl
  Yields-reject false r h = h refl

  pub Yields-or {ℓ} :
      {A : Type ℓ} (o : Option A) (f : A → Result B)
      → ((a : A) → Yields IsBadRequest Q (f a))
      → Yields IsBadRequest Q (ok_or AppError.bad_request o >>= f)
  Yields-or none f h = refl
  Yields-or (some a) f h = h a

  pub Yields-or_known {ℓ} :
      {A : Type ℓ} (o : Option A) (f : A → Result B)
      → ((a : A) → o ≡ some a → Yields IsBadRequest Q (f a))
      → Yields IsBadRequest Q (ok_or AppError.bad_request o >>= f)
  Yields-or_known none f h = refl
  Yields-or_known (some a) f h = h a refl

  pub Yields-next {ℓ} :
      {A : Type ℓ} (r : Result A) (f : A → Result B)
      → Yields IsBadRequest (λ a. Unit {0}) r
      → ((a : A) → Yields IsBadRequest Q (f a))
      → Yields IsBadRequest Q (r >>= f)
  Yields-next (ok a) f h k = k a
  Yields-next (err e) f h k = h

  pub Yields-if :
      (P : AppError → Type 0) (b : Bool) (r s : Result B)
      → (b ≡ true → Yields P Q r)
      → (b ≡ false → Yields P Q s)
      → Yields P Q (if b then r else s)
  Yields-if P true r s h k = h refl
  Yields-if P false r s h k = k refl
