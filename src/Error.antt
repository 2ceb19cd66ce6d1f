-- ===== src/Error.antt =====
-- crates/easysub-core/src/error.rs: the error kinds, and the results that may hold one. The message
-- that each variant carries is left out: no operation reads it.
pub mod Yields
use easysub.Prelude.{Bool, true, false, Option, none, some}

pub data AppError : Type 0 where
  config bad_request not_found unauthorized unsupported upstream limit conversion internal :
      AppError

pub data Result {ℓ} (A : Type ℓ) : Type ℓ where
  ok : A → Result A
  err : AppError → Result A

-- `Option::ok_or`.
abbrev pub ok_or {ℓ} : {A : Type ℓ} → AppError → Option A → Result A
ok_or failure none = err failure
ok_or failure (some a) = ok a

-- The question mark operator.
infixl 5 ◌>>=◌
abbrev pub ◌>>=◌ {ℓ κ} : {A : Type ℓ} {B : Type κ} → Result A → (A → Result B) → Result B
(err failure) >>= next = err failure
(ok value) >>= next = next value

infixl 5 ◌>>◌
abbrev pub ◌>>◌ {ℓ} : {B : Type ℓ} → Result (Unit {0}) → Result B → Result B
first >> second = first >>= λ done. second

-- `if bad { return Err(e) }`.
abbrev pub reject_if : Bool → AppError → Result (Unit {0})
reject_if true e = err e
reject_if false e = ok tt

abbrev pub result_map {ℓ κ} : {A : Type ℓ} {B : Type κ} → (A → B) → Result A → Result B
result_map f (ok a) = ok (f a)
result_map f (err e) = err e

-- `Result::ok`.
abbrev pub result_ok {ℓ} : {A : Type ℓ} → Result A → Option A
result_ok (ok a) = some a
result_ok (err e) = none

abbrev pub is_err {ℓ} : {A : Type ℓ} → Result A → Bool
is_err (ok a) = false
is_err (err e) = true
