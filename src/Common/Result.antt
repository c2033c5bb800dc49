-- ===== src/Common/Result.antt =====
-- Requests that read and write a state and may raise. A raise drops what was written: the
-- transaction of a request is rolled back (backend/msm/apiserver/middleware.py).
use Prim.Native.Nat.{ℕ}
use mathlib.Core.Bool.{Bool, true, false}
use mathlib.Core.Option.{Option, none, some}
use mathlib.Core.List.{List, [], ◌∷◌}

-- The exceptions of exceptions/catalog.py that the handlers raise, those of the services and of
-- Temporal, and those of the database layer: a violated constraint, `one()` or `one_or_none()` on the
-- wrong number of rows, and an UPDATE that sets no column, which the database refuses.
pub data Error : Type 0 where
  unauthorized forbidden bad_request not_found : Error
  jwt_claim_failed key_error value_error integrity_error no_row_found multiple_rows_found : Error
  validation_error assertion_error programming_error rpc_error : Error
  invalid_pending_sites : List ℕ → Error

pub data Result (A : Type 0) : Type 0 where
  ok : A → Result A
  raise : Error → Result A

abbrev pub Tx : Type 0 → Type 0 → Type 0
Tx S A = S → Result (A × S)

infixl 5 ◌>>=◌ ◌>>◌
abbrev pub ◌>>=◌ : {S A B : Type 0} → Tx S A → (A → Tx S B) → Tx S B
◌>>=◌ m f s = elim (m s) [ ok (a, s') ↦ f a s' | raise e ↦ raise e ]

abbrev pub ◌>>◌ : {S A B : Type 0} → Tx S A → Tx S B → Tx S B
m >> k = m >>= λ _. k

module _ {S A : Type 0} where
  abbrev pub pure : A → Tx S A
  pure a s = ok (a, s)

  abbrev pub fail : Error → Tx S A
  fail e s = raise e

  abbrev pub gets : (S → A) → Tx S A
  gets f s = ok (f s, s)

  -- `result.one()`
  abbrev pub one : List A → Tx S A
  one [] s = raise no_row_found
  one (x ∷ []) s = ok (x, s)
  one (x ∷ y ∷ l) s = raise multiple_rows_found

  -- `result.one_or_none()`
  abbrev pub one_or_none : List A → Tx S (Option A)
  one_or_none [] s = ok (none, s)
  one_or_none (x ∷ []) s = ok (some x, s)
  one_or_none (x ∷ y ∷ l) s = raise multiple_rows_found

  -- The state that is left: a raise leaves the state before the request.
  abbrev pub after : Tx S A → S → S
  after m s = elim (m s) [ ok (a, s') ↦ s' | raise e ↦ s ]

module _ {S : Type 0} where
  abbrev pub modify : (S → S) → Tx S Unit
  modify f s = ok (tt, f s)

  abbrev pub raise_if : Bool → Error → Tx S Unit
  raise_if true e s = raise e
  raise_if false e s = ok (tt, s)
