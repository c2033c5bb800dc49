-- ===== src/Common/Ensures.antt =====
-- What holds of the answer and the state of a request that does not raise.
use mathlib.Core.Path.{◌≡◌, refl}
use mathlib.Core.Bool.{Bool, true, false}
use maas_site_manager.Common.Result.{Error, Result, Tx, ok, raise, ◌>>=◌, raise_if}

module _ {S A : Type 0} where
  abbrev pub Ensures : Result (A × S) → (A → S → Type 0) → Type 0
  Ensures (ok (a, s)) P = P a s
  Ensures (raise e) P = Unit

module _ {S A : Type 0} (P Q : A → S → Type 0) where
  pub weaken-Ensures :
      (r : Result (A × S)) → Ensures r P → ((a : A) (s : S) → P a s → Q a s) → Ensures r Q
  weaken-Ensures (ok (a, s)) p h = h a s p
  weaken-Ensures (raise e) p h = tt

module _ {S A : Type 0} where
  pub any-Ensures : (r : Result (A × S)) → Ensures r (λ a s. Unit)
  any-Ensures (ok (a, s)) = tt
  any-Ensures (raise e) = tt

module _ {S A B : Type 0} (f : A → Tx S B) (P : A → S → Type 0) (Q : B → S → Type 0) where
  abbrev bound : Result (A × S) → Result (B × S)
  bound r = elim r [ ok (a, s) ↦ f a s | raise e ↦ raise e ]

  bound-Ensures :
      (r : Result (A × S))
      → Ensures r P
      → ((a : A) (s : S) → P a s → Ensures (f a s) Q)
      → Ensures (bound r) Q
  bound-Ensures (ok (a, s)) p next = next a s p
  bound-Ensures (raise e) p next = tt

  -- A step, then the rest.
  pub bind-Ensures :
      (m : Tx S A) (s : S)
      → Ensures (m s) P
      → ((a : A) (s' : S) → P a s' → Ensures (f a s') Q)
      → Ensures ((m >>= f) s) Q
  bind-Ensures m s p next = bound-Ensures (m s) p next

module _ {S : Type 0} where
  pub raise_if-Ensures :
      (b : Bool) (e : Error) (s : S) → Ensures (raise_if b e s) (λ u s'. (s' ≡ s) × (b ≡ false))
  raise_if-Ensures true e s = tt
  raise_if-Ensures false e s = (refl, refl)
