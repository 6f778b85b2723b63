-- ===== src/Base/Outcome.antt =====
-- Rust's `Result`, with a third outcome for a panic (an index out of range, an `expect` that
-- fails), so that the absence of panics is a statement about the code.

pub data Result {ℓ κ} (E : Type ℓ) (A : Type κ) : Type (ℓ ⊔ κ) where
  ok : A → Result E A
  err : E → Result E A
  panic : Result E A

module _ {ℓ} {E : Type ℓ} where
  infixl 5 ◌>>=◌ ◌>>◌
  abbrev pub ◌>>=◌ {κ μ} : {A : Type κ} {B : Type μ} → Result E A → (A → Result E B) → Result E B
  ok a >>= f = f a
  err e >>= f = err e
  panic >>= f = panic

  abbrev pub ◌>>◌ {κ} : {B : Type κ} → Result E (Unit {0}) → Result E B → Result E B
  m >> k = m >>= λ _. k

  -- The outcome is no panic, and a value satisfies the postcondition.
  abbrev pub Meets {κ} : {A : Type κ} → (A → Type 0) → Result E A → Type 0
  Meets P (ok a) = P a
  Meets P (err e) = Unit {0}
  Meets P panic = ⊥

  -- A postcondition of a chain, from one of its first step.
  pub Meets-bind {κ μ} :
      {A : Type κ} {B : Type μ} (P : A → Type 0) (Q : B → Type 0) (m : Result E A)
      (f : A → Result E B)
      → Meets P m
      → ((a : A) → P a → Meets Q (f a))
      → Meets Q (m >>= f)
  Meets-bind P Q (ok a) f h k = k a h
  Meets-bind P Q (err e) f h k = tt
  Meets-bind P Q panic f h k = absurd h

  pub Meets-map {κ} :
      {A : Type κ} (P Q : A → Type 0) (m : Result E A)
      → ((a : A) → P a → Q a)
      → Meets P m
      → Meets Q m
  Meets-map P Q (ok a) f h = f a h
  Meets-map P Q (err e) f h = tt
  Meets-map P Q panic f h = absurd h
