-- ===== src/Base/Equality.antt =====
-- Decidable equality (`Eq` of Rust), as an interface, and membership tests over it.
use Prim.Native.Nat.{ℕ}
use mathlib.Core.Path.{◌≡◌, refl}
use mathlib.Core.Logic.{◌↔◌}
use mathlib.Core.Bool.{Bool, true, false, not, ◌&&◌, ◌||◌}
use mathlib.Core.List.{List, [], ◌∷◌, ◌++◌}
use native.Mathlib.Omega.{arith}
use dlep.Base.Tests.{◌==◌, ==_iff, if◌then◌else◌}

pub record Eq {ℓ} (A : Type ℓ) : Type ℓ where
  pub beq : A → A → Bool
  pub beq_iff : (a b : A) → (beq a b ≡ true) ↔ (a ≡ b)

infix 50 ◌≟◌
abbrev pub ◌≟◌ {ℓ} : {A : Type ℓ} ⦃e : Eq A⦄ → A → A → Bool
◌≟◌ ⦃e⦄ = e.beq

-- Equality of octet strings, `==` on slices and arrays.
unfoldable pub eq_octets : List ℕ → List ℕ → Bool
eq_octets [] [] = true
eq_octets [] (b ∷ w) = false
eq_octets (a ∷ v) [] = false
eq_octets (a ∷ v) (b ∷ w) = (a == b) && eq_octets v w

eq_octets_sound : (v w : List ℕ) → eq_octets v w ≡ true → v ≡ w
unfolding eq_octets
eq_octets_sound [] [] h = refl
eq_octets_sound [] (b ∷ w) h = cc
eq_octets_sound (a ∷ v) [] h = cc
eq_octets_sound (a ∷ v) (b ∷ w) h = ground (arith, eq_octets_sound v w)

eq_octets_refl : (v : List ℕ) → eq_octets v v ≡ true
unfolding eq_octets
eq_octets_refl [] = refl
eq_octets_refl (a ∷ v) = ground (arith, eq_octets_refl v)

pub eq_octets_iff : (v w : List ℕ) → (eq_octets v w ≡ true) ↔ (v ≡ w)
eq_octets_iff v w = (eq_octets_sound v w, λ e. rw (← e) (eq_octets_refl v))

instance abbrev pub octets_eq : Eq (List ℕ)
octets_eq = record { beq = eq_octets; beq_iff = eq_octets_iff }

instance abbrev pub nat_eq : Eq ℕ
nat_eq = record { beq = ◌==◌; beq_iff = ==_iff }

module _ {ℓ} {A : Type ℓ} ⦃e : Eq A⦄ where
  pub beq_refl : (a : A) → e.beq a a ≡ true
  beq_refl a = (e.beq_iff a a).1 refl

  -- `contains` of slices and of sets.
  unfoldable pub contains : List A → A → Bool
  contains [] a = false
  contains (x ∷ xs) a = (x ≟ a) || contains xs a

  -- `retain` and `filter`.
  unfoldable pub retain : (A → Bool) → List A → List A
  retain p [] = []
  retain p (x ∷ xs) = let rest = retain p xs in if p x then x ∷ rest else rest

  pub contains-append :
      (xs ys : List A) (a : A) → contains (xs ++ ys) a ≡ (contains xs a || contains ys a)
  unfolding contains
  contains-append [] ys a = refl
  contains-append (x ∷ xs) ys a = ground (arith, contains-append xs ys a)

  pub contains-retain :
      (p : A → Bool) (xs : List A) (a : A) → contains (retain p xs) a ≡ (p a && contains xs a)
  unfolding contains retain
  contains-retain p [] a = ground arith
  contains-retain p (x ∷ xs) a = ground (arith, contains-retain p xs a, e.beq_iff x a)

  -- No value twice.
  unfoldable pub distinct : List A → Bool
  unfolding contains
  distinct [] = true
  distinct (x ∷ xs) = not (contains xs x) && distinct xs

  pub distinct-snoc :
      (xs : List A) (a : A)
      → distinct xs ≡ true
      → contains xs a ≡ false
      → distinct (xs ++ (a ∷ [])) ≡ true
  unfolding distinct contains
  distinct-snoc [] a h n = refl
  distinct-snoc (x ∷ xs) a h n =
      ground
        (arith, distinct-snoc xs a, contains-append xs (a ∷ []) x, e.beq_iff x a, e.beq_iff a x)

  pub distinct-again :
      (xs ys : List A) (a : A) → contains xs a ≡ true → distinct (xs ++ (a ∷ ys)) ≡ false
  unfolding distinct contains
  distinct-again [] ys a h = absurd (cc)
  distinct-again (x ∷ xs) ys a h =
      ground
        (arith, distinct-again xs ys a, contains-append xs (a ∷ ys) x, e.beq_iff x a, e.beq_iff a a)
