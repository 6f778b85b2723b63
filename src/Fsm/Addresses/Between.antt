-- ===== src/Fsm/Addresses/Between.antt =====
-- The changes that `DestinationAddrs::between` of addresses.rs finds: which they are, when there are
-- none, and that `apply_strict` accepts them.
use dlep.Base.{
  Bool, true, false, not, ◌&&◌, List, [], ◌∷◌, ◌++◌, ok, ◌≡◌, refl, arith, Eq, octets_eq, contains,
  retain, contains-retain, contains-append, distinct, Bool-cases, inl, inr,
}
use dlep.Core.Ipnet.{Ipnet, net_eq}
use dlep.Fsm.Addresses.{
  DestinationAddrs, AddressChanges, is_nil, addrs_empty, changes_empty, all_new, unambiguous,
  all_absent, all_present, consistent, without, difference, between, canonical, validate,
  all_consistent, apply_lenient, apply_strict,
}
use dlep.Fsm.Addresses.Apply.{Address, v4, v6, v4_subnet, v6_subnet, has, IsDistinct}

module _ {A : Type 0} ⦃e : Eq A⦄ where
  pub contains-without :
      (a b : List A) (x : A) → contains (without a b) x ≡ (contains a x && not (contains b x))
  unfolding without
  contains-without a b x = ground (arith, contains-retain (λ v. not (contains b v)) a x)

  distinct-retain :
      (p : A → Bool) (xs : List A) → distinct xs ≡ true → distinct (retain p xs) ≡ true
  unfolding distinct retain
  distinct-retain p [] h = refl
  distinct-retain p (x ∷ xs) h = ground (arith, distinct-retain p xs, contains-retain p xs x)

  nil_contains : (xs : List A) (x : A) → is_nil xs ≡ true → contains xs x ≡ false
  unfolding contains
  nil_contains [] x h = refl
  nil_contains (y ∷ xs) x h = absurd (ground arith)

  one_of_some : (xs : List A) → is_nil xs ≡ false → (x : A) × (contains xs x ≡ true)
  unfolding contains
  one_of_some [] h = absurd (ground arith)
  one_of_some (x ∷ xs) h = (x, ground (arith, e.beq_iff x x))

  -- Sets without a difference have the same members.
  same_members :
      (a b : List A)
      → is_nil (without a b) ≡ true
      → is_nil (without b a) ≡ true
      → (x : A) → contains a x ≡ contains b x
  same_members a b h k x = ground (
    arith,
    nil_contains (without a b) x,
    nil_contains (without b a) x,
    contains-without a b x,
    contains-without b a x,
  )

  a_difference :
      (a b : List A)
      → is_nil (without a b) ≡ false
      → (x : A) × ((contains a x ≡ true) × (contains b x ≡ false))
  a_difference a b h =
      let (x, there) = one_of_some (without a b) h in
      (x, (ground (arith, contains-without a b x), ground (arith, contains-without a b x)))

  -- None of `ys` is one of `xs`.
  abbrev IsNew : List A → List A → Type 0
  IsNew xs ys = (x : A) → contains ys x ≡ true → contains xs x ≡ false

  -- A value behind `x` in a list without repetition, and in no list of earlier ones.
  later :
      (seen add : List A) (x y : A)
      → not (contains add x) ≡ true
      → contains add y ≡ true
      → (contains (x ∷ add) y ≡ true → contains seen y ≡ false)
      → contains (seen ++ (x ∷ [])) y ≡ false
  unfolding contains
  later seen add x y d m s = ground (arith, contains-append seen (x ∷ []) y, e.beq_iff x y)

  all_new-IsNew :
      (seen remove add : List A)
      → distinct add ≡ true
      → IsNew seen add
      → IsNew remove add
      → all_new seen remove add ≡ true
  unfolding all_new distinct contains
  all_new-IsNew seen remove [] d s r = refl
  all_new-IsNew seen remove (x ∷ add) d s r =
      let new : IsNew (seen ++ (x ∷ [])) add = λ y m. later seen add x y (ground arith) m (s y) in
      let rest =
        all_new-IsNew (seen ++ (x ∷ [])) remove add (ground arith) new
          (λ y m. r y (ground arith)) in
      ground (arith, s x, r x, e.beq_iff x x)

  all_absent-IsNew : (current add : List A) → IsNew current add → all_absent current add ≡ true
  unfolding all_absent contains
  all_absent-IsNew current [] h = refl
  all_absent-IsNew current (x ∷ add) h =
      let rest = all_absent-IsNew current add (λ y m. h y (ground arith)) in
      ground (arith, h x, e.beq_iff x x)

  all_present-IsIn :
      (current remove : List A)
      → ((x : A) → contains remove x ≡ true → contains current x ≡ true)
      → all_present current remove ≡ true
  unfolding all_present contains
  all_present-IsIn current [] h = refl
  all_present-IsIn current (x ∷ remove) h =
      let rest = all_present-IsIn current remove (λ y m. h y (ground arith)) in
      ground (arith, h x, e.beq_iff x x)

  -- The changes from one set to another can be applied to the first one.
  unambiguous-without :
      (old new : List A)
      → distinct old ≡ true
      → distinct new ≡ true
      → unambiguous (without new old) (without old new) ≡ true
  unfolding unambiguous without contains
  unambiguous-without old new o n =
      let added =
        all_new-IsNew [] (without old new) (without new old) (distinct-retain _ new n) (λ y m. refl)
          (λ y m. ground (arith, contains-without new old y, contains-without old new y)) in
      let removed =
        all_new-IsNew [] [] (without old new) (distinct-retain _ old o) (λ y m. refl)
          (λ y m. refl) in
      ground arith

  consistent-without :
      (old new : List A) → consistent old (without new old) (without old new) ≡ true
  unfolding consistent
  consistent-without old new =
      let absent =
        all_absent-IsNew old (without new old)
          (λ y m. ground (arith, contains-without new old y)) in
      let present =
        all_present-IsIn old (without old new)
          (λ y m. ground (arith, contains-without old new y)) in
      ground arith

-- What is added is only in the new set, what is removed is only in the old one.
pub has-between :
    (old new : DestinationAddrs) (x : Address)
    → (has (between old new).added x ≡ (has new x && not (has old x)))
      × (has (between old new).removed x ≡ (has old x && not (has new x)))
unfolding between difference
has-between old new (v4 a) = (contains-without new.v4 old.v4 a, contains-without old.v4 new.v4 a)
has-between old new (v6 a) = (contains-without new.v6 old.v6 a, contains-without old.v6 new.v6 a)
has-between old new (v4_subnet n) = (
  contains-without new.v4_subnets old.v4_subnets n,
  contains-without old.v4_subnets new.v4_subnets n,
)
has-between old new (v6_subnet n) = (
  contains-without new.v6_subnets old.v6_subnets n,
  contains-without old.v6_subnets new.v6_subnets n,
)

-- Nothing changes between sets with the same members.
pub same_addresses :
    (old new : DestinationAddrs)
    → changes_empty (between old new) ≡ true
    → (x : Address) → has new x ≡ has old x
unfolding changes_empty addrs_empty between difference
same_addresses old new h (v4 a) = same_members new.v4 old.v4 (ground arith) (ground arith) a
same_addresses old new h (v6 a) = same_members new.v6 old.v6 (ground arith) (ground arith) a
same_addresses old new h (v4_subnet n) =
    same_members new.v4_subnets old.v4_subnets (ground arith) (ground arith) n
same_addresses old new h (v6_subnet n) =
    same_members new.v6_subnets old.v6_subnets (ground arith) (ground arith) n

-- Two sets that differ in an address.
abbrev pub Differ : DestinationAddrs → DestinationAddrs → Type 0
Differ a b = (x : Address) × (has a x ≡ not (has b x))

unequal : (p q : Bool) → p ≡ true → q ≡ false → p ≡ not q
unequal p q h k = ground arith

abbrev equal_in :
    {A : Type 0} ⦃e : Eq A⦄ (old new : DestinationAddrs) → (DestinationAddrs → List A) → Bool
equal_in old new part =
    is_nil (without (part new) (part old)) && is_nil (without (part old) (part new))

in_family-Differ :
    {A : Type 0} ⦃e : Eq A⦄ (old new : DestinationAddrs) (part : DestinationAddrs → List A)
    (inject : A → Address)
    → ((s : DestinationAddrs) (a : A) → has s (inject a) ≡ contains (part s) a)
    → equal_in old new part ≡ false
    → Differ new old
in_family-Differ old new part inject at h =
    elim (Bool-cases (is_nil (without (part new) (part old)))) [
      | inl none_new ↦
          let (x, (there, gone)) = a_difference (part old) (part new) (ground arith) in
          (inject x, ground (arith, at old x, at new x))
      | inr some_new ↦
          let (x, (there, gone)) = a_difference (part new) (part old) some_new in
          (inject x, ground (arith, at old x, at new x))
    ]

-- Changes that are not empty are between sets that differ in an address.
pub changes_empty-Differ :
    (old new : DestinationAddrs) → changes_empty (between old new) ≡ false → Differ new old
unfolding changes_empty addrs_empty between difference
changes_empty-Differ old new h = elim (Bool-cases (equal_in old new (λ s. s.v4))) [
  | inr other ↦ in_family-Differ old new (λ s. s.v4) v4 (λ s a. refl) other
  | inl a ↦ elim (Bool-cases (equal_in old new (λ s. s.v6))) [
    | inr other ↦ in_family-Differ old new (λ s. s.v6) v6 (λ s a. refl) other
    | inl b ↦ elim (Bool-cases (equal_in old new (λ s. s.v4_subnets))) [
      | inr other ↦ in_family-Differ old new (λ s. s.v4_subnets) v4_subnet (λ s a. refl) other
      | inl c ↦ in_family-Differ old new (λ s. s.v6_subnets) v6_subnet (λ s a. refl) (ground arith)
    ]
  ]
]

module _ ⦃ip : Ipnet⦄ where
  -- A batch that is the changes from one set to another is accepted for the first one.
  pub apply_strict-between :
      (old new : DestinationAddrs) (c : AddressChanges)
      → canonical c ≡ between old new
      → IsDistinct old
      → IsDistinct new
      → apply_strict c old ≡ (ok tt, apply_lenient (canonical c) old)
  unfolding apply_strict validate all_consistent between difference
  apply_strict-between old new c same (a, b, d, f) (a', b', d', f') = rw same (
      ground (
        arith,
        unambiguous-without old.v4 new.v4 a a',
        unambiguous-without old.v6 new.v6 b b',
        unambiguous-without old.v4_subnets new.v4_subnets d d',
        unambiguous-without old.v6_subnets new.v6_subnets f f',
        consistent-without old.v4 new.v4,
        consistent-without old.v6 new.v6,
        consistent-without old.v4_subnets new.v4_subnets,
        consistent-without old.v6_subnets new.v6_subnets,
      ))
