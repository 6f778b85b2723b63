-- ===== src/Fsm/Addresses/Sets.antt =====
-- The members of one family of addresses.rs after an operation; the four families are handled alike.
use dlep.Base.{
  Bool, true, not, ◌&&◌, ◌||◌, if◌then◌else◌, List, [], ◌∷◌, ◌++◌, ◌≡◌, refl, arith, Eq, contains,
  retain, contains-append, contains-retain, distinct, distinct-snoc,
}
use dlep.Fsm.Addresses.{push_new, apply_set, without}

module _ {A : Type 0} ⦃e : Eq A⦄ where
  contains-push_new :
      (remove current add : List A) (a : A)
      → contains (push_new remove current add) a
        ≡ (contains current a || (contains add a && not (contains remove a)))
  unfolding push_new contains
  contains-push_new remove current [] a = ground arith
  contains-push_new remove current (x ∷ add) a = ground (
    arith,
    contains-push_new remove current add a,
    contains-push_new remove (current ++ (x ∷ [])) add a,
    contains-append current (x ∷ []) a,
    e.beq_iff x a,
  )

  -- A value that is added and not removed is in the new set, one that is removed and not added is
  -- not, and any other is if it was.
  pub contains-apply_set :
      (current add remove : List A) (a : A)
      → contains (apply_set current add remove) a ≡ (
          if contains add a
          then (if contains remove a then contains current a else true)
          else contains current a && not (contains remove a))
  unfolding apply_set
  contains-apply_set current add remove a = ground (
    arith,
    contains-push_new remove (retain (λ b. not (contains remove b) || contains add b) current) add
        a,
    contains-retain (λ b. not (contains remove b) || contains add b) current a,
  )

  pub contains-without :
      (xs ys : List A) (a : A) → contains (without xs ys) a ≡ (contains xs a && not (contains ys a))
  unfolding without
  contains-without xs ys a = ground (arith, contains-retain (λ v. not (contains ys v)) xs a)

  -- Applying the difference of two sets to the old one gives the members of the new one.
  pub contains-apply_difference :
      (old new : List A) (a : A)
      → contains (apply_set old (without new old) (without old new)) a ≡ contains new a
  contains-apply_difference old new a = ground (
    arith,
    contains-apply_set old (without new old) (without old new) a,
    contains-without new old a,
    contains-without old new a,
  )

  distinct-retain :
      (p : A → Bool) (xs : List A) → distinct xs ≡ true → distinct (retain p xs) ≡ true
  unfolding distinct retain
  distinct-retain p [] h = refl
  distinct-retain p (x ∷ xs) h = ground (arith, distinct-retain p xs, contains-retain p xs x)

  distinct-push_new :
      (remove current add : List A)
      → distinct current ≡ true
      → distinct (push_new remove current add) ≡ true
  unfolding push_new
  distinct-push_new remove current [] h = h
  distinct-push_new remove current (x ∷ add) h = ground (
    arith,
    distinct-push_new remove current add,
    distinct-push_new remove (current ++ (x ∷ [])) add,
    distinct-snoc current x,
  )

  -- No value comes to stand in the set twice.
  pub distinct-apply_set :
      (current add remove : List A)
      → distinct current ≡ true
      → distinct (apply_set current add remove) ≡ true
  unfolding apply_set
  distinct-apply_set current add remove h =
      distinct-push_new remove (retain _ current) add (distinct-retain _ current h)
