-- ===== src/Fsm/Addresses/Strict.antt =====
-- The outcomes of `apply_strict` of addresses.rs.
use dlep.Base.{
  Bool, true, false, not, ◌&&◌, ◌||◌, if◌then◌else◌, List, [], ◌∷◌, ◌++◌, map, Result, ok, err,
  panic, ◌≡◌, refl, ◌∙◌, ap, arith, Eq, octets_eq, contains,
}
use mathlib.Core.Path.{ap₂}
use dlep.Core.Ipnet.{Ipnet, IpNet, NetOps, net_eq, trunc, IpnetLaws}
use dlep.Core.Status.{StatusCode, invalid_data}
use dlep.Fsm.Addresses.{
  DestinationAddrs, AddressChanges, canonical_addrs, canonical, validate, all_new, unambiguous,
  all_absent, all_present, apply_lenient, consistent, all_consistent, apply_strict,
}
use dlep.Fsm.Addresses.Apply.{Address, v4, v6, v4_subnet, v6_subnet, has, has-apply_lenient}

-- What one value must satisfy for a batch to be accepted: it is added only if absent, removed
-- only if present, and not both.
abbrev pub sound_for : (current add remove : Bool) → Bool
sound_for current add remove =
    not (add && current) && not (remove && not current) && not (add && remove)

abbrev decision : Bool → Result StatusCode (Unit {0})
decision b = if b then ok tt else err invalid_data

decide :
    (current add remove : Bool)
    → sound_for current add remove ≡ true
    → (if add then (if remove then current else true) else current && not remove)
      ≡ (add || (current && not remove))
decide current add remove h = ground arith

trunc_idempotent :
    (ops : NetOps)
    → ((n : IpNet) → ops.network (trunc ops n) ≡ ops.network n)
    → (n : IpNet) → trunc ops (trunc ops n) ≡ trunc ops n
trunc_idempotent ops h n i = record { addr = h n i; prefix_len = n.prefix_len }

module _ {A : Type 0} ⦃e : Eq A⦄ where
  all_new-disjoint :
      (seen remove add : List A) (a : A)
      → all_new seen remove add ≡ true
      → contains add a && contains remove a ≡ false
  unfolding all_new contains
  all_new-disjoint seen remove [] a h = refl
  all_new-disjoint seen remove (x ∷ add) a h =
      ground (arith, all_new-disjoint (seen ++ (x ∷ [])) remove add a, e.beq_iff x a)

  all_absent-absent :
      (current add : List A) (a : A)
      → all_absent current add ≡ true
      → contains add a && contains current a ≡ false
  unfolding all_absent contains
  all_absent-absent current [] a h = refl
  all_absent-absent current (x ∷ add) a h =
      ground (arith, all_absent-absent current add a, e.beq_iff x a)

  all_present-present :
      (current remove : List A) (a : A)
      → all_present current remove ≡ true
      → contains remove a && not (contains current a) ≡ false
  unfolding all_present contains
  all_present-present current [] a h = refl
  all_present-present current (x ∷ remove) a h =
      ground (arith, all_present-present current remove a, e.beq_iff x a)

  strict-sound_for :
      (current add remove : List A) (a : A)
      → unambiguous add remove ≡ true
      → consistent current add remove ≡ true
      → sound_for (contains current a) (contains add a) (contains remove a) ≡ true
  unfolding unambiguous consistent
  strict-sound_for current add remove a u c = ground (
    arith,
    all_new-disjoint [] remove add a,
    all_absent-absent current add a,
    all_present-present current remove a,
  )

module _ ⦃ip : Ipnet⦄ where
  -- What comes of a batch of changes to a set: refused, with the set as it was, or accepted, when
  -- each address satisfies the conditions and is in the new set if it was added, or was there and
  -- was not removed.
  abbrev pub Strict :
      AddressChanges → DestinationAddrs → Result StatusCode (Unit {0}) × DestinationAddrs → Type 0
  Strict d current (ok u, s) =
      (x : Address)
      → (sound_for (has current x) (has d.added x) (has d.removed x) ≡ true)
        × (has s x ≡ (has d.added x || (has current x && not (has d.removed x))))
  Strict d current (err e, s) = (e ≡ invalid_data) × (s ≡ current)
  Strict d current (panic, s) = ⊥

  valid-sound_for :
      (d : AddressChanges) (current : DestinationAddrs) (x : Address)
      → (unambiguous d.added.v4 d.removed.v4
          && unambiguous d.added.v6 d.removed.v6
          && unambiguous d.added.v4_subnets d.removed.v4_subnets
          && unambiguous d.added.v6_subnets d.removed.v6_subnets)
        ≡ true
      → all_consistent d current ≡ true
      → sound_for (has current x) (has d.added x) (has d.removed x) ≡ true
  unfolding all_consistent
  valid-sound_for d current (v4 a) u c =
      ground (arith, strict-sound_for current.v4 d.added.v4 d.removed.v4 a)
  valid-sound_for d current (v6 a) u c =
      ground (arith, strict-sound_for current.v6 d.added.v6 d.removed.v6 a)
  valid-sound_for d current (v4_subnet n) u c =
      ground (arith, strict-sound_for current.v4_subnets d.added.v4_subnets d.removed.v4_subnets n)
  valid-sound_for d current (v6_subnet n) u c =
      ground (arith, strict-sound_for current.v6_subnets d.added.v6_subnets d.removed.v6_subnets n)

  has-accepted :
      (d : AddressChanges) (current : DestinationAddrs) (x : Address)
      → canonical d ≡ d
      → sound_for (has current x) (has d.added x) (has d.removed x) ≡ true
      → has (apply_lenient d current) x
        ≡ (has d.added x || (has current x && not (has d.removed x)))
  has-accepted d current x e s =
      has-apply_lenient d current x
      ∙ ap
          (λ c.
            if has c.added x
            then (if has c.removed x then has current x else true)
            else has current x && not (has c.removed x))
          e
      ∙ decide (has current x) (has d.added x) (has d.removed x) s

  map-idempotent :
      {A : Type 0} (f : A → A) (xs : List A)
      → ((a : A) → f (f a) ≡ f a)
      → map f (map f xs) ≡ map f xs
  map-idempotent f [] h = refl
  map-idempotent f (x ∷ xs) h = ap₂ ◌∷◌ (h x) (map-idempotent f xs h)

  pub canonical_addrs-idempotent :
      IpnetLaws ip
      → (a : DestinationAddrs) → canonical_addrs (canonical_addrs a) ≡ canonical_addrs a
  unfolding canonical_addrs
  canonical_addrs-idempotent laws a i = record a {
    v4_subnets =
        map-idempotent (trunc ip.v4) a.v4_subnets (trunc_idempotent ip.v4 laws.v4.network_trunc) i;
    v6_subnets =
        map-idempotent (trunc ip.v6) a.v6_subnets (trunc_idempotent ip.v6 laws.v6.network_trunc) i;
  }

  pub canonical-idempotent :
      IpnetLaws ip → (c : AddressChanges) → canonical (canonical c) ≡ canonical c
  unfolding canonical
  canonical-idempotent laws c i = record {
    added = canonical_addrs-idempotent laws c.added i;
    removed = canonical_addrs-idempotent laws c.removed i;
  }

  outcome :
      (d : AddressChanges) (current : DestinationAddrs)
      → canonical d ≡ d
      → (unique consistent : Bool)
      → (unique ≡ true
          → consistent ≡ true
          → (x : Address) → sound_for (has current x) (has d.added x) (has d.removed x) ≡ true)
      → Strict d current (elim (decision unique) [
        | err e ↦ (err e, current)
        | panic ↦ (panic, current)
        | ok u ↦
            if not consistent then (err invalid_data, current) else (ok tt, apply_lenient d current)
      ])
  outcome d current e false k h = (refl, refl)
  outcome d current e true false h = (refl, refl)
  outcome d current e true true h = λ x. (h refl refl x, has-accepted d current x e (h refl refl x))

  -- Under the documented laws of ipnet, a batch of address changes is refused with the
  -- invalid-data status and changes nothing, or it is accepted: then it adds only absent
  -- addresses, removes only present ones, and the new set has exactly the added addresses and
  -- those that it does not remove.
  pub apply_strict-Strict :
      IpnetLaws ip
      → (c : AddressChanges) (current : DestinationAddrs)
      → Strict (canonical c) current (apply_strict c current)
  unfolding apply_strict validate
  apply_strict-Strict laws c current =
      outcome (canonical c) current (canonical-idempotent laws c) _ _
        (λ u k x. valid-sound_for (canonical c) current x u k)
