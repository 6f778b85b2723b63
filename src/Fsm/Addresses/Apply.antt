-- ===== src/Fsm/Addresses/Apply.antt =====
-- What the operations on address sets do, for an address or subnet of any of the four families.
use dlep.Base.{
  Octets, Bool, true, not, ◌&&◌, if◌then◌else◌, List, [], ◌∷◌, map, ◌≡◌, refl, ◌∙◌, ap, arith, Eq,
  octets_eq, contains, retain, distinct,
}
use dlep.Core.Ipnet.{Ipnet, IpNet, net_eq}
use dlep.Fsm.Addresses.{
  DestinationAddrs, AddressChanges, apply_set, without, difference, between, canonical_addrs,
  canonical, apply_lenient,
}
use dlep.Fsm.Addresses.Sets.{contains-apply_set, contains-apply_difference, distinct-apply_set}

pub data Address : Type 0 where
  v4 : Octets → Address
  v6 : Octets → Address
  v4_subnet : IpNet → Address
  v6_subnet : IpNet → Address

abbrev pub has : DestinationAddrs → Address → Bool
has s (v4 a) = contains s.v4 a
has s (v6 a) = contains s.v6 a
has s (v4_subnet n) = contains s.v4_subnets n
has s (v6_subnet n) = contains s.v6_subnets n

-- A set in which no value stands twice.
abbrev pub IsDistinct : DestinationAddrs → Type 0
IsDistinct s =
    (distinct s.v4 ≡ true)
    × (distinct s.v6 ≡ true)
    × (distinct s.v4_subnets ≡ true)
    × (distinct s.v6_subnets ≡ true)

module _ {A : Type 0} ⦃e : Eq A⦄ where
  pub map-retain :
      (f : A → A) (p : A → Bool) (xs : List A) → map f xs ≡ xs → map f (retain p xs) ≡ retain p xs
  unfolding retain
  map-retain f p [] h = refl
  map-retain f p (x ∷ xs) h = ground (arith, map-retain f p xs)

  map-without : (f : A → A) (xs ys : List A) → map f xs ≡ xs → map f (without xs ys) ≡ without xs ys
  unfolding without
  map-without f xs ys = map-retain f _ xs

module _ ⦃ip : Ipnet⦄ where
  -- A lenient change decides each address by itself: one that is only added is in the new set, one
  -- that is only removed is not, and one that is both or neither is in the new set if it was in
  -- the old one.
  pub has-apply_lenient :
      (c : AddressChanges) (current : DestinationAddrs) (x : Address)
      → has (apply_lenient c current) x ≡ (
          if has (canonical c).added x
          then (if has (canonical c).removed x then has current x else true)
          else has current x && not (has (canonical c).removed x))
  unfolding apply_lenient
  has-apply_lenient c current (v4 a) = contains-apply_set current.v4 _ _ a
  has-apply_lenient c current (v6 a) = contains-apply_set current.v6 _ _ a
  has-apply_lenient c current (v4_subnet n) = contains-apply_set current.v4_subnets _ _ n
  has-apply_lenient c current (v6_subnet n) = contains-apply_set current.v6_subnets _ _ n

  -- Applying changes to a set in which no value stands twice gives such a set.
  pub apply_lenient-IsDistinct :
      (c : AddressChanges) (current : DestinationAddrs)
      → IsDistinct current
      → IsDistinct (apply_lenient c current)
  unfolding apply_lenient
  apply_lenient-IsDistinct c current (a, b, d, f) = (
    distinct-apply_set current.v4 _ _ a,
    distinct-apply_set current.v6 _ _ b,
    distinct-apply_set current.v4_subnets _ _ d,
    distinct-apply_set current.v6_subnets _ _ f,
  )

  -- Subnets in network form.
  abbrev pub IsCanonical : DestinationAddrs → Type 0
  IsCanonical s = canonical_addrs s ≡ s

  pub canonical-between :
      (old new : DestinationAddrs)
      → IsCanonical old
      → IsCanonical new
      → canonical (between old new) ≡ between old new
  unfolding canonical canonical_addrs between difference
  canonical-between old new o n i = record {
    added = record {
      v4 = without new.v4 old.v4;
      v6 = without new.v6 old.v6;
      v4_subnets = map-without _ new.v4_subnets old.v4_subnets (λ j. (n j).v4_subnets) i;
      v6_subnets = map-without _ new.v6_subnets old.v6_subnets (λ j. (n j).v6_subnets) i;
    };
    removed = record {
      v4 = without old.v4 new.v4;
      v6 = without old.v6 new.v6;
      v4_subnets = map-without _ old.v4_subnets new.v4_subnets (λ j. (o j).v4_subnets) i;
      v6_subnets = map-without _ old.v6_subnets new.v6_subnets (λ j. (o j).v6_subnets) i;
    };
  }

  pub has-apply_difference :
      (old new : DestinationAddrs) (c : AddressChanges) (x : Address)
      → canonical c ≡ between old new
      → has (apply_lenient c old) x ≡ has new x
  unfolding apply_lenient between difference
  has-apply_difference old new c (v4 a) e =
      ap (λ d. contains (apply_set old.v4 d.added.v4 d.removed.v4) a) e
      ∙ (contains-apply_difference old.v4 new.v4 a)
  has-apply_difference old new c (v6 a) e =
      ap (λ d. contains (apply_set old.v6 d.added.v6 d.removed.v6) a) e
      ∙ (contains-apply_difference old.v6 new.v6 a)
  has-apply_difference old new c (v4_subnet n) e =
      ap (λ d. contains (apply_set old.v4_subnets d.added.v4_subnets d.removed.v4_subnets) n) e
      ∙ (contains-apply_difference old.v4_subnets new.v4_subnets n)
  has-apply_difference old new c (v6_subnet n) e =
      ap (λ d. contains (apply_set old.v6_subnets d.added.v6_subnets d.removed.v6_subnets) n) e
      ∙ (contains-apply_difference old.v6_subnets new.v6_subnets n)

  -- The changes between two sets of addresses whose subnets are in network form, applied to the
  -- old set, give the members of the new one.
  pub has-apply_between :
      (old new : DestinationAddrs) (x : Address)
      → IsCanonical old
      → IsCanonical new
      → has (apply_lenient (between old new) old) x ≡ has new x
  has-apply_between old new x o n =
      has-apply_difference old new (between old new) x (canonical-between old new o n)
