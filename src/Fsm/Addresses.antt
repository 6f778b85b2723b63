-- ===== src/Fsm/Addresses.antt =====
-- crates/dlep-fsm/src/addresses.rs. A method on `&mut current` returns the new set.
pub mod Sets
pub mod Apply
pub mod Between
pub mod Strict
pub mod Batch
use dlep.Base.{
  Bool, true, false, not, ◌&&◌, ◌||◌, if◌then◌else◌, List, [], ◌∷◌, ◌++◌, map, Result, ok, err,
  panic, Eq, octets_eq, contains, retain,
}
use dlep.Core.Ipnet.{Ipnet, IpNet, net_eq, trunc}
use dlep.Core.Item.{Ipv4Addr, Ipv6Addr, DataItem, Message, with_item}
use dlep.Core.Status.{StatusCode, invalid_data}

pub record DestinationAddrs : Type 0 where
  pub v4 : List Ipv4Addr
  pub v6 : List Ipv6Addr
  pub v4_subnets : List IpNet
  pub v6_subnets : List IpNet

-- `DestinationAddrs::default`.
abbrev pub no_addrs : DestinationAddrs
no_addrs = record { v4 = []; v6 = []; v4_subnets = []; v6_subnets = [] }

abbrev pub is_nil {ℓ} : {A : Type ℓ} → List A → Bool
is_nil [] = true
is_nil (x ∷ xs) = false

-- `DestinationAddrs::is_empty`.
unfoldable pub addrs_empty : DestinationAddrs → Bool
addrs_empty a = is_nil a.v4 && is_nil a.v6 && is_nil a.v4_subnets && is_nil a.v6_subnets

pub record AddressChanges : Type 0 where
  pub added : DestinationAddrs
  pub removed : DestinationAddrs

abbrev pub no_changes : AddressChanges
no_changes = record { added = no_addrs; removed = no_addrs }

-- `AddressChanges::is_empty`.
unfoldable pub changes_empty : AddressChanges → Bool
changes_empty c = addrs_empty c.added && addrs_empty c.removed

module _ {A : Type 0} ⦃e : Eq A⦄ where
  -- The first `all` of `validate`: the values of `add` behind `add[..n]` are new, and not in
  -- `remove`.
  unfoldable pub all_new : (seen remove add : List A) → Bool
  all_new seen remove [] = true
  all_new seen remove (x ∷ add) =
      not (contains seen x) && not (contains remove x) && all_new (seen ++ (x ∷ [])) remove add

  -- `fn valid` of `validate`; the second `all` asks the same of `remove`, with no other set.
  unfoldable pub unambiguous : (add remove : List A) → Bool
  unambiguous add remove = all_new [] remove add && all_new [] [] remove

  unfoldable pub all_absent : (current add : List A) → Bool
  all_absent current [] = true
  all_absent current (a ∷ add) = not (contains current a) && all_absent current add

  unfoldable pub all_present : (current remove : List A) → Bool
  all_present current [] = true
  all_present current (a ∷ remove) = contains current a && all_present current remove

  -- `fn valid` of `apply_strict`.
  unfoldable pub consistent : (current add remove : List A) → Bool
  consistent current add remove = all_absent current add && all_present current remove

  -- The `for` loop of `fn apply`.
  unfoldable pub push_new : (remove current add : List A) → List A
  push_new remove current [] = current
  push_new remove current (a ∷ add) =
      push_new remove
        (if not (contains remove a) && not (contains current a)
          then current ++ (a ∷ [])
          else current)
        add

  -- `fn apply` of `apply_lenient`.
  unfoldable pub apply_set : (current add remove : List A) → List A
  apply_set current add remove =
      push_new remove (retain (λ a. not (contains remove a) || contains add a) current) add

  -- The `filter` of `fn difference`.
  unfoldable pub without : List A → List A → List A
  without a b = retain (λ v. not (contains b v)) a

-- `fn difference` of `between`.
unfoldable pub difference : DestinationAddrs → DestinationAddrs → DestinationAddrs
difference a b = record {
  v4 = without a.v4 b.v4;
  v6 = without a.v6 b.v6;
  v4_subnets = without a.v4_subnets b.v4_subnets;
  v6_subnets = without a.v6_subnets b.v6_subnets;
}

unfoldable pub between : DestinationAddrs → DestinationAddrs → AddressChanges
between old new = record { added = difference new old; removed = difference old new }

module _ ⦃ip : Ipnet⦄ where
  -- `DestinationAddrs::canonical`.
  unfoldable pub canonical_addrs : DestinationAddrs → DestinationAddrs
  canonical_addrs a = record a {
    v4_subnets = map (trunc ip.v4) a.v4_subnets;
    v6_subnets = map (trunc ip.v6) a.v6_subnets;
  }

  -- `AddressChanges::canonical`.
  unfoldable pub canonical : AddressChanges → AddressChanges
  canonical c = record { added = canonical_addrs c.added; removed = canonical_addrs c.removed }

  unfoldable pub validate : AddressChanges → Result StatusCode (Unit {0})
  validate c =
      let d = canonical c in
      if unambiguous d.added.v4 d.removed.v4
        && unambiguous d.added.v6 d.removed.v6
        && unambiguous d.added.v4_subnets d.removed.v4_subnets
        && unambiguous d.added.v6_subnets d.removed.v6_subnets
      then ok tt
      else err invalid_data

  unfoldable pub apply_lenient : AddressChanges → DestinationAddrs → DestinationAddrs
  apply_lenient c current =
      let d = canonical c in
      record {
        v4 = apply_set current.v4 d.added.v4 d.removed.v4;
        v6 = apply_set current.v6 d.added.v6 d.removed.v6;
        v4_subnets = apply_set current.v4_subnets d.added.v4_subnets d.removed.v4_subnets;
        v6_subnets = apply_set current.v6_subnets d.added.v6_subnets d.removed.v6_subnets;
      }

  -- The check of `apply_strict` behind `validate`.
  unfoldable pub all_consistent : AddressChanges → DestinationAddrs → Bool
  all_consistent d current =
      consistent current.v4 d.added.v4 d.removed.v4
      && consistent current.v6 d.added.v6 d.removed.v6
      && consistent current.v4_subnets d.added.v4_subnets d.removed.v4_subnets
      && consistent current.v6_subnets d.added.v6_subnets d.removed.v6_subnets

  unfoldable pub apply_strict :
      AddressChanges → DestinationAddrs → Result StatusCode (Unit {0}) × DestinationAddrs
  apply_strict c current = elim (validate c) [
    | err e ↦ (err e, current)
    | panic ↦ (panic, current)
    | ok u ↦
        if not (all_consistent (canonical c) current)
        then (err invalid_data, current)
        else (ok tt, apply_lenient (canonical c) current)
  ]

  -- `let set = if *add { &mut changes.added } else { &mut changes.removed }` and a push to it.
  abbrev pub push_to :
      Bool → (DestinationAddrs → DestinationAddrs) → AddressChanges → AddressChanges
  push_to true f c = record c { added = f c.added }
  push_to false f c = record c { removed = f c.removed }

  -- The `match` of `from_message`.
  unfoldable pub note_item : AddressChanges → DataItem → AddressChanges
  note_item c (DataItem.ipv4_address add addr) =
      push_to add (λ s. record s { v4 = s.v4 ++ (addr ∷ []) }) c
  note_item c (DataItem.ipv6_address add addr) =
      push_to add (λ s. record s { v6 = s.v6 ++ (addr ∷ []) }) c
  note_item c (DataItem.ipv4_attached_subnet add subnet) =
      push_to add (λ s. record s { v4_subnets = s.v4_subnets ++ (trunc ip.v4 subnet ∷ []) }) c
  note_item c (DataItem.ipv6_attached_subnet add subnet) =
      push_to add (λ s. record s { v6_subnets = s.v6_subnets ++ (trunc ip.v6 subnet ∷ []) }) c
  note_item c _ = c

  unfoldable pub note_items : AddressChanges → List DataItem → AddressChanges
  note_items c [] = c
  note_items c (item ∷ items) = note_items (note_item c item) items

  unfoldable pub from_message : Message → AddressChanges
  from_message m = note_items no_changes m.data_items

  -- The items that one round of the outer loop of `append_to` pushes.
  unfoldable pub address_items : Bool → DestinationAddrs → List DataItem
  address_items add a =
      map (DataItem.ipv4_address add) a.v4
      ++ (map (DataItem.ipv6_address add) a.v6
          ++ (map (λ s. DataItem.ipv4_attached_subnet add (trunc ip.v4 s)) a.v4_subnets
              ++ map (λ s. DataItem.ipv6_attached_subnet add (trunc ip.v6 s)) a.v6_subnets))

  unfoldable pub append_to : AddressChanges → Message → Message
  append_to c m = record m {
    data_items = m.data_items ++ (address_items false c.removed ++ address_items true c.added);
  }
