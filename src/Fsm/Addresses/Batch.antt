-- ===== src/Fsm/Addresses/Batch.antt =====
-- Address changes as the data items of a message: `append_to` and `from_message`.
use dlep.Base.{
  Octets, Bool, true, false, List, [], ◌∷◌, ◌++◌, map, ◌≡◌, refl, sym, ◌∙◌, ap, append-nil,
  append_assoc,
}
use dlep.Core.Ipnet.{Ipnet, IpNet, NetOps, IpnetLaws, trunc}
use dlep.Core.Item.{DataItem, Message}
use dlep.Fsm.Addresses.{
  DestinationAddrs, no_addrs, AddressChanges, no_changes, canonical_addrs, canonical, note_item,
  note_items, from_message, address_items, append_to, push_to,
}

map-id : {A : Type 0} (xs : List A) → map (λ x. x) xs ≡ xs
map-id [] = refl
map-id (x ∷ xs) = ap (◌∷◌ x) (map-id xs)

module _ ⦃ip : Ipnet⦄ where
  note_items-append :
      (c : AddressChanges) (xs ys : List DataItem)
      → note_items c (xs ++ ys) ≡ note_items (note_items c xs) ys
  unfolding note_items
  note_items-append c [] ys = refl
  note_items-append c (x ∷ xs) ys = note_items-append (note_item c x) xs ys

  -- Items of one family, read into a set that has `s` in that family.
  note_items-family :
      {A : Type 0} (item : A → DataItem) (f : A → A) (set : List A → AddressChanges) (s xs : List A)
      → ((l : List A) (a : A) → note_item (set l) (item a) ≡ set (l ++ (f a ∷ [])))
      → note_items (set s) (map item xs) ≡ set (s ++ map f xs)
  unfolding note_items
  note_items-family item f set s [] h = ap set (sym (append-nil s))
  note_items-family item f set s (x ∷ xs) h =
      ap (λ c. note_items c (map item xs)) (h s x)
      ∙ note_items-family item f set (s ++ (f x ∷ [])) xs h
      ∙ ap set (append_assoc s (f x ∷ []) (map f xs))

  -- Items of one family in front of others.
  family :
      {A : Type 0} (item : A → DataItem) (f : A → A) (set : List A → AddressChanges)
      (xs ys : List A) (rest : List DataItem)
      → ((l : List A) (a : A) → note_item (set l) (item a) ≡ set (l ++ (f a ∷ [])))
      → map f xs ≡ ys
      → note_items (set []) (map item xs ++ rest) ≡ note_items (set ys) rest
  family item f set xs ys rest h e =
      note_items-append (set []) (map item xs) rest
      ∙ ap (λ c. note_items c rest) (note_items-family item f set [] xs h ∙ ap set e)

  subnet_step :
      (ops : NetOps) (set : List IpNet → AddressChanges)
      → ((n : IpNet) → ops.network (trunc ops n) ≡ ops.network n)
      → (l : List IpNet) (n : IpNet)
      → set (l ++ (trunc ops (trunc ops n) ∷ [])) ≡ set (l ++ (trunc ops n ∷ []))
  subnet_step ops set h l n i = set (l ++ (record { addr = h n i; prefix_len = n.prefix_len } ∷ []))

  -- `set` is the changes whose added (or else removed) set is its argument.
  note_items-address_items :
      IpnetLaws ip
      → (add : Bool) (set : DestinationAddrs → AddressChanges)
      → ((f : DestinationAddrs → DestinationAddrs) (s : DestinationAddrs)
          → push_to add f (set s) ≡ set (f s))
      → (a : DestinationAddrs)
      → note_items (set no_addrs) (address_items add a) ≡ set (canonical_addrs a)
  unfolding address_items canonical_addrs note_item
  note_items-address_items laws add set push a =
      let set₄ = λ (l : List Octets). set (record no_addrs { v4 = l }) in
      let set₆ = λ (l : List Octets). set (record no_addrs { v4 = a.v4; v6 = l }) in
      let nets₄ =
        λ (l : List IpNet). set (record no_addrs { v4 = a.v4; v6 = a.v6; v4_subnets = l }) in
      let nets₆ = λ (l : List IpNet). set (record (canonical_addrs a) { v6_subnets = l }) in
      family (DataItem.ipv4_address add) (λ x. x) set₄ a.v4 a.v4 _ (λ l x. push _ _) (map-id a.v4)
      ∙ (family (DataItem.ipv6_address add) (λ x. x) set₆ a.v6 a.v6 _ (λ l x. push _ _)
            (map-id a.v6)
          ∙ (family (λ s. DataItem.ipv4_attached_subnet add (trunc ip.v4 s)) (trunc ip.v4) nets₄
                a.v4_subnets _ _
                (λ l n. push _ _ ∙ subnet_step ip.v4 nets₄ laws.v4.network_trunc l n) refl
              ∙ note_items-family (λ s. DataItem.ipv6_attached_subnet add (trunc ip.v6 s))
                  (trunc ip.v6) nets₆ [] a.v6_subnets
                  (λ l n. push _ _ ∙ subnet_step ip.v6 nets₆ laws.v6.network_trunc l n)))

  -- Under the documented laws of ipnet, address changes that a message without other address items
  -- carries are read back, with their subnets in network form and in their order.
  pub from_message-append_to :
      IpnetLaws ip
      → (c : AddressChanges) (m : Message) → from_message m ≡ no_changes
      → from_message (append_to c m) ≡ canonical c
  unfolding from_message append_to canonical
  from_message-append_to laws c m none =
      note_items-append no_changes m.data_items _
      ∙ ap (λ d. note_items d (address_items false c.removed ++ address_items true c.added)) none
      ∙ note_items-append no_changes (address_items false c.removed) _
      ∙ ap (λ d. note_items d (address_items true c.added))
          (note_items-address_items laws false (λ s. record no_changes { removed = s })
            (λ f s. refl) c.removed)
      ∙ note_items-address_items laws true
          (λ s. record { added = s; removed = canonical_addrs c.removed }) (λ f s. refl) c.added
