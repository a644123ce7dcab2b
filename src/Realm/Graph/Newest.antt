-- ===== src/Realm/Graph/Newest.antt =====
-- realm/graph.go: of the objects that name a realm, the one with the highest revision rules.
use mathlib.Core.List.{Memᴰ}
use dataverse_hub.Base.{
  ◌≡◌, refl, ap, sym, ◌∙◌, ◌⊎◌, inl, inr, true, false, some, List, [], ◌∷◌, Bytes, ◌==◌, eq_iff,
  eq_refl, arith, is_some, Bool-cases, Option-cases, Result-cases, ok, err, ◌≤ℤ◌,
}
use dataverse_hub.Base.Dict.{lookup, lookup-insert}
use dataverse_hub.External.{Library}
use dataverse_hub.Object.Types.{Item}
use dataverse_hub.Realm.RealmId.{realm_ref}
use dataverse_hub.Realm.Contract.{ContractError, parse_item}
use dataverse_hub.Realm.Graph.{
  RealmEntry, GraphSharedRealms, new_graph, keeps_existing, entry_of, put_entry, add, add_all, load,
}

module _ (lib : Library) where
  -- The entry of a realm holds the realm's address.
  abbrev pub IsAddressed : GraphSharedRealms → Type 0
  IsAddressed g =
      (realm : Bytes) (e : RealmEntry)
      → lookup realm g.realms ≡ some e
      → realm_ref lib realm ≡ some e.ref

  -- What `Add` leaves at the item's own realm.
  add-lookup :
      (item : Item) (g : GraphSharedRealms) (realm : Bytes) (members : List Bytes)
      → parse_item lib item ≡ ok (realm, members)
      → (e : RealmEntry) × (lookup realm (add lib item g).realms ≡ some e)
        × ((e ≡ entry_of item members) ⊎ (lookup realm g.realms ≡ some e))
        × (item.revision ≤ℤ e.revision)
        × ((d : RealmEntry) → lookup realm g.realms ≡ some d → d.revision ≤ℤ e.revision)
  unfolding add keeps_existing put_entry
  add-lookup item g realm members p = elim (Option-cases (lookup realm g.realms)) [
    | inl n ↦ (
      entry_of item members,
      ground (arith, eq_refl realm, lookup-insert realm realm (entry_of item members) g.realms),
      inl refl,
      omega arith,
      λ d f. ground arith,
    )
    | inr (existing, s) ↦ elim (Bool-cases (keeps_existing existing item)) [
      | inl k ↦ (existing, rw (p, s, k, add) s, inr s, ground arith, λ d f. ground arith)
      | inr k ↦ (
        entry_of item members,
        rw (p, s, k, add)
            (ground
              (arith, eq_refl realm, lookup-insert realm realm (entry_of item members) g.realms)),
        inl refl,
        omega arith,
        λ d f. ground arith,
      )
    ]
  ]

  -- `Add` leaves the other realms alone.
  add_other :
      (item : Item) (g : GraphSharedRealms) (r realm : Bytes) (members : List Bytes)
      → parse_item lib item ≡ ok (realm, members)
      → (realm == r) ≡ false
      → lookup r (add lib item g).realms ≡ lookup r g.realms
  unfolding add put_entry
  add_other item g r realm members p n = elim (Option-cases (lookup realm g.realms)) [
    | inl f ↦ rw (p, f, add) (lookup-insert realm r (entry_of item members) g.realms ∙ rw n)
    | inr (existing, s) ↦ elim (Bool-cases (keeps_existing existing item)) [
      | inl k ↦ rw (p, s, k, add)
      | inr k ↦ rw (p, s, k, add) (lookup-insert realm r (entry_of item members) g.realms ∙ rw n)
    ]
  ]

  add_malformed :
      (item : Item) (g : GraphSharedRealms) {e : ContractError}
      → parse_item lib item ≡ err e
      → add lib item g ≡ g
  unfolding add
  add_malformed item g p = rw (p, add)

  -- The entry of a realm after one `Add`: an old entry is kept or has given way to a newer one.
  add_keeps :
      (item : Item) (g : GraphSharedRealms) (realm : Bytes) (d : RealmEntry)
      → lookup realm g.realms ≡ some d
      → (e : RealmEntry) × (lookup realm (add lib item g).realms ≡ some e)
        × (d.revision ≤ℤ e.revision)
  add_keeps item g realm d h = elim (Result-cases (parse_item lib item)) [
    | inr (e, p) ↦ (d, rw (add_malformed item g p) h, omega arith)
    | inl ((name, members), p) ↦ elim (Bool-cases (name == realm)) [
      | inr n ↦ (d, add_other item g realm name members p n ∙ h, omega arith)
      | inl same ↦
          let path = (eq_iff name realm).0 same in
          let (e, found, _, _, newer) = add-lookup item g name members p in
          (e, rw path at found, newer d (rw path h))
    ]
  ]

  add_source_own :
      (item : Item) (g : GraphSharedRealms) (realm : Bytes) (members : List Bytes) (e : RealmEntry)
      → parse_item lib item ≡ ok (realm, members)
      → lookup realm (add lib item g).realms ≡ some e
      → (lookup realm g.realms ≡ some e) ⊎ (e ≡ entry_of item members)
  add_source_own item g realm members e p h =
      let (e', found, origin, _, _) = add-lookup item g realm members p in
      let same : e ≡ e' = cc in
      elim origin [ inl new ↦ inr (same ∙ new) | inr old ↦ inl (old ∙ ap some (sym same)) ]

  -- An entry after one `Add` is an old one, or the item's.
  add_source :
      (item : Item) (g : GraphSharedRealms) (realm : Bytes) (e : RealmEntry)
      → lookup realm (add lib item g).realms ≡ some e
      → (lookup realm g.realms ≡ some e)
        ⊎ ((members : List Bytes) × (parse_item lib item ≡ ok (realm, members))
            × (e ≡ entry_of item members))
  add_source item g realm e h = elim (Result-cases (parse_item lib item)) [
    | inr (_, p) ↦ inl (rw (add_malformed item g p) at h)
    | inl ((name, members), p) ↦ elim (Bool-cases (name == realm)) [
      | inr n ↦ inl (sym (add_other item g realm name members p n) ∙ h)
      | inl same ↦
          let p' = rw ((eq_iff name realm).0 same) at p in
          elim (add_source_own item g realm members e p' h) [
            | inl old ↦ inl old
            | inr new ↦ inr (members, p', new)
          ]
    ]
  ]

  add_all_keeps :
      (items : List Item) (g : GraphSharedRealms) (realm : Bytes) (d : RealmEntry)
      → lookup realm g.realms ≡ some d
      → (e : RealmEntry) × (lookup realm (add_all lib items g).realms ≡ some e)
        × (d.revision ≤ℤ e.revision)
  unfolding add_all
  add_all_keeps [] g realm d h = (d, h, omega arith)
  add_all_keeps (item ∷ items) g realm d h =
      let (c, found, newer) = add_keeps item g realm d h in
      let (e, found', newer') = add_all_keeps items (add lib item g) realm c found in
      (e, found', omega arith)

  add_all_newest :
      (items : List Item) (g : GraphSharedRealms) (item : Item) (realm : Bytes)
      (members : List Bytes)
      → Memᴰ item items
      → parse_item lib item ≡ ok (realm, members)
      → (e : RealmEntry) × (lookup realm (add_all lib items g).realms ≡ some e)
        × (item.revision ≤ℤ e.revision)
  unfolding add_all
  add_all_newest [] g item realm members m p = elim m [ ]
  add_all_newest (x ∷ items) g item realm members (Memᴰ.tail m) p =
      add_all_newest items (add lib x g) item realm members m p
  add_all_newest (x ∷ items) g item realm members (Memᴰ.head same) p =
      let (c, found, _, newer, _) = add-lookup x g realm members (rw (← same) p) in
      let (e, found', newer') = add_all_keeps items (add lib x g) realm c found in
      (e, found', rw same (omega arith))

  add_all_source :
      (items : List Item) (g : GraphSharedRealms) (realm : Bytes) (e : RealmEntry)
      → lookup realm (add_all lib items g).realms ≡ some e
      → (lookup realm g.realms ≡ some e)
        ⊎ ((item : Item) × (members : List Bytes) × Memᴰ item items
            × (parse_item lib item ≡ ok (realm, members))
            × (e ≡ entry_of item members))
  unfolding add_all
  add_all_source [] g realm e h = inl h
  add_all_source (x ∷ items) g realm e h = elim (add_all_source items (add lib x g) realm e h) [
    | inr (item, members, m, p, same) ↦ inr (item, members, Memᴰ.tail m, p, same)
    | inl old ↦ elim (add_source x g realm e old) [
      | inl older ↦ inl older
      | inr (members, p, same) ↦ inr (x, members, Memᴰ.head refl, p, same)
    ]
  ]

  -- What rules a realm after a load: the entry of one of the objects that name it, whose revision
  -- is the highest of them all.
  pub record IsNewest (items : List Item) (realm : Bytes) (e : RealmEntry) : Type 0 where
    pub item : Item
    pub members : List Bytes
    pub given : Memᴰ item items
    pub parsed : parse_item lib item ≡ ok (realm, members)
    pub entry : e ≡ entry_of item members
    pub highest :
        (other : Item) (ms : List Bytes)
        → Memᴰ other items
        → parse_item lib other ≡ ok (realm, ms)
        → other.revision ≤ℤ e.revision

  IsNewest-of_some :
      (items : List Item) (realm : Bytes) (e : RealmEntry)
      → lookup realm (add_all lib items new_graph).realms ≡ some e
      → IsNewest items realm e
  unfolding lookup
  IsNewest-of_some items realm e h = elim (add_all_source items new_graph realm e h) [
    | inl old ↦ absurd (ground arith)
    | inr (item, members, m, p, same) ↦ record {
      item = item;
      members = members;
      given = m;
      parsed = p;
      entry = same;
      highest = λ other ms n q.
          let (e', found, newer) = add_all_newest items new_graph other realm ms n q in
          ground arith;
    }
  ]

  -- After `Load`, whatever the order of the objects: a realm is known exactly if some object of the
  -- list declares it by the contract, and then the entry is that of a declaration whose revision is
  -- the highest.
  pub load-IsNewest :
      (items : List Item) (g : GraphSharedRealms) (realm : Bytes)
      → ((e : RealmEntry)
          → lookup realm (load lib items g).realms ≡ some e
          → IsNewest items realm e)
        × ((item : Item) (members : List Bytes)
            → Memᴰ item items
            → parse_item lib item ≡ ok (realm, members)
            → is_some (lookup realm (load lib items g).realms) ≡ true)
  unfolding load
  load-IsNewest items g realm = (
    IsNewest-of_some items realm,
    λ item members m p.
        let (e, found, _) = add_all_newest items new_graph item realm members m p in rw found,
  )
