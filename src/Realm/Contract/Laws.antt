-- ===== src/Realm/Contract/Laws.antt =====
-- realm/graph.go: what an accepted SHARED_REALM object is, and whom it lets in.
use dataverse_hub.Base.{
  ◌≡◌, ◌≢◌, ◌↔◌, inl, inr, Bool, true, false, ◌||◌, not, some, List, [], ◌∷◌, ◌++◌, Bytes, ◌==◌,
  eq_iff, eq_refl, contains, length, eqb, arith, option_else, option_else-inv, if-inv, Option-cases,
  ok,
}
use dataverse_hub.External.{Library}
use dataverse_hub.Object.Types.{Item, ref_of}
use dataverse_hub.Realm.Access.{dataverse001}
use dataverse_hub.Realm.RealmId.{split_realm_owner, realm_id, realm_ref}
use dataverse_hub.Realm.RealmId.Address.{
  IsOwned, split_realm_owner-IsOwned, split_realm_owner_complete,
}
use dataverse_hub.Realm.Contract.{
  type_shared_realm, relation_member, relation_entries, entry_member, extract_from,
  extract_member_pubkeys, parse_item,
}

module _ (lib : Library) where
  -- Some entry grants access to the key.
  abbrev pub some_entry : Bytes → List Bytes → Bool
  some_entry pk [] = false
  some_entry pk (raw ∷ entries) =
      (option_else (entry_member lib raw) false λ k. k == pk) || some_entry pk entries

  contains-append_one :
      (xs : List Bytes) (x y : Bytes) → contains (xs ++ x ∷ []) y ≡ (contains xs y || x == y)
  unfolding contains
  contains-append_one [] x y = ground arith
  contains-append_one (z ∷ xs) x y = ground (arith, contains-append_one xs x y)

  contains-extract_from :
      (pk : Bytes) (members entries : List Bytes)
      → contains (extract_from lib members entries) pk
        ≡ (contains members pk || some_entry pk entries)
  unfolding extract_from
  contains-extract_from pk members [] = ground arith
  contains-extract_from pk members (raw ∷ entries) = elim (Option-cases (entry_member lib raw)) [
    | inl e ↦ ground (arith, contains-extract_from pk members entries)
    | inr (k, e) ↦ ground (
      arith,
      eq_iff k pk,
      contains-append_one members k pk,
      contains-extract_from pk members entries,
      contains-extract_from pk (members ++ k ∷ []) entries,
    )
  ]

  -- The members of a realm are exactly the keys that some well-formed entry names; a malformed
  -- entry grants nothing and spoils nothing.
  pub contains-extract_member_pubkeys :
      (pk : Bytes) (entries : List Bytes)
      → contains (extract_member_pubkeys lib entries) pk ≡ some_entry pk entries
  unfolding extract_member_pubkeys contains
  contains-extract_member_pubkeys pk entries = contains-extract_from pk [] entries

  -- What the code asks of an object: the realm is named after the signer, the object stands at the
  -- realm's one address, and it spreads to every hub. The members are the keys that its well-formed
  -- member entries name; a malformed entry does not make the object unacceptable, it lets nobody in.
  pub record IsRealmObject (item : Item) (realm : Bytes) (members : List Bytes) : Type 0 where
    pub typed : item.kind ≡ type_shared_realm
    pub has_content : item.content ≢ []
    pub named : lib.realm_content item.content ≡ some realm
    pub owned : IsOwned lib realm item.pubkey
    pub addressed : item.id ≡ realm_id lib realm
    pub global : contains item.realms dataverse001 ≡ true
    pub listed : members ≡ extract_member_pubkeys lib (relation_entries item relation_member)
    pub lets_in :
        (pk : Bytes) → contains members pk ≡ some_entry pk (relation_entries item relation_member)

  nonempty {ℓ} : {A : Type ℓ} (xs : List A) → eqb (length xs) 0 ≡ false → xs ≢ []
  nonempty [] h e = cc
  nonempty (x ∷ xs) h e = cc

  owner_nonempty : (realm owner : Bytes) → IsOwned lib realm owner → realm ≢ []
  owner_nonempty realm [] o e = ground (arith, o.form)
  owner_nonempty realm (c ∷ owner) o e = ground (arith, o.form)

  parse_item_sound :
      (item : Item) (realm : Bytes) (members : List Bytes)
      → parse_item lib item ≡ ok (realm, members)
      → IsRealmObject item realm members
  unfolding parse_item
  parse_item_sound item realm members h =
      let (typed, h1) = if-inv (not (item.kind == type_shared_realm)) _ _ h (cc) in
      let (content, h2) = if-inv (eqb (length item.content) 0) _ _ h1 (cc) in
      let (r, named, h3) = option_else-inv (lib.realm_content item.content) _ _ h2 (cc) in
      let (_, h4) = if-inv (r == []) _ _ h3 (cc) in
      let (prefixed, h5) = if-inv (not (split_realm_owner lib r).1) _ _ h4 (cc) in
      let (signer, h6) = if-inv (not (item.pubkey == (split_realm_owner lib r).0)) _ _ h5 (cc) in
      let (address, h7) = if-inv (not (item.id == realm_id lib r)) _ _ h6 (cc) in
      let (global, h8) = if-inv (not (contains item.realms dataverse001)) _ _ h7 (cc) in
      let same : r ≡ realm = cc in
      let taken : extract_member_pubkeys lib (relation_entries item relation_member) ≡ members =
        cc in
      record {
        typed = ground (arith, eq_iff item.kind type_shared_realm);
        has_content = nonempty item.content content;
        named = ground arith;
        owned =
            split_realm_owner-IsOwned lib realm item.pubkey
              (rw (← same) (ground (arith, eq_iff item.pubkey (split_realm_owner lib r).0)));
        addressed = rw (← same) (ground (arith, eq_iff item.id (realm_id lib r)));
        global = ground arith;
        listed = cc;
        lets_in = λ pk.
            rw (← taken)
              (contains-extract_member_pubkeys pk (relation_entries item relation_member));
      }

  parse_item_complete :
      (item : Item) (realm : Bytes) (members : List Bytes)
      → IsRealmObject item realm members
      → parse_item lib item ≡ ok (realm, members)
  unfolding parse_item
  parse_item_complete item realm members o = ground (
    arith,
    o.typed,
    o.has_content,
    o.named,
    o.addressed,
    o.global,
    o.listed,
    split_realm_owner_complete lib realm item.pubkey (o.owned),
    owner_nonempty realm item.pubkey (o.owned),
    eq_iff item.kind type_shared_realm,
    eq_iff realm [],
    eq_refl item.pubkey,
    eq_refl item.id,
  )

  -- `ParseSharedRealm` accepts exactly the SHARED_REALM objects whose realm is named after the signer,
  -- which stand at the address of the realm and are in dataverse001, and its members are exactly the
  -- keys that some well-formed member entry names: a malformed one is skipped, not refused.
  pub parse_item_iff :
      (item : Item) (realm : Bytes) (members : List Bytes)
      → (parse_item lib item ≡ ok (realm, members)) ↔ IsRealmObject item realm members
  parse_item_iff item realm members =
      (parse_item_sound item realm members, parse_item_complete item realm members)

  -- An accepted object stands at the address that any hub computes from the realm's name.
  pub parse_item-realm_ref :
      (item : Item) (realm : Bytes) (members : List Bytes)
      → parse_item lib item ≡ ok (realm, members)
      → realm_ref lib realm ≡ some (ref_of item)
  unfolding realm_ref ref_of
  parse_item-realm_ref item realm members h =
      let o = parse_item_sound item realm members h in
      ground (arith, split_realm_owner_complete lib realm item.pubkey (o.owned), o.addressed)
