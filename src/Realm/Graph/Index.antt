-- ===== src/Realm/Graph/Index.antt =====
-- realm/graph.go: the index from keys to realms agrees with the realms' entries.
use dataverse_hub.Base.{
  ◌≡◌, refl, ◌≢◌, ◌⊎◌, inl, inr, Bool, true, false, ◌||◌, ◌&&◌, not, some, List, [], ◌∷◌, Bytes,
  ◌==◌, eq_iff, eq_refl, contains, length, eqb, arith, option_else, is_some, Bool-cases,
  Option-cases, Result-cases, ok,
}
use dataverse_hub.Base.Dict.{
  Dict, lookup, insert, erase, IsMap, lookup-erase, lookup-insert, insert-IsMap, erase-IsMap,
  lookup-eq_none,
}
use dataverse_hub.External.{Library}
use dataverse_hub.Object.Types.{Item}
use dataverse_hub.Realm.Contract.{parse_item}
use dataverse_hub.Realm.Graph.{
  RealmEntry, RealmSet, GraphSharedRealms, new_graph, drop_member, drop_members, add_member,
  add_members, keeps_existing, entry_of, put_entry, add, find_ref, remove, add_all, load,
}

-- The index lists the realm under the key.
abbrev pub is_listed : Dict RealmSet → Bytes → Bytes → Bool
is_listed by_pk pk realm = option_else (lookup pk by_pk) false λ set. is_some (lookup realm set)

-- The entry of the realm has the key among its members.
abbrev pub has_member : Dict RealmEntry → Bytes → Bytes → Bool
has_member realms realm pk = option_else (lookup realm realms) false λ e. contains e.members pk

-- No set of the index is empty.
abbrev pub NoEmptySet : Dict RealmSet → Type 0
NoEmptySet by_pk = (pk : Bytes) → lookup pk by_pk ≢ some []

pub record IsIndexed (g : GraphSharedRealms) : Type 0 where
  pub is_map : IsMap g.realms
  pub agrees : (pk realm : Bytes) → is_listed g.by_pk pk realm ≡ has_member g.realms realm pk
  pub no_empty : NoEmptySet g.by_pk

set_cases :
    (rest : RealmSet)
    → (eqb (length rest) 0 ≡ true) × (rest ≡ []) ⊎ (eqb (length rest) 0 ≡ false) × (rest ≢ [])
set_cases [] = inl (refl, refl)
set_cases (x ∷ rest) = inr (ground arith, λ e. cc)

drop_member-is_listed :
    (realm m : Bytes) (by_pk : Dict RealmSet) (pk r : Bytes)
    → is_listed (drop_member realm by_pk m) pk r
      ≡ (is_listed by_pk pk r && not (m == pk && realm == r))
unfolding drop_member
drop_member-is_listed realm m by_pk pk r = elim (Option-cases (lookup m by_pk)) [
  | inl e ↦ ground (arith, eq_iff m pk, lookup-erase m pk by_pk)
  | inr (set, e) ↦ elim (set_cases (erase realm set)) [
    | inl (z, rest) ↦ ground (
      arith,
      eq_iff m pk,
      lookup-erase m pk by_pk,
      lookup-erase realm r set,
      lookup-eq_none r (erase realm set) rest,
    )
    | inr (z, rest) ↦
        ground
          (arith, eq_iff m pk, lookup-insert m pk (erase realm set) by_pk, lookup-erase realm r set)
  ]
]

drop_member-NoEmptySet :
    (realm m : Bytes) (by_pk : Dict RealmSet)
    → NoEmptySet by_pk
    → NoEmptySet (drop_member realm by_pk m)
unfolding drop_member
drop_member-NoEmptySet realm m by_pk h pk f = elim (Option-cases (lookup m by_pk)) [
  | inl e ↦ ground (arith, h pk, lookup-erase m pk by_pk)
  | inr (set, e) ↦ elim (set_cases (erase realm set)) [
    | inl (z, rest) ↦ ground (arith, h pk, lookup-erase m pk by_pk)
    | inr (z, rest) ↦ ground (arith, h pk, rest, lookup-insert m pk (erase realm set) by_pk)
  ]
]

drop_members-is_listed :
    (realm : Bytes) (ms : List Bytes) (by_pk : Dict RealmSet) (pk r : Bytes)
    → is_listed (drop_members realm ms by_pk) pk r
      ≡ (is_listed by_pk pk r && not (contains ms pk && realm == r))
unfolding drop_members contains
drop_members-is_listed realm [] by_pk pk r = ground arith
drop_members-is_listed realm (m ∷ ms) by_pk pk r = ground (
  arith,
  drop_members-is_listed realm ms (drop_member realm by_pk m) pk r,
  drop_member-is_listed realm m by_pk pk r,
)

drop_members-NoEmptySet :
    (realm : Bytes) (ms : List Bytes) (by_pk : Dict RealmSet)
    → NoEmptySet by_pk
    → NoEmptySet (drop_members realm ms by_pk)
unfolding drop_members
drop_members-NoEmptySet realm [] by_pk h = h
drop_members-NoEmptySet realm (m ∷ ms) by_pk h =
    drop_members-NoEmptySet realm ms (drop_member realm by_pk m)
      (drop_member-NoEmptySet realm m by_pk h)

add_member-is_listed :
    (realm m : Bytes) (by_pk : Dict RealmSet) (pk r : Bytes)
    → is_listed (add_member realm by_pk m) pk r ≡ (is_listed by_pk pk r || (m == pk && realm == r))
unfolding add_member lookup
add_member-is_listed realm m by_pk pk r = elim (Option-cases (lookup m by_pk)) [
  | inl e ↦
      let fresh : RealmSet = [] in
      ground (
        arith,
        eq_iff m pk,
        lookup-insert m pk (insert realm tt fresh) by_pk,
        lookup-insert realm r tt fresh,
      )
  | inr (set, e) ↦ ground (
    arith,
    eq_iff m pk,
    lookup-insert m pk (insert realm tt set) by_pk,
    lookup-insert realm r tt set,
  )
]

insert-ne-nil : (realm : Bytes) (set : RealmSet) → insert realm tt set ≢ []
unfolding insert
insert-ne-nil realm set e = cc

add_member-NoEmptySet :
    (realm m : Bytes) (by_pk : Dict RealmSet)
    → NoEmptySet by_pk
    → NoEmptySet (add_member realm by_pk m)
unfolding add_member
add_member-NoEmptySet realm m by_pk h pk f =
    let set = option_else (lookup m by_pk) [] λ s. s in
    ground (arith, h pk, insert-ne-nil realm set, lookup-insert m pk (insert realm tt set) by_pk)

add_members-is_listed :
    (realm : Bytes) (ms : List Bytes) (by_pk : Dict RealmSet) (pk r : Bytes)
    → is_listed (add_members realm ms by_pk) pk r
      ≡ (is_listed by_pk pk r || (contains ms pk && realm == r))
unfolding add_members contains
add_members-is_listed realm [] by_pk pk r = ground arith
add_members-is_listed realm (m ∷ ms) by_pk pk r = ground (
  arith,
  add_members-is_listed realm ms (add_member realm by_pk m) pk r,
  add_member-is_listed realm m by_pk pk r,
)

add_members-NoEmptySet :
    (realm : Bytes) (ms : List Bytes) (by_pk : Dict RealmSet)
    → NoEmptySet by_pk
    → NoEmptySet (add_members realm ms by_pk)
unfolding add_members
add_members-NoEmptySet realm [] by_pk h = h
add_members-NoEmptySet realm (m ∷ ms) by_pk h =
    add_members-NoEmptySet realm ms (add_member realm by_pk m)
      (add_member-NoEmptySet realm m by_pk h)

-- The members that the index lists for the realm before the write.
put_entry-IsIndexed :
    (realm : Bytes) (old : List Bytes) (entry : RealmEntry) (g : GraphSharedRealms)
    → IsIndexed g
    → ((pk : Bytes) → has_member g.realms realm pk ≡ contains old pk)
    → IsIndexed (put_entry realm old entry g)
unfolding put_entry
put_entry-IsIndexed realm old entry g i h = record {
  is_map = insert-IsMap realm entry g.realms (i.is_map);
  agrees = λ pk r. ground (
    arith,
    i.agrees pk r,
    h pk,
    eq_iff realm r,
    lookup-insert realm r entry g.realms,
    add_members-is_listed realm entry.members (drop_members realm old g.by_pk) pk r,
    drop_members-is_listed realm old g.by_pk pk r,
  );
  no_empty =
      add_members-NoEmptySet realm entry.members _
        (drop_members-NoEmptySet realm old g.by_pk (i.no_empty));
}

-- What `Add` may do: nothing, or a write of the item's entry over the old members.
pub add_cases :
    (lib : Library) (item : Item) (g : GraphSharedRealms) (P : GraphSharedRealms → Type 0)
    → P g
    → ((realm : Bytes) (old members : List Bytes)
        → parse_item lib item ≡ ok (realm, members)
        → ((pk : Bytes) → has_member g.realms realm pk ≡ contains old pk)
        → P (put_entry realm old (entry_of item members) g))
    → P (add lib item g)
unfolding add contains
add_cases lib item g P same write = elim (Result-cases (parse_item lib item)) [
  | inr (e, f) ↦ rw (f, add) same
  | inl ((realm, members), f) ↦ elim (Option-cases (lookup realm g.realms)) [
    | inl n ↦ rw (f, n, add) (write realm [] members f (λ pk. ground arith))
    | inr (existing, s) ↦ elim (Bool-cases (keeps_existing existing item)) [
      | inl k ↦ rw (f, s, k, add) same
      | inr k ↦ rw (f, s, k, add) (write realm existing.members members f (λ pk. ground arith))
    ]
  ]
]

-- `Add` keeps the members of the realms and the realms of the keys in step.
pub add-IsIndexed :
    (lib : Library) (item : Item) (g : GraphSharedRealms) → IsIndexed g → IsIndexed (add lib item g)
add-IsIndexed lib item g i =
    add_cases lib item g IsIndexed i
      λ realm old members parsed h. put_entry-IsIndexed realm old (entry_of item members) g i h

find_ref-lookup :
    (ref name : Bytes) (e : RealmEntry) (m : Dict RealmEntry)
    → IsMap m
    → find_ref ref m ≡ some (name, e)
    → (lookup name m ≡ some e) × (e.ref ≡ ref)
unfolding find_ref lookup
find_ref-lookup ref name e [] h f = cc
find_ref-lookup ref name e ((k, d) ∷ m) (fresh, h) f = elim (Bool-cases (d.ref == ref)) [
  | inl here ↦ ground (arith, eq_iff d.ref ref, eq_refl name)
  | inr there ↦ ground (arith, eq_iff k name, find_ref-lookup ref name e m h)
]

-- `Remove` keeps the members of the realms and the realms of the keys in step.
pub remove-IsIndexed :
    (ref : Bytes) (g : GraphSharedRealms) → IsIndexed g → IsIndexed (remove ref g)
unfolding remove
remove-IsIndexed ref g i = elim (Option-cases (find_ref ref g.realms)) [
  | inl n ↦ rw n i
  | inr ((name, e), f) ↦ rw f (record {
    is_map = erase-IsMap name g.realms (i.is_map);
    agrees = λ pk r. ground (
      arith,
      i.agrees pk r,
      eq_iff name r,
      lookup-erase name r g.realms,
      find_ref-lookup ref name e g.realms (i.is_map) f,
      drop_members-is_listed name e.members g.by_pk pk r,
    );
    no_empty = drop_members-NoEmptySet name e.members g.by_pk (i.no_empty);
  })
]

new_graph-IsIndexed : IsIndexed new_graph
unfolding lookup
new_graph-IsIndexed = record { is_map = tt; agrees = λ pk r. refl; no_empty = λ pk e. cc }

add_all-IsIndexed :
    (lib : Library) (items : List Item) (g : GraphSharedRealms)
    → IsIndexed g
    → IsIndexed (add_all lib items g)
unfolding add_all
add_all-IsIndexed lib [] g i = i
add_all-IsIndexed lib (item ∷ items) g i =
    add_all-IsIndexed lib items (add lib item g) (add-IsIndexed lib item g i)

-- `Load` leaves the members of the realms and the realms of the keys in step, whatever was there.
pub load-IsIndexed :
    (lib : Library) (items : List Item) (g : GraphSharedRealms) → IsIndexed (load lib items g)
unfolding load
load-IsIndexed lib items g = add_all-IsIndexed lib items new_graph new_graph-IsIndexed
