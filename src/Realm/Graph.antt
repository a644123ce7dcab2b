-- ===== src/Realm/Graph.antt =====
-- realm/graph.go: `GraphSharedRealms`. Its methods run under the object's lock, so each is one step.
pub mod Index
pub mod Queries
pub mod Newest
use dataverse_hub.Base.{
  ℕ, Bool, true, false, ◌&&◌, ◌||◌, not, Option, none, some, List, [], ◌∷◌, Bytes, ◌==◌, contains,
  length, eqb, str_lt, ℤ, int_lt, int_eq, if◌then◌else◌, option_else, is_some, Result, ok, err,
}
use dataverse_hub.Base.Dict.{Dict, lookup, insert, erase, keys}
use dataverse_hub.External.{Library}
use dataverse_hub.Object.Types.{Item, ref_of}
use dataverse_hub.Realm.Contract.{parse_item}
use dataverse_hub.Realm.Resolver.{RealmResolver}

-- `realmEntry`
pub record RealmEntry : Type 0 where
  pub owner : Bytes
  pub members : List Bytes
  pub revision : ℤ
  pub ref : Bytes

-- a map[string]struct{}
abbrev pub RealmSet : Type 0
RealmSet = Dict (Unit {0})

pub record GraphSharedRealms : Type 0 where
  pub realms : Dict RealmEntry
  pub by_pk : Dict RealmSet

abbrev pub new_graph : GraphSharedRealms
new_graph = record { realms = []; by_pk = [] }

-- `delete(g.byPK[m], realm); if len(g.byPK[m]) == 0 { delete(g.byPK, m) }`
unfoldable pub drop_member : Bytes → Dict RealmSet → Bytes → Dict RealmSet
drop_member realm by_pk m = option_else (lookup m by_pk) (erase m by_pk) λ set.
    let rest = erase realm set in if eqb (length rest) 0 then erase m by_pk else insert m rest by_pk

unfoldable pub drop_members : Bytes → List Bytes → Dict RealmSet → Dict RealmSet
drop_members realm [] by_pk = by_pk
drop_members realm (m ∷ ms) by_pk = drop_members realm ms (drop_member realm by_pk m)

-- `set, ok := g.byPK[m]; if !ok { set = make(…) }; set[realm] = struct{}{}`
unfoldable pub add_member : Bytes → Dict RealmSet → Bytes → Dict RealmSet
add_member realm by_pk m =
    let set = option_else (lookup m by_pk) [] λ s. s in insert m (insert realm tt set) by_pk

unfoldable pub add_members : Bytes → List Bytes → Dict RealmSet → Dict RealmSet
add_members realm [] by_pk = by_pk
add_members realm (m ∷ ms) by_pk = add_members realm ms (add_member realm by_pk m)

-- `existing.revision > item.Revision`, or a tie that keeps the existing entry
unfoldable pub keeps_existing : RealmEntry → Item → Bool
keeps_existing existing item =
    int_lt item.revision existing.revision
    || (int_eq existing.revision item.revision && not (str_lt existing.ref (ref_of item)))

abbrev pub entry_of : Item → List Bytes → RealmEntry
entry_of item members = record {
  owner = item.pubkey;
  members = members;
  revision = item.revision;
  ref = ref_of item;
}

-- the writes of `Add`, with the old index entries of the realm removed
unfoldable pub put_entry : Bytes → List Bytes → RealmEntry → GraphSharedRealms → GraphSharedRealms
put_entry realm old entry g = record {
  realms = insert realm entry g.realms;
  by_pk = add_members realm entry.members (drop_members realm old g.by_pk);
}

-- `Add`
unfoldable pub add : Library → Item → GraphSharedRealms → GraphSharedRealms
unfolding keeps_existing put_entry
add lib item g = elim (parse_item lib item) [
  | err e ↦ g
  | ok (realm, members) ↦ elim (lookup realm g.realms) [
    | none ↦ put_entry realm [] (entry_of item members) g
    | some existing ↦
        if keeps_existing existing item
        then g
        else put_entry realm existing.members (entry_of item members) g
  ]
]

-- the first entry of the loop of `Remove` that has the ref
unfoldable pub find_ref : Bytes → Dict RealmEntry → Option (Bytes × RealmEntry)
find_ref ref [] = none
find_ref ref ((name, e) ∷ m) = if e.ref == ref then some (name, e) else find_ref ref m

-- `Remove`
unfoldable pub remove : Bytes → GraphSharedRealms → GraphSharedRealms
unfolding find_ref
remove ref g =
    option_else (find_ref ref g.realms) g
      λ p. record { realms = erase p.0 g.realms; by_pk = drop_members p.0 (p.1).members g.by_pk }

unfoldable pub add_all : Library → List Item → GraphSharedRealms → GraphSharedRealms
add_all lib [] g = g
add_all lib (item ∷ items) g = add_all lib items (add lib item g)

-- `Load`, as if no other call came between the reset and each `Add`, where the code holds no lock
unfoldable pub load : Library → List Item → GraphSharedRealms → GraphSharedRealms
unfolding add_all
load lib items g = add_all lib items new_graph

-- The queries. A nil receiver is `none`.
unfoldable pub count : Option GraphSharedRealms → ℕ
count none = 0
count (some g) = length g.realms

unfoldable pub is_shared_realm : Option GraphSharedRealms → Bytes → Bool
is_shared_realm none name = false
is_shared_realm (some g) name = is_some (lookup name g.realms)

unfoldable pub is_member : Option GraphSharedRealms → Bytes → Bytes → Bool
is_member none realm pubkey = false
is_member (some g) realm pubkey =
    if pubkey == []
    then false
    else option_else (lookup realm g.realms) false λ e. contains e.members pubkey

unfoldable pub realms_for_pubkey : Option GraphSharedRealms → Bytes → List Bytes
realms_for_pubkey none pubkey = []
realms_for_pubkey (some g) pubkey =
    if pubkey == [] then [] else option_else (lookup pubkey g.by_pk) [] λ set. keys set

-- `Members` and `realmsKeys`, which have no nil check
unfoldable pub members : GraphSharedRealms → Bytes → List Bytes
members g realm = option_else (lookup realm g.realms) [] λ e. e.members

unfoldable pub realms_keys : GraphSharedRealms → List Bytes
realms_keys g = keys g.realms

-- `*GraphSharedRealms` as a `RealmResolver`
abbrev pub graph_resolver : Option GraphSharedRealms → RealmResolver
graph_resolver g = record {
  is_shared_realm = is_shared_realm g;
  is_member = is_member g;
  realms_for_pubkey = realms_for_pubkey g;
  count = count g;
}
