-- ===== src/Storage/Index.antt =====
-- storage/index.go: `Index`. Its methods run under the object's lock, so each is one step. The field
-- `resolver` points at the merged view of `graph` and `shared`, and is computed from them here.
pub mod Queries
pub mod Meta
pub mod Order
pub mod Indexed
pub mod Visible
pub mod Owners
pub mod ByPubkey
pub mod Relations
pub mod Sources
use dataverse_hub.Base.{
  ℕ, ◌+◌, Bool, true, false, ◌&&◌, not, Option, none, some, List, [], ◌∷◌, ◌++◌, Bytes, bytes, ◌==◌,
  eqb, ltb, length, if◌then◌else◌, option_else,
}
use dataverse_hub.Base.Dict.{Dict, lookup, insert, erase}
use dataverse_hub.External.{Library}
use dataverse_hub.Object.Types.{InField, Item, ObjectMeta, RelationEntry, resolve_in}
use dataverse_hub.Object.Verify.{parse_envelope, timestamp}
use dataverse_hub.Realm.Resolver.{RealmResolver}
use dataverse_hub.Realm.Access.{is_public_object}
use dataverse_hub.Realm.Contract.{type_shared_realm, relation_entries}
use dataverse_hub.Realm.Shared.{SharedRealms}
use dataverse_hub.Realm.Graph
use dataverse_hub.Realm.Graph.{GraphSharedRealms, new_graph}
use dataverse_hub.Realm.Merged.{new_merged, merged_resolver}

pub record Index : Type 0 where
  pub inbound : Dict (List RelationEntry)
  pub by_pubkey : Dict (List Bytes)
  pub meta : Dict ObjectMeta
  pub shared : Option SharedRealms
  pub graph : Option GraphSharedRealms

-- `NewIndex`
abbrev pub new_index : Option SharedRealms → Index
new_index shared = record {
  inbound = [];
  by_pubkey = [];
  meta = [];
  shared = shared;
  graph = some new_graph;
}

-- `SetGraphRealms`
abbrev pub set_graph_realms : Option GraphSharedRealms → Index → Index
set_graph_realms g idx = record idx { graph = g }

-- `Resolver`; `NewIndex`, `SetGraphRealms` and `Rebuild` all set it, so it is never nil
abbrev pub resolver : Index → RealmResolver
resolver idx = merged_resolver (new_merged idx.graph idx.shared)

-- `m[k]` of a map of slices, nil if the key is missing
abbrev pub slice_of {ℓ} : {A : Type ℓ} → Dict (List A) → Bytes → List A
slice_of m k = option_else (lookup k m) [] λ xs. xs

-- `m[k] = append(m[k], v)`
abbrev pub append_at {ℓ} : {A : Type ℓ} → Bytes → A → Dict (List A) → Dict (List A)
append_at k v m = insert k (slice_of m k ++ v ∷ []) m

abbrev blob : Bytes
blob = bytes "BLOB"

abbrev page : Bytes
page = bytes "page"

-- the realms of `addLocked`, whose last parameter is variadic
unfoldable pub resolved_realms : Item → List InField → InField
resolved_realms item [] = item.realms
resolved_realms item (realms ∷ _) = if ltb 0 (length realms) then realms else item.realms

module _ (lib : Library) where
  -- the MIME type that `addLocked` extracts
  unfoldable pub mime_type_of : Item → Bytes
  mime_type_of item =
      if (item.kind == blob) && not (eqb (length item.content) 0)
      then lib.mime_type item.content
      else []

  -- the first page relation that `addLocked` extracts
  unfoldable pub page_ref_of : Item → Bytes
  page_ref_of item = elim (relation_entries item page) [
    | [] ↦ []
    | ◌∷◌ raw rest ↦ option_else (lib.relation_ref raw) [] λ ref. ref
  ]

  -- the inner loop over the relations of one type
  unfoldable pub add_entries :
      Bytes → Bytes → List Bytes → Dict (List RelationEntry) → Dict (List RelationEntry)
  add_entries ref kind [] inbound = inbound
  add_entries ref kind (raw ∷ raws) inbound = add_entries ref kind raws (
      option_else (lib.relation_ref raw) inbound λ target.
        if target == []
        then inbound
        else append_at target (record { source_ref = ref; relation_type = kind }) inbound)

  -- the outer loop
  unfoldable pub add_relations :
      Bytes → Dict (List Bytes) → Dict (List RelationEntry) → Dict (List RelationEntry)
  add_relations ref [] inbound = inbound
  add_relations ref ((kind, raws) ∷ relations) inbound =
      add_relations ref relations (add_entries ref kind raws inbound)

  unfoldable pub meta_of : Bytes → Item → ℕ → InField → ObjectMeta
  meta_of ref item ts realms = record {
    ref = ref;
    pubkey = item.pubkey;
    kind = item.kind;
    revision = item.revision;
    has_page_relation = not (page_ref_of item == []);
    page_ref = page_ref_of item;
    mime_type = mime_type_of item;
    is_public = is_public_object realms;
    realms = realms;
    updated_at = ts;
  }

  -- `addLocked`
  unfoldable pub add_locked : Bytes → Item → ℕ → List InField → Index → Index
  unfolding meta_of resolved_realms
  add_locked ref item ts realms idx = record idx {
    meta = insert ref (meta_of ref item ts (resolved_realms item realms)) idx.meta;
    by_pubkey = append_at item.pubkey ref idx.by_pubkey;
    inbound = add_relations ref item.relations idx.inbound;
    graph =
        if item.kind == type_shared_realm
        then (option_else idx.graph none λ g. some (Graph.add lib item g))
        else idx.graph;
  }

-- `refs = append(refs[:i], refs[i+1:]...)` at the first occurrence
unfoldable pub remove_first : Bytes → List Bytes → List Bytes
remove_first ref [] = []
remove_first ref (r ∷ refs) = if r == ref then refs else r ∷ remove_first ref refs

-- the entries that come from another source
unfoldable pub without_source : Bytes → List RelationEntry → List RelationEntry
without_source ref [] = []
without_source ref (e ∷ entries) =
    if not (e.source_ref == ref) then e ∷ without_source ref entries else without_source ref entries

-- the scan of all the targets
unfoldable pub drop_source : Bytes → Dict (List RelationEntry) → Dict (List RelationEntry)
unfolding without_source
drop_source ref [] = []
drop_source ref ((target, entries) ∷ inbound) =
    let filtered = without_source ref entries in
    let rest = drop_source ref inbound in
    if eqb (length filtered) 0 then rest else (target, filtered) ∷ rest

-- `removeLocked`. The loop over `refs` writes only where it finds the ref, and a missing slice
-- stays missing.
unfoldable pub remove_locked : Bytes → Index → Index
remove_locked ref idx = option_else (lookup ref idx.meta) idx λ m. record idx {
  graph =
      if m.kind == type_shared_realm
      then (option_else idx.graph none λ g. some (Graph.remove ref g))
      else idx.graph;
  by_pubkey =
      option_else (lookup m.pubkey idx.by_pubkey) idx.by_pubkey
        λ refs. insert m.pubkey (remove_first ref refs) idx.by_pubkey;
  inbound = drop_source ref idx.inbound;
  meta = erase ref idx.meta;
}

-- `Add`, `Remove`, `Update`
unfoldable pub add : Library → Bytes → Item → ℕ → List InField → Index → Index
unfolding add_locked
add lib ref item ts realms idx = add_locked lib ref item ts realms idx

unfoldable pub remove : Bytes → Index → Index
unfolding remove_locked
remove ref idx = remove_locked ref idx

unfoldable pub update : Library → Bytes → Item → ℕ → List InField → Index → Index
update lib ref item ts realms idx = add_locked lib ref item ts realms (remove_locked ref idx)

-- one file of `Rebuild`: what `Read` returned for the ref (`none` is an error or a missing file)
unfoldable pub rebuild_one : Library → Bytes → Option Bytes → Index × ℕ → Index × ℕ
rebuild_one lib ref read (idx, count) =
    option_else read (idx, count)
      λ raw.
        option_else (parse_envelope lib raw) (idx, count)
          λ p.
            let ts = option_else (timestamp lib p.1) lib.zero_time λ t. t in
            (add_locked lib ref p.1 ts (resolve_in p.0 p.1 ∷ []) idx, count + 1)

unfoldable pub rebuild_from : Library → List (Bytes × Option Bytes) → Index × ℕ → Index × ℕ
unfolding rebuild_one
rebuild_from lib [] s = s
rebuild_from lib ((ref, read) ∷ files) s = rebuild_from lib files (rebuild_one lib ref read s)

-- `Rebuild`, of the files that the scan of the store lists
unfoldable pub rebuild : Library → List (Bytes × Option Bytes) → Index → Index × ℕ
unfolding rebuild_from
rebuild lib files idx =
    let cleared : Index = record idx {
      inbound = [];
      by_pubkey = [];
      meta = [];
      graph = option_else idx.graph none λ g. some (Graph.load lib [] g);
    } in
    rebuild_from lib files (cleared, 0)
