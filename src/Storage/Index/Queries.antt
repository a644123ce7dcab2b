-- ===== src/Storage/Index/Queries.antt =====
-- storage/index.go: the queries. The result of a `range` over a map has the order of the entries
-- here, and is sorted at once; sort.Slice is insertion sort.
use dataverse_hub.Base.{
  ℕ, suc, Bool, true, false, ◌&&◌, ◌||◌, not, Option, none, some, List, [], ◌∷◌, Bytes, bytes, ◌==◌,
  str_lt, ltb, eqb, if◌then◌else◌, option_else,
}
use dataverse_hub.Base.Dict.{Dict, lookup, insert}
use dataverse_hub.Object.Types.{ObjectMeta, RelationEntry}
use dataverse_hub.Realm.Resolver.{RealmResolver}
use dataverse_hub.Realm.Access.{can_read}
use dataverse_hub.Storage.Index.{Index, resolver, slice_of}

-- the order of `sortMetaDesc`: later first, then by ref, larger first
unfoldable pub comes_before : ObjectMeta → ObjectMeta → Bool
comes_before a b =
    if not (eqb a.updated_at b.updated_at)
    then ltb b.updated_at a.updated_at
    else str_lt b.ref a.ref

unfoldable pub insert_sorted : ObjectMeta → List ObjectMeta → List ObjectMeta
insert_sorted m [] = m ∷ []
insert_sorted m (x ∷ xs) = if comes_before m x then m ∷ (x ∷ xs) else x ∷ insert_sorted m xs

-- `sortMetaDesc`
unfoldable pub sort_meta_desc : List ObjectMeta → List ObjectMeta
unfolding insert_sorted comes_before
sort_meta_desc [] = []
sort_meta_desc (m ∷ ms) = insert_sorted m (sort_meta_desc ms)

-- the loop of `passesMembersOnlyFilter`; the flag is `hasSharedRealm`
unfoldable pub members_only_loop : RealmResolver → Bytes → List Bytes → Bool → Bool
members_only_loop R signer [] has_shared = not has_shared
members_only_loop R signer (r ∷ rs) has_shared =
    let rest = members_only_loop R signer rs (R.is_shared_realm r || has_shared) in
    if R.is_shared_realm r && R.is_member r signer then true else rest

unfoldable pub passes_members_only_filter : RealmResolver → ObjectMeta → Bool
unfolding members_only_loop
passes_members_only_filter R m =
    if m.is_public then true else members_only_loop R m.pubkey m.realms false

-- `f != "" && v != f`, negated
abbrev pub filter_allows : Bytes → Bytes → Bool
filter_allows f v = (f == []) || v == f

-- the tests that all the queries make of an object
unfoldable pub is_visible : RealmResolver → Bytes → Bool → ObjectMeta → Bool
unfolding passes_members_only_filter
is_visible R auth members_only m =
    can_read m.realms auth (some R)
    && (if members_only then passes_members_only_filter R m else true)

-- `InboundFilters`
pub record InboundFilters : Type 0 where
  pub relation : Bytes
  pub from : Bytes
  pub kind : Bytes

-- one round of the loop of `GetInbound`: the object that it appends, if any
unfoldable pub inbound_hit :
    Index → InboundFilters → Bytes → Bool → RelationEntry → Option ObjectMeta
unfolding is_visible
inbound_hit idx filters auth members_only e =
    if not (filter_allows filters.relation e.relation_type)
    then none
    else option_else (lookup e.source_ref idx.meta) none λ m.
      if not (is_visible (resolver idx) auth members_only m)
      then none
      else if not (filter_allows filters.from m.pubkey)
      then none
      else if not (filter_allows filters.kind m.kind)
      then none
      else some m

-- one round of the loop of `GetByPubkey`
unfoldable pub pubkey_hit : Index → Bytes → Bytes → Bool → Bytes → Option ObjectMeta
unfolding is_visible
pubkey_hit idx type_filter auth members_only ref = option_else (lookup ref idx.meta) none λ m.
    if not (is_visible (resolver idx) auth members_only m)
    then none
    else if not (filter_allows type_filter m.kind)
    then none
    else some m

-- one round of the loop of `GetAll`
unfoldable pub any_hit : Index → Bytes → Bytes → Bool → Bytes × ObjectMeta → Option ObjectMeta
unfolding is_visible
any_hit idx type_filter auth members_only (ref, m) =
    if not (is_visible (resolver idx) auth members_only m)
    then none
    else if not (filter_allows type_filter m.kind)
    then none
    else some m

-- a loop that appends what each round finds
unfoldable pub collect {ℓ} : {A : Type ℓ} → (A → Option ObjectMeta) → List A → List ObjectMeta
collect hit [] = []
collect hit (x ∷ xs) = option_else (hit x) (collect hit xs) λ m. m ∷ collect hit xs

unfoldable pub get_inbound : Index → Bytes → InboundFilters → Bytes → Bool → List ObjectMeta
unfolding collect inbound_hit sort_meta_desc
get_inbound idx target filters auth members_only =
    sort_meta_desc
      (collect (inbound_hit idx filters auth members_only) (slice_of idx.inbound target))

unfoldable pub get_by_pubkey : Index → Bytes → Bytes → Bytes → Bool → List ObjectMeta
unfolding collect pubkey_hit sort_meta_desc
get_by_pubkey idx pubkey type_filter auth members_only =
    sort_meta_desc
      (collect (pubkey_hit idx type_filter auth members_only) (slice_of idx.by_pubkey pubkey))

unfoldable pub get_all : Index → Bytes → Bytes → Bytes → Bool → List ObjectMeta
unfolding collect any_hit sort_meta_desc get_by_pubkey
get_all idx pubkey type_filter auth members_only =
    if not (pubkey == [])
    then get_by_pubkey idx pubkey type_filter auth members_only
    else sort_meta_desc (collect (any_hit idx type_filter auth members_only) idx.meta)

unfoldable pub get_meta : Index → Bytes → Option ObjectMeta
get_meta idx ref = lookup ref idx.meta

unfoldable pub page_refs : Dict ObjectMeta → List Bytes
page_refs [] = []
page_refs ((ref, m) ∷ meta) =
    if m.kind == bytes "PAGE" then ref ∷ page_refs meta else page_refs meta

unfoldable pub get_page_refs : Index → List Bytes
unfolding page_refs
get_page_refs idx = page_refs idx.meta

-- `counts[e.RelationType]++`
unfoldable pub count_types : Dict ℕ → List RelationEntry → Dict ℕ
count_types counts [] = counts
count_types counts (e ∷ entries) =
    count_types
      (insert e.relation_type (suc (option_else (lookup e.relation_type counts) 0 λ n. n)) counts)
      entries

unfoldable pub get_inbound_counts : Index → Bytes → Dict ℕ
unfolding count_types
get_inbound_counts idx target = count_types [] (slice_of idx.inbound target)
