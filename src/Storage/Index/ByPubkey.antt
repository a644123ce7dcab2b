-- ===== src/Storage/Index/ByPubkey.antt =====
-- storage/index.go: the list of a key's objects is complete.
use mathlib.Core.List.{Memᴰ}
use dataverse_hub.Base.{
  ◌<◌, ◌≡◌, ap, sym, ◌∙◌, ◌↔◌, Bool, not, none, some, List, [], ◌∷◌, Bytes, ◌==◌, eq_iff, eq_refl,
  arith, option_else-inv, if-inv, Bool-cases, inl, inr,
}
use dataverse_hub.Base.Dict.{lookup}
use dataverse_hub.Object.Types.{ObjectMeta}
use dataverse_hub.Storage.Index.{Index, slice_of, resolver}
use dataverse_hub.Storage.Index.Queries.{pubkey_hit, get_by_pubkey, is_visible, filter_allows}
use dataverse_hub.Storage.Index.Order.{mem-sort_meta_desc}
use dataverse_hub.Storage.Index.Visible.{
  IsVisible, Allows, mem-collect_sound, mem-collect_complete, pubkey_hit_sound, is_visible_complete,
  filter_allows_iff,
}
use dataverse_hub.Storage.Index.Owners.{IsOwners, occurs}

occurs-pos : (ref : Bytes) (refs : List Bytes) → Memᴰ ref refs → 0 < occurs ref refs
occurs-pos ref [] h = elim h [ ]
occurs-pos ref (r ∷ refs) (Memᴰ.head p) = ground (arith, eq_iff r ref)
occurs-pos ref (r ∷ refs) (Memᴰ.tail h) = omega (arith, occurs-pos ref refs h)

mem_of_occurs : (ref : Bytes) (refs : List Bytes) → 0 < occurs ref refs → Memᴰ ref refs
mem_of_occurs ref [] h = absurd (omega arith)
mem_of_occurs ref (r ∷ refs) h = elim (Bool-cases (r == ref)) [
  | inl e ↦ Memᴰ.head (sym ((eq_iff r ref).0 e))
  | inr e ↦ Memᴰ.tail (mem_of_occurs ref refs (ground arith))
]

-- An object of the key that the reader may see and whose type passes the filter.
pub record IsOwnVisible (idx : Index) (pubkey type_filter auth : Bytes) (members_only : Bool)
    (m : ObjectMeta) : Type 0 where
  pub indexed : lookup m.ref idx.meta ≡ some m
  pub signer : m.pubkey ≡ pubkey
  pub kind : Allows type_filter m.kind
  pub visible : IsVisible idx auth members_only m

module _ (idx : Index) (o : IsOwners idx) (auth : Bytes) (members_only : Bool)
    (m : ObjectMeta) where
  owner_of_mem :
      (pubkey ref : Bytes)
      → Memᴰ ref (slice_of idx.by_pubkey pubkey)
      → lookup ref idx.meta ≡ some m
      → m.pubkey ≡ pubkey
  owner_of_mem pubkey ref h f = ground (
    arith,
    o.once pubkey ref,
    eq_iff m.pubkey pubkey,
    occurs-pos ref (slice_of idx.by_pubkey pubkey) h,
  )

  pubkey_hit-lookup :
      (type_filter ref : Bytes)
      → pubkey_hit idx type_filter auth members_only ref ≡ some m
      → lookup ref idx.meta ≡ some m
  unfolding pubkey_hit
  pubkey_hit-lookup type_filter ref h =
      let (k, found, h1) = option_else-inv (lookup ref idx.meta) none _ h (cc) in
      let (_, h2) = if-inv (not (is_visible (resolver idx) auth members_only k)) none _ h1 (cc) in
      let (_, h3) = if-inv (not (filter_allows type_filter k.kind)) none _ h2 (cc) in ground arith

  get_by_pubkey_sound :
      (pubkey type_filter : Bytes)
      → Memᴰ m (get_by_pubkey idx pubkey type_filter auth members_only)
      → IsOwnVisible idx pubkey type_filter auth members_only m
  unfolding get_by_pubkey
  get_by_pubkey_sound pubkey type_filter h =
      let (ref, there, hit) =
        mem-collect_sound (pubkey_hit idx type_filter auth members_only)
          (slice_of idx.by_pubkey pubkey) m ((mem-sort_meta_desc m _).0 h) in
      let found = pubkey_hit-lookup type_filter ref hit in
      let (v, a) = pubkey_hit_sound idx auth members_only m type_filter ref hit in
      record {
        indexed = ap (λ r. lookup r idx.meta) (o.keyed ref m found) ∙ found;
        signer = owner_of_mem pubkey ref there found;
        kind = a;
        visible = v;
      }

  pubkey_hit_complete :
      (pubkey type_filter : Bytes)
      → IsOwnVisible idx pubkey type_filter auth members_only m
      → pubkey_hit idx type_filter auth members_only m.ref ≡ some m
  unfolding pubkey_hit
  pubkey_hit_complete pubkey type_filter i = rw (
    i.indexed,
    is_visible_complete idx auth members_only m (i.visible),
    (filter_allows_iff type_filter m.kind).1 (i.kind),
  )

  get_by_pubkey_complete :
      (pubkey type_filter : Bytes)
      → IsOwnVisible idx pubkey type_filter auth members_only m
      → Memᴰ m (get_by_pubkey idx pubkey type_filter auth members_only)
  unfolding get_by_pubkey
  get_by_pubkey_complete pubkey type_filter i = (mem-sort_meta_desc m _).1 (
      mem-collect_complete (pubkey_hit idx type_filter auth members_only)
        (slice_of idx.by_pubkey pubkey) m m.ref
        (mem_of_occurs m.ref (slice_of idx.by_pubkey pubkey)
          (ground (arith, o.once pubkey m.ref, i.indexed, i.signer, eq_refl pubkey)))
        (pubkey_hit_complete pubkey type_filter i))

  -- In a consistent index `GetByPubkey` returns exactly the indexed objects of the key that the
  -- reader may see and whose type passes the filter.
  pub get_by_pubkey_iff :
      (pubkey type_filter : Bytes)
      → Memᴰ m (get_by_pubkey idx pubkey type_filter auth members_only)
        ↔ IsOwnVisible idx pubkey type_filter auth members_only m
  get_by_pubkey_iff pubkey type_filter =
      (get_by_pubkey_sound pubkey type_filter, get_by_pubkey_complete pubkey type_filter)
