-- ===== src/Storage/Index/Indexed.antt =====
-- storage/index.go: `GetAll` makes nothing up.
use mathlib.Core.List.{Memᴰ}
use mathlib.Core.Option.{some-injective}
use dataverse_hub.Base.{
  ◌≡◌, refl, ◌∙◌, ap, subst, Bool, not, none, some, [], ◌∷◌, Bytes, ◌==◌, eq_iff, option_else-inv,
  if-inv, Bool-cases, inl, inr,
}
use dataverse_hub.Base.Dict.{Dict, lookup}
use dataverse_hub.Object.Types.{ObjectMeta}
use dataverse_hub.Storage.Index.{Index, resolver, slice_of}
use dataverse_hub.Storage.Index.Queries.{
  filter_allows, is_visible, pubkey_hit, any_hit, get_by_pubkey, get_all,
}
use dataverse_hub.Storage.Index.Order.{mem-sort_meta_desc}
use dataverse_hub.Storage.Index.Visible.{mem-collect_sound, any_hit_sound}

-- The index has an entry of the object, under some ref.
abbrev pub IsIndexed : Index → ObjectMeta → Type 0
IsIndexed idx m = (ref : Bytes) × Memᴰ (ref, m) idx.meta

mem-here :
    (ref k : Bytes) (m x : ObjectMeta) (meta : Dict ObjectMeta)
    → k ≡ ref
    → x ≡ m
    → Memᴰ (ref, m) ((k, x) ∷ meta)
mem-here ref k m x meta p q = rw (p, q) (Memᴰ.head refl)

mem-lookup :
    (ref : Bytes) (m : ObjectMeta) (meta : Dict ObjectMeta)
    → lookup ref meta ≡ some m
    → Memᴰ (ref, m) meta
unfolding lookup
mem-lookup ref m [] h = absurd (cc)
mem-lookup ref m ((k, x) ∷ meta) h = elim (Bool-cases (k == ref)) [
  | inl e ↦ mem-here ref k m x meta ((eq_iff k ref).0 e) (some-injective _ _ (rw e at h))
  | inr e ↦ Memᴰ.tail (mem-lookup ref m meta (rw e at h))
]

module _ (idx : Index) (auth : Bytes) (members_only : Bool) (m : ObjectMeta) where
  get_by_pubkey-IsIndexed :
      (pubkey type_filter : Bytes)
      → Memᴰ m (get_by_pubkey idx pubkey type_filter auth members_only)
      → IsIndexed idx m
  unfolding get_by_pubkey pubkey_hit
  get_by_pubkey-IsIndexed pubkey type_filter h =
      let (ref, _, hit) =
        mem-collect_sound (pubkey_hit idx type_filter auth members_only)
          (slice_of idx.by_pubkey pubkey) m ((mem-sort_meta_desc m _).0 h) in
      let (k, found, h1) = option_else-inv (lookup ref idx.meta) none _ hit (cc) in
      let (b, h2) = if-inv (not (is_visible (resolver idx) auth members_only k)) none _ h1 (cc) in
      let (c, h3) = if-inv (not (filter_allows type_filter k.kind)) none _ h2 (cc) in
      let same : k ≡ m = cc in (ref, mem-lookup ref m idx.meta (found ∙ ap some same))

  -- `GetAll` returns only objects that the index has.
  pub get_all-IsIndexed :
      (pubkey type_filter : Bytes)
      → Memᴰ m (get_all idx pubkey type_filter auth members_only)
      → IsIndexed idx m
  unfolding get_all
  get_all-IsIndexed pubkey type_filter h = elim (Bool-cases (not (pubkey == []))) [
    | inl e ↦ get_by_pubkey-IsIndexed pubkey type_filter (rw e at h)
    | inr e ↦
        let ((ref, k), there, hit) =
          mem-collect_sound (any_hit idx type_filter auth members_only) idx.meta m
            ((mem-sort_meta_desc m _).0 (rw e at h)) in
        let (_, _, same) = any_hit_sound idx auth members_only m type_filter ref k hit in
        (ref, subst (λ x. Memᴰ (ref, x) idx.meta) same there)
  ]
