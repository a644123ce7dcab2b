-- ===== src/Storage/Index/Owners.antt =====
-- storage/index.go: each indexed ref stands once under its own key, and under no other.
use dataverse_hub.Base.{
  ℕ, ◌+◌, ◌-◌, ◌≡◌, refl, ◌∙◌, false, none, some, List, [], ◌∷◌, ◌++◌, Bytes, ◌==◌, eq_iff, eq_refl,
  arith, if◌then◌else◌, option_else, Bool-cases, Option-cases, inl, inr,
}
use dataverse_hub.Base.Dict.{
  Dict, lookup, insert, lookup-insert, lookup-erase, IsMap, insert-IsMap, erase-IsMap,
}
use dataverse_hub.External.{Library}
use dataverse_hub.Object.Types.{Item, ObjectMeta, InField}
use dataverse_hub.Storage.Index.{
  Index, new_index, slice_of, append_at, add_locked, remove_first, remove_locked, update, meta_of,
  resolved_realms,
}

-- How often a ref stands in a slice.
abbrev pub occurs : Bytes → List Bytes → ℕ
occurs ref [] = 0
occurs ref (r ∷ refs) = (if r == ref then 1 else 0) + occurs ref refs

occurs-append_one :
    (ref s : Bytes) (refs : List Bytes)
    → occurs ref (refs ++ s ∷ []) ≡ occurs ref refs + (if s == ref then 1 else 0)
occurs-append_one ref s [] = omega arith
occurs-append_one ref s (r ∷ refs) = omega (arith, occurs-append_one ref s refs)

occurs-remove_first_self :
    (ref : Bytes) (refs : List Bytes) → occurs ref (remove_first ref refs) ≡ occurs ref refs - 1
unfolding remove_first
occurs-remove_first_self ref [] = omega arith
occurs-remove_first_self ref (r ∷ refs) = ground (arith, occurs-remove_first_self ref refs)

occurs-remove_first_ne :
    (ref s : Bytes) (refs : List Bytes)
    → (ref == s) ≡ false
    → occurs s (remove_first ref refs) ≡ occurs s refs
unfolding remove_first
occurs-remove_first_ne ref s [] h = refl
occurs-remove_first_ne ref s (r ∷ refs) h =
    ground (arith, eq_iff r ref, eq_iff r s, eq_iff ref s, occurs-remove_first_ne ref s refs)

-- 1 if the index says that the key owns the ref, and 0 if not.
abbrev pub owns : Dict ObjectMeta → Bytes → Bytes → ℕ
owns meta pk ref = option_else (lookup ref meta) 0 λ m. if m.pubkey == pk then 1 else 0

pub record IsOwners (idx : Index) : Type 0 where
  pub is_map : IsMap idx.meta
  pub keyed : (ref : Bytes) (m : ObjectMeta) → lookup ref idx.meta ≡ some m → m.ref ≡ ref
  pub once : (pk ref : Bytes) → occurs ref (slice_of idx.by_pubkey pk) ≡ owns idx.meta pk ref

pub slice-append_at {ℓ} :
    {A : Type ℓ} (k j : Bytes) (v : A) (m : Dict (List A))
    → slice_of (append_at k v m) j ≡ (if k == j then slice_of m k ++ v ∷ [] else slice_of m j)
slice-append_at k j v m = elim (Bool-cases (k == j)) [
  | inl e ↦ rw (lookup-insert, e)
  | inr e ↦ rw (lookup-insert, e)
]

slice-remove_first :
    (ref k j : Bytes) (m : Dict (List Bytes))
    → slice_of (option_else (lookup k m) m λ refs. insert k (remove_first ref refs) m) j
      ≡ (if k == j then remove_first ref (slice_of m k) else slice_of m j)
unfolding remove_first
slice-remove_first ref k j m = elim (Option-cases (lookup k m)) [
  | inl n ↦ ground (arith, eq_iff k j)
  | inr (refs, f) ↦ ground (arith, lookup-insert {0} k j (remove_first ref refs) m)
]

remove_locked-IsOwners :
    (ref : Bytes) (idx : Index) → IsOwners idx → IsOwners (remove_locked ref idx)
unfolding remove_locked
remove_locked-IsOwners ref idx o = elim (Option-cases (lookup ref idx.meta)) [
  | inl n ↦ rw n o
  | inr (m, f) ↦ rw f (record {
    is_map = erase-IsMap ref idx.meta (o.is_map);
    keyed = λ r k g. ground (arith, o.keyed r k, lookup-erase ref r idx.meta);
    once = λ pk r. ground (
      arith,
      o.once pk r,
      eq_iff ref r,
      eq_iff m.pubkey pk,
      lookup-erase ref r idx.meta,
      slice-remove_first ref m.pubkey pk idx.by_pubkey,
      occurs-remove_first_self ref (slice_of idx.by_pubkey m.pubkey),
      occurs-remove_first_ne ref r (slice_of idx.by_pubkey m.pubkey),
    );
  })
]

remove_locked-absent : (ref : Bytes) (idx : Index) → lookup ref (remove_locked ref idx).meta ≡ none
unfolding remove_locked
remove_locked-absent ref idx = elim (Option-cases (lookup ref idx.meta)) [
  | inl n ↦ rw n n
  | inr (m, f) ↦ rw f (lookup-erase ref ref idx.meta ∙ rw (eq_refl ref))
]

add_locked-IsOwners :
    (lib : Library) (ref : Bytes) (item : Item) (ts : ℕ) (realms : List InField) (idx : Index)
    → IsOwners idx
    → lookup ref idx.meta ≡ none
    → IsOwners (add_locked lib ref item ts realms idx)
unfolding add_locked
add_locked-IsOwners lib ref item ts realms idx o fresh =
    let m = meta_of lib ref item ts (resolved_realms item realms) in
    record {
      is_map = insert-IsMap ref m idx.meta (o.is_map);
      keyed = λ r k g. ground (arith, o.keyed r k, eq_iff ref r, lookup-insert ref r m idx.meta);
      once = λ pk r. ground (
        arith,
        o.once pk r,
        eq_iff ref r,
        eq_iff item.pubkey pk,
        lookup-insert ref r m idx.meta,
        slice-append_at item.pubkey pk ref idx.by_pubkey,
        occurs-append_one r ref (slice_of idx.by_pubkey item.pubkey),
      );
    }

-- `Update` leaves each ref once under the key of its object, in a list with no other key's refs, and
-- each entry of the metadata under its own ref.
pub update-IsOwners :
    (lib : Library) (ref : Bytes) (item : Item) (ts : ℕ) (realms : List InField) (idx : Index)
    → IsOwners idx
    → IsOwners (update lib ref item ts realms idx)
unfolding update
update-IsOwners lib ref item ts realms idx o =
    add_locked-IsOwners lib ref item ts realms (remove_locked ref idx)
      (remove_locked-IsOwners ref idx o) (remove_locked-absent ref idx)

pub new_index-IsOwners : (shared : _) → IsOwners (new_index shared)
unfolding lookup
new_index-IsOwners shared = record { is_map = tt; keyed = λ r m e. cc; once = λ pk r. refl }
