-- ===== src/Storage/Index/Sources.antt =====
-- storage/index.go: every inbound entry comes from an object of the index, after any write.
use dataverse_hub.Base.{
  ap, ◌++◌, ℕ, ◌≡◌, refl, ◌∙◌, true, Option, none, some, List, [], ◌∷◌, Bytes, ◌==◌, eq_iff,
  eq_refl, arith, all-append, if◌then◌else◌, option_else, is_some, Bool-cases, Option-cases, inl,
  inr,
}
use dataverse_hub.Base.Dict.{
  Dict, lookup, insert, erase, lookup-insert, lookup-erase, IsMap, insert-IsMap,
}
use dataverse_hub.External.{Library}
use dataverse_hub.Object.Types.{Item, RelationEntry, ObjectMeta, InField}
use dataverse_hub.Realm.Shared.{SharedRealms}
use dataverse_hub.Storage.Index.{
  Index, new_index, slice_of, append_at, add_entries, add_relations, without_source, add_locked,
  remove_locked, update, meta_of, resolved_realms,
}
use dataverse_hub.Storage.Index.Relations.{
  mentions, all_mentions, sources_known, IsInboundIndex, slice-remove_locked, without_unknown,
  slice-add_relations, slice-update, drop_source-IsMap,
}

known_erase :
    (ref : Bytes) (meta : Dict ObjectMeta) (entries : List RelationEntry)
    → sources_known meta entries ≡ true
    → sources_known (erase ref meta) (without_source ref entries) ≡ true
unfolding without_source
known_erase ref meta [] h = refl
known_erase ref meta (e ∷ entries) h = ground (
  arith,
  eq_iff e.source_ref ref,
  eq_iff ref e.source_ref,
  lookup-erase ref e.source_ref meta,
  known_erase ref meta entries,
)

known_insert :
    (ref : Bytes) (m : ObjectMeta) (meta : Dict ObjectMeta) (entries : List RelationEntry)
    → sources_known meta entries ≡ true
    → sources_known (insert ref m meta) entries ≡ true
known_insert ref m meta [] h = refl
known_insert ref m meta (e ∷ entries) h =
    ground (arith, lookup-insert ref e.source_ref m meta, known_insert ref m meta entries)

module _ (lib : Library) (ref target : Bytes) (m : ObjectMeta) (meta : Dict ObjectMeta) where
  known_mentions :
      (kind : Bytes) (raws : List Bytes)
      → sources_known (insert ref m meta) (mentions lib ref target kind raws) ≡ true
  known_mentions kind [] = refl
  known_mentions kind (raw ∷ raws) = elim (Option-cases (lib.relation_ref raw)) [
    | inl n ↦ rw n (known_mentions kind raws)
    | inr (t, f) ↦
        ground (arith, lookup-insert ref ref m meta, eq_refl ref, known_mentions kind raws)
  ]

  known_all_mentions :
      (relations : Dict (List Bytes))
      → sources_known (insert ref m meta) (all_mentions lib ref target relations) ≡ true
  known_all_mentions [] = refl
  known_all_mentions ((kind, raws) ∷ relations) =
      all-append _ (mentions lib ref target kind raws) (all_mentions lib ref target relations)
      ∙ rw (known_mentions kind raws) (known_all_mentions relations)

module _ (lib : Library) (ref : Bytes) where
  add_entries-IsMap :
      (kind : Bytes) (raws : List Bytes) (inbound : Dict (List RelationEntry))
      → IsMap inbound
      → IsMap (add_entries lib ref kind raws inbound)
  unfolding add_entries
  add_entries-IsMap kind [] inbound h = h
  add_entries-IsMap kind (raw ∷ raws) inbound h =
      add_entries-IsMap kind raws _ (one (lib.relation_ref raw))
    where
      one :
          (o : Option Bytes)
          → IsMap (
              option_else o inbound λ t.
                if t == []
                then inbound
                else append_at t (record { source_ref = ref; relation_type = kind }) inbound)
      one none = h
      one (some t) = elim (Bool-cases (t == [])) [
        | inl e ↦ rw e h
        | inr e ↦ rw e (insert-IsMap t _ inbound h)
      ]

  add_relations-IsMap :
      (relations : Dict (List Bytes)) (inbound : Dict (List RelationEntry))
      → IsMap inbound
      → IsMap (add_relations lib ref relations inbound)
  unfolding add_relations
  add_relations-IsMap [] inbound h = h
  add_relations-IsMap ((kind, raws) ∷ relations) inbound h =
      add_relations-IsMap relations _ (add_entries-IsMap kind raws inbound h)

remove_locked-IsMap :
    (ref : Bytes) (idx : Index) → IsMap idx.inbound → IsMap (remove_locked ref idx).inbound
unfolding remove_locked
remove_locked-IsMap ref idx h = elim (Option-cases (lookup ref idx.meta)) [
  | inl n ↦ rw n h
  | inr (m, f) ↦ rw f (drop_source-IsMap ref idx.inbound h)
]

remove_locked_known :
    (ref : Bytes) (idx : Index) (entries : List RelationEntry)
    → sources_known idx.meta entries ≡ true
    → sources_known (remove_locked ref idx).meta (without_source ref entries) ≡ true
unfolding remove_locked
remove_locked_known ref idx entries h = elim (Option-cases (lookup ref idx.meta)) [
  | inl n ↦ rw n (rw (without_unknown ref idx.meta entries n h) h)
  | inr (m, f) ↦ rw f (known_erase ref idx.meta entries h)
]

-- `Remove` leaves an inbound index whose entries all come from objects of the index.
pub remove_locked-IsInboundIndex :
    (ref : Bytes) (idx : Index) → IsInboundIndex idx → IsInboundIndex (remove_locked ref idx)
remove_locked-IsInboundIndex ref idx i = record {
  is_map = remove_locked-IsMap ref idx (i.is_map);
  sourced = λ target.
      rw (slice-remove_locked ref target idx i)
        (remove_locked_known ref idx (slice_of idx.inbound target) (i.sourced target));
}

add_locked-IsInboundIndex :
    (lib : Library) (ref : Bytes) (item : Item) (ts : ℕ) (realms : List InField) (idx : Index)
    → IsInboundIndex idx
    → IsInboundIndex (add_locked lib ref item ts realms idx)
unfolding add_locked
add_locked-IsInboundIndex lib ref item ts realms idx i =
    let m = meta_of lib ref item ts (resolved_realms item realms) in
    record {
      is_map = add_relations-IsMap lib ref item.relations idx.inbound (i.is_map);
      sourced = λ target. rw (slice-add_relations lib ref target item.relations idx.inbound) (
          all-append (λ (e : RelationEntry). is_some (lookup e.source_ref (insert ref m idx.meta)))
            (slice_of idx.inbound target) (all_mentions lib ref target item.relations)
          ∙ rw (known_insert ref m idx.meta (slice_of idx.inbound target) (i.sourced target))
              (known_all_mentions lib ref target m idx.meta item.relations));
    }

update-sourced :
    (lib : Library) (ref : Bytes) (item : Item) (ts : ℕ) (realms : List InField) (idx : Index)
    → IsInboundIndex idx
    → IsInboundIndex (update lib ref item ts realms idx)
unfolding update
update-sourced lib ref item ts realms idx i =
    add_locked-IsInboundIndex lib ref item ts realms (remove_locked ref idx)
      (remove_locked-IsInboundIndex ref idx i)

-- The entries that other sources than the ref contribute, in their order.
abbrev pub from_others : Bytes → List RelationEntry → List RelationEntry
from_others ref [] = []
from_others ref (e ∷ entries) =
    if e.source_ref == ref then from_others ref entries else e ∷ from_others ref entries

without_source-from_others :
    (ref : Bytes) (entries : List RelationEntry)
    → without_source ref entries ≡ from_others ref entries
unfolding without_source
without_source-from_others ref [] = refl
without_source-from_others ref (e ∷ entries) =
    ground (arith, without_source-from_others ref entries)

-- `Update` keeps the inbound index free of entries from objects that are not in the index; and after
-- it the slice of every target is what other objects contributed before, in the order of before, and
-- then one entry for each mention of the target in the new item: nothing of what the object's last
-- revision contributed is left.
pub update-IsInboundIndex :
    (lib : Library) (ref : Bytes) (item : Item) (ts : ℕ) (realms : List InField) (idx : Index)
    → IsInboundIndex idx
    → IsInboundIndex (update lib ref item ts realms idx)
      × ((target : Bytes)
          → slice_of (update lib ref item ts realms idx).inbound target
            ≡ from_others ref (slice_of idx.inbound target)
              ++ all_mentions lib ref target item.relations)
update-IsInboundIndex lib ref item ts realms idx i = (
  update-sourced lib ref item ts realms idx i,
  λ target.
      slice-update lib ref target item ts realms idx i
      ∙ ap (λ xs. xs ++ all_mentions lib ref target item.relations)
          (without_source-from_others ref (slice_of idx.inbound target)),
)

pub new_index-IsInboundIndex : (shared : Option SharedRealms) → IsInboundIndex (new_index shared)
unfolding lookup
new_index-IsInboundIndex shared = record { is_map = tt; sourced = λ target. refl }
