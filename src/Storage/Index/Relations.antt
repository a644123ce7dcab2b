-- ===== src/Storage/Index/Relations.antt =====
-- storage/index.go: the inbound index after a write.
use dataverse_hub.Base.{
  ℕ, ◌≡◌, refl, ap, sym, ◌∙◌, Bool, true, false, none, List, [], ◌∷◌, ◌++◌, Bytes, ◌==◌, eq_iff,
  arith, length, eqb, all, if◌then◌else◌, option_else, is_some, Bool-cases, Option-cases, inl, inr,
  ◌⊎◌,
}
use mathlib.Core.List.{append_assoc, append-nil}
use dataverse_hub.Base.Dict.{Dict, lookup, IsMap}
use dataverse_hub.External.{Library}
use dataverse_hub.Object.Types.{Item, RelationEntry, ObjectMeta, InField}
use dataverse_hub.Storage.Index.{
  Index, slice_of, append_at, add_entries, add_relations, without_source, drop_source, add_locked,
  remove_locked, update,
}
use dataverse_hub.Storage.Index.Owners.{slice-append_at}

module _ (lib : Library) (ref target : Bytes) where
  -- The entries that the relations of one type owe to the target, one for each mention of it.
  abbrev pub mentions : Bytes → List Bytes → List RelationEntry
  mentions kind [] = []
  mentions kind (raw ∷ raws) =
      (option_else (lib.relation_ref raw) [] λ t.
        if t == []
        then []
        else if t == target
        then (record { source_ref = ref; relation_type = kind }) ∷ []
        else [])
      ++ mentions kind raws

  abbrev pub all_mentions : Dict (List Bytes) → List RelationEntry
  all_mentions [] = []
  all_mentions ((kind, raws) ∷ relations) = mentions kind raws ++ all_mentions relations

  -- What one entry adds to the target.
  slice-add_entry :
      (kind raw : Bytes) (inbound : Dict (List RelationEntry))
      → slice_of
          (option_else (lib.relation_ref raw) inbound λ t.
            if t == []
            then inbound
            else append_at t (record { source_ref = ref; relation_type = kind }) inbound)
          target
        ≡ slice_of inbound target ++ mentions kind (raw ∷ [])
  slice-add_entry kind raw inbound = elim (Option-cases (lib.relation_ref raw)) [
    | inl n ↦ rw n (sym (append-nil _))
    | inr (t, f) ↦ elim (Bool-cases (t == [])) [
      | inl e ↦ rw (f, e) (sym (append-nil _))
      | inr e ↦ elim (Bool-cases (t == target)) [
        | inl s ↦
            let same = (eq_iff t target).0 s in
            rw (f, e, s) (slice-append_at t target _ inbound ∙ rw (s, same))
        | inr s ↦ rw (f, e, s) (slice-append_at t target _ inbound ∙ rw s (sym (append-nil _)))
      ]
    ]
  ]

  mentions_cons :
      (kind raw : Bytes) (raws : List Bytes)
      → mentions kind (raw ∷ []) ++ mentions kind raws ≡ mentions kind (raw ∷ raws)
  mentions_cons kind raw raws = ap (λ xs. xs ++ mentions kind raws) (append-nil _)

  slice-add_entries :
      (kind : Bytes) (raws : List Bytes) (inbound : Dict (List RelationEntry))
      → slice_of (add_entries lib ref kind raws inbound) target
        ≡ slice_of inbound target ++ mentions kind raws
  unfolding add_entries
  slice-add_entries kind [] inbound = sym (append-nil _)
  slice-add_entries kind (raw ∷ raws) inbound =
      slice-add_entries kind raws _
      ∙ ap (λ xs. xs ++ mentions kind raws) (slice-add_entry kind raw inbound)
      ∙ append_assoc (slice_of inbound target) (mentions kind (raw ∷ [])) (mentions kind raws)
      ∙ ap (λ xs. slice_of inbound target ++ xs) (mentions_cons kind raw raws)

  pub slice-add_relations :
      (relations : Dict (List Bytes)) (inbound : Dict (List RelationEntry))
      → slice_of (add_relations lib ref relations inbound) target
        ≡ slice_of inbound target ++ all_mentions relations
  unfolding add_relations
  slice-add_relations [] inbound = sym (append-nil _)
  slice-add_relations ((kind, raws) ∷ relations) inbound =
      slice-add_relations relations (add_entries lib ref kind raws inbound)
      ∙ ap (λ xs. xs ++ all_mentions relations) (slice-add_entries kind raws inbound)
      ∙ append_assoc (slice_of inbound target) (mentions kind raws) (all_mentions relations)

empty_cases {ℓ} :
    {A : Type ℓ} (xs : List A)
    → ((eqb (length xs) 0 ≡ true) × (xs ≡ [])) ⊎ (eqb (length xs) 0 ≡ false)
empty_cases [] = inl (refl, refl)
empty_cases (x ∷ xs) = inr (ground arith)

lookup-drop_source_of_none :
    (ref t : Bytes) (inbound : Dict (List RelationEntry))
    → lookup t inbound ≡ none
    → lookup t (drop_source ref inbound) ≡ none
unfolding drop_source lookup
lookup-drop_source_of_none ref t [] h = refl
lookup-drop_source_of_none ref t ((k, entries) ∷ inbound) h =
    ground (arith, lookup-drop_source_of_none ref t inbound)

pub drop_source-IsMap :
    (ref : Bytes) (inbound : Dict (List RelationEntry))
    → IsMap inbound
    → IsMap (drop_source ref inbound)
unfolding drop_source
drop_source-IsMap ref [] h = tt
drop_source-IsMap ref ((k, entries) ∷ inbound) (fresh, h) =
    elim (Bool-cases (eqb (length (without_source ref entries)) 0)) [
      | inl e ↦ rw e (drop_source-IsMap ref inbound h)
      | inr e ↦
          rw e (lookup-drop_source_of_none ref k inbound fresh, drop_source-IsMap ref inbound h)
    ]

-- The scan drops the entries of the source from every target's slice.
slice-drop_source :
    (ref t : Bytes) (inbound : Dict (List RelationEntry))
    → IsMap inbound
    → slice_of (drop_source ref inbound) t ≡ without_source ref (slice_of inbound t)
unfolding drop_source lookup without_source
slice-drop_source ref t [] h = refl
slice-drop_source ref t ((k, entries) ∷ inbound) (fresh, h) = elim (Bool-cases (k == t)) [
  | inl e ↦ elim (empty_cases (without_source ref entries)) [
    | inl (z, none_left) ↦
        let gone = lookup-drop_source_of_none ref t inbound (rw ((eq_iff k t).0 e) at fresh) in
        ground (arith, gone)
    | inr z ↦ ground arith
  ]
  | inr e ↦ ground (arith, slice-drop_source ref t inbound h)
]

-- Every entry comes from an object that is in the index.
abbrev pub sources_known : Dict ObjectMeta → List RelationEntry → Bool
sources_known meta = all (λ e. is_some (lookup e.source_ref meta))

pub record IsInboundIndex (idx : Index) : Type 0 where
  pub is_map : IsMap idx.inbound
  pub sourced : (target : Bytes) → sources_known idx.meta (slice_of idx.inbound target) ≡ true

pub without_unknown :
    (ref : Bytes) (meta : Dict ObjectMeta) (entries : List RelationEntry)
    → lookup ref meta ≡ none
    → sources_known meta entries ≡ true
    → without_source ref entries ≡ entries
unfolding without_source
without_unknown ref meta [] n h = refl
without_unknown ref meta (e ∷ entries) n h =
    ground (arith, eq_iff e.source_ref ref, without_unknown ref meta entries n)

-- After the removal of a ref the slices are those without its entries.
pub slice-remove_locked :
    (ref target : Bytes) (idx : Index)
    → IsInboundIndex idx
    → slice_of (remove_locked ref idx).inbound target
      ≡ without_source ref (slice_of idx.inbound target)
unfolding remove_locked
slice-remove_locked ref target idx i = elim (Option-cases (lookup ref idx.meta)) [
  | inl n ↦
      rw n (sym (without_unknown ref idx.meta (slice_of idx.inbound target) n (i.sourced target)))
  | inr (m, f) ↦ rw f (slice-drop_source ref target idx.inbound (i.is_map))
]

-- After an update of a ref every target's slice holds what other sources contributed to it before, in
-- the order of before, and then one entry for each mention of the target in the new item.
pub slice-update :
    (lib : Library) (ref target : Bytes) (item : Item) (ts : ℕ) (realms : List InField)
    (idx : Index)
    → IsInboundIndex idx
    → slice_of (update lib ref item ts realms idx).inbound target
      ≡ without_source ref (slice_of idx.inbound target)
        ++ all_mentions lib ref target item.relations
unfolding update add_locked
slice-update lib ref target item ts realms idx i =
    slice-add_relations lib ref target item.relations (remove_locked ref idx).inbound
    ∙ ap (λ xs. xs ++ all_mentions lib ref target item.relations)
        (slice-remove_locked ref target idx i)
