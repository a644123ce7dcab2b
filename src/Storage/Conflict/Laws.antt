-- ===== src/Storage/Conflict/Laws.antt =====
-- storage/conflict.go: what is kept stays kept.
use dataverse_hub.Base.{
  ◌≡◌, refl, ap, ◌∙◌, Bool, false, some, Bytes, ◌==◌, eq_iff, eq_refl, arith, Bool-cases,
  Option-cases, inl, inr, Result, ok, err,
}
use dataverse_hub.Base.Dict.{Dict, lookup, insert, lookup-insert}
use dataverse_hub.External.{Library}
use dataverse_hub.Storage.Conflict.{
  ConflictCall, conflict_name, fails_early, publish, preserve_conflict, link_conflict, read_saved,
}

-- What `PreserveConflict` promises of its result.
pub record IsKept (lib : Library) (content : Bytes) (dir : Dict Bytes)
    (x : Result Unit Bytes × Dict Bytes) : Type 0 where
  pub grows : (name saved : Bytes) → lookup name dir ≡ some saved → lookup name x.1 ≡ some saved
  pub found :
      (name : Bytes)
      → x.0 ≡ ok name
      → (name ≡ conflict_name lib content) × (lookup name x.1 ≡ some content)

error-IsKept :
    (lib : Library) (content : Bytes) (dir : Dict Bytes) → IsKept lib content dir (err tt, dir)
error-IsKept lib content dir = record { grows = λ name saved h. h; found = λ name h. absurd (cc) }

publish-name :
    (failing : ConflictCall → Bool) (at name : Bytes) → publish failing at ≡ ok name → name ≡ at
publish-name failing at name h = ground arith

found_at :
    (lib : Library) (content : Bytes) (dir : Dict Bytes) (name : Bytes)
    → name ≡ conflict_name lib content
    → lookup (conflict_name lib content) dir ≡ some content
    → (name ≡ conflict_name lib content) × (lookup name dir ≡ some content)
found_at lib content dir name at h = (at, rw at h)

-- Whatever calls fail, `PreserveConflict` never overwrites or drops a file that the directory has;
-- and if it returns a path, the name is the one of the content's hash and the file has the content.
pub preserve_conflict-IsKept :
    (lib : Library) (failing : ConflictCall → Bool) (content : Bytes) (dir : Dict Bytes)
    → IsKept lib content dir (preserve_conflict lib failing content dir)
unfolding preserve_conflict
preserve_conflict-IsKept lib failing content dir =
    let name = conflict_name lib content in
    elim (Bool-cases (fails_early failing)) [
      | inl e ↦ rw e (error-IsKept lib content dir)
      | inr e ↦ rw e (elim (Bool-cases (failing link_conflict)) [
        | inl l ↦ rw l (error-IsKept lib content dir)
        | inr l ↦ rw l (elim (Option-cases (lookup name dir)) [
          | inl n ↦ rw n (record {
            grows = λ other saved h.
                rw (lookup-insert name other content dir) (ground (arith, h, n, eq_iff name other));
            found = λ other h.
                found_at lib content (insert name content dir) other
                  (publish-name failing name other h)
                  (rw (lookup-insert name name content dir, eq_refl name));
          })
          | inr (saved, s) ↦ rw s (elim (Bool-cases (failing read_saved)) [
            | inl r ↦ rw r (error-IsKept lib content dir)
            | inr r ↦ rw r (elim (Bool-cases (saved == content)) [
              | inr q ↦ rw q (error-IsKept lib content dir)
              | inl q ↦ rw q (record {
                grows = λ other kept h. h;
                found = λ other h.
                    found_at lib content dir other (publish-name failing name other h)
                      (s ∙ ap some ((eq_iff saved content).0 q));
              })
            ])
          ])
        ])
      ])
    ]

preserve_conflict_of_kept :
    (lib : Library) (content : Bytes) (dir : Dict Bytes)
    → lookup (conflict_name lib content) dir ≡ some content
    → preserve_conflict lib (λ call. false) content dir ≡ (ok (conflict_name lib content), dir)
unfolding preserve_conflict
preserve_conflict_of_kept lib content dir h = rw (h, eq_refl content) refl

-- A second call with the same content, where nothing fails, finds the file of the first call: it
-- gives the same path and changes nothing.
pub preserve_conflict-again :
    (lib : Library) (failing : ConflictCall → Bool) (content name : Bytes) (dir : Dict Bytes)
    → (preserve_conflict lib failing content dir).0 ≡ ok name
    → preserve_conflict lib (λ call. false) content (preserve_conflict lib failing content dir).1
      ≡ (ok name, (preserve_conflict lib failing content dir).1)
preserve_conflict-again lib failing content name dir h =
    let kept = preserve_conflict-IsKept lib failing content dir in
    let (at, found) = kept.found name h in
    let again = preserve_conflict lib failing content dir in
    preserve_conflict_of_kept lib content again.1 (rw at at found) ∙ rw at refl
