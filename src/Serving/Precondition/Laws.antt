-- ===== src/Serving/Precondition/Laws.antt =====
-- serving/precondition.go: what the check of a conditional write lets through.
use dataverse_hub.Base.{
  ℕ, ◌≡◌, refl, ap, sym, ◌∙◌, false, Option, none, some, [], ◌∷◌, ◌++◌, tail, Bytes, bytes, ◌==◌,
  eq_iff, eq_refl, arith, if◌then◌else◌, contains, Bool-cases, inl, inr, ◌≢◌, ◌↔◌, ℤ, int_eq, ◌<ℤ◌,
  int_eq_sound, itoa, itoa-injective, itoa-all_plain,
}
use dataverse_hub.Base.Trim.{trim_space, trim_space-quoted, split_commas-quoted}
use dataverse_hub.Object.Types.{ObjectMeta}
use dataverse_hub.Serving.Precondition.{
  IfMatchResult, if_match_absent, if_match_pass, if_match_fail, revision_etag, trim_tags,
  split_etag_list, evaluate_if_match, precondition_failed, is_fail, check_conditional_write,
}

but_last : Bytes → Bytes
but_last [] = []
but_last (c ∷ []) = []
but_last (c ∷ (d ∷ s)) = c ∷ but_last (d ∷ s)

but_last-append : (s : Bytes) (c : ℕ) → but_last (s ++ c ∷ []) ≡ s
unfolding but_last
but_last-append [] c = refl
but_last-append (d ∷ []) c = refl
but_last-append (d ∷ (e ∷ s)) c = ap (◌∷◌ d) (but_last-append (e ∷ s) c)

-- Different revisions have different entity tags.
revision_etag-injective : (a b : ℤ) → revision_etag a ≡ revision_etag b → a ≡ b
unfolding revision_etag
revision_etag-injective a b h = itoa-injective a b (
    sym (but_last-append (itoa a) b'"')
    ∙ ap (λ s. but_last (tail s)) h
    ∙ but_last-append (itoa b) b'"')

trim_space-revision_etag : (r : ℤ) → trim_space (revision_etag r) ≡ revision_etag r
unfolding revision_etag
trim_space-revision_etag r = trim_space-quoted (itoa r) (itoa-all_plain r)

split_etag_list-revision_etag : (r : ℤ) → split_etag_list (revision_etag r) ≡ revision_etag r ∷ []
unfolding split_etag_list trim_tags revision_etag ◌==◌
split_etag_list-revision_etag r =
    rw
      (
        split_commas-quoted (itoa r) (itoa-all_plain r),
        trim_space-quoted (itoa r) (itoa-all_plain r),
      )
      refl

revision_etag-eq : (a b : ℤ) → (revision_etag a == revision_etag b) ≡ int_eq a b
revision_etag-eq a b = elim (Bool-cases (int_eq a b)) [
  | inl e ↦ rw (e, int_eq_sound a b e) (eq_refl (revision_etag b))
  | inr e ↦ ground (arith, eq_iff (revision_etag a) (revision_etag b), revision_etag-injective a b)
]

revision_etag-not_empty : (r : ℤ) → (revision_etag r == []) ≡ false
unfolding revision_etag ◌==◌
revision_etag-not_empty r = refl

revision_etag-not_star : (r : ℤ) → (revision_etag r == bytes "*") ≡ false
unfolding revision_etag ◌==◌
revision_etag-not_star r = refl

contains-singleton : (s t : Bytes) → contains (s ∷ []) t ≡ (s == t)
unfolding contains
contains-singleton s t = ground arith

-- The tag that a read of revision r returned, sent back as If-Match, passes exactly if the object
-- exists and still has revision r, and fails if not.
pub evaluate_if_match-revision_etag :
    (r : ℤ) (existing : Option ObjectMeta)
    → evaluate_if_match (revision_etag r) existing ≡ elim existing [
      | none ↦ if_match_fail
      | some m ↦ if int_eq r m.revision then if_match_pass else if_match_fail
    ]
unfolding evaluate_if_match
evaluate_if_match-revision_etag r none =
    rw (trim_space-revision_etag r, revision_etag-not_empty r, revision_etag-not_star r) refl
evaluate_if_match-revision_etag r (some m) =
    rw
      (
        trim_space-revision_etag r,
        revision_etag-not_empty r,
        revision_etag-not_star r,
        split_etag_list-revision_etag r,
        contains-singleton (revision_etag r) (revision_etag m.revision),
        revision_etag-eq r m.revision,
      )
      refl

is_fail_iff : (x : IfMatchResult) → (is_fail x ≡ false) ↔ (x ≢ if_match_fail)
is_fail_iff if_match_absent = ground arith
is_fail_iff if_match_pass = ground arith
is_fail_iff if_match_fail = ground arith

-- `checkConditionalWrite` lets a write go on exactly if the If-Match header does not fail and the
-- object, if it exists, has a smaller revision than the one that is written.
pub check_conditional_write_iff :
    (header : Bytes) (existing : Option ObjectMeta) (incoming : ℤ)
    → (check_conditional_write header existing incoming ≡ none) ↔ (
        (evaluate_if_match header existing ≢ if_match_fail)
        × ((m : ObjectMeta) → existing ≡ some m → m.revision <ℤ incoming))
unfolding check_conditional_write
check_conditional_write_iff header none incoming =
    let f = is_fail_iff (evaluate_if_match header none) in
    (λ h. ((f.0 (ground (arith, h))), λ m e. absurd (cc)), λ (n, g). ground (arith, f.1 n))
check_conditional_write_iff header (some m) incoming =
    let f = is_fail_iff (evaluate_if_match header (some m)) in
    (
      λ h. (f.0 (ground (arith, h)), λ k e. ground (arith, h, e)),
      λ (n, g). ground (arith, f.1 n, g m refl),
    )

-- A writer that sends the tag of revision r, and whose write goes on, writes over revision r; a later
-- write with the same tag gets 412, whatever its revision.
pub check_conditional_write-once :
    (r incoming later : ℤ) (stored written : ObjectMeta)
    → check_conditional_write (revision_etag r) (some stored) incoming ≡ none
    → written.revision ≡ incoming
    → (stored.revision ≡ r)
      × (check_conditional_write (revision_etag r) (some written) later ≡ some precondition_failed)
unfolding check_conditional_write
check_conditional_write-once r incoming later stored written h w = ground (
  arith,
  h,
  w,
  int_eq_sound r stored.revision,
  int_eq_sound r written.revision,
  evaluate_if_match-revision_etag r (some stored),
  evaluate_if_match-revision_etag r (some written),
)
