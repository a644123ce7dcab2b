-- ===== src/Serving/Precondition.antt =====
-- serving/precondition.go: the If-Match header and the rule that a revision only grows. The result of
-- `checkConditionalWrite` is the error that it replies, or `none` if the caller may go on.
pub mod Laws
use dataverse_hub.Base.{
  Bool, true, false, not, option_else, Option, none, some, List, [], ◌∷◌, ◌++◌, Bytes, bytes, ◌==◌,
  if◌then◌else◌, ◌&&◌, contains, ℤ, int_lt, itoa,
}
use dataverse_hub.Base.Trim.{trim_space, split_commas}
use dataverse_hub.Object.Types.{ObjectMeta}

-- `ifMatchResult`
pub data IfMatchResult : Type 0 where
  if_match_absent if_match_pass if_match_fail : IfMatchResult

-- `== ifMatchFail`
abbrev pub is_fail : IfMatchResult → Bool
is_fail if_match_absent = false
is_fail if_match_pass = false
is_fail if_match_fail = true

-- `revisionETag`
unfoldable pub revision_etag : ℤ → Bytes
revision_etag revision = b'"' ∷ (itoa revision ++ b'"' ∷ [])

-- the loop of `splitETagList`
unfoldable pub trim_tags : List Bytes → List Bytes
trim_tags [] = []
trim_tags (p ∷ parts) =
    if not (trim_space p == []) then trim_space p ∷ trim_tags parts else trim_tags parts

-- `splitETagList`
unfoldable pub split_etag_list : Bytes → List Bytes
unfolding trim_tags
split_etag_list header = trim_tags (split_commas header)

-- `evaluateIfMatch`, of the stored revision (`none` if the object does not exist)
unfoldable pub evaluate_if_match : Bytes → Option ObjectMeta → IfMatchResult
unfolding split_etag_list revision_etag
evaluate_if_match header existing =
    if trim_space header == []
    then if_match_absent
    else if trim_space header == bytes "*"
    then elim existing [ none ↦ if_match_fail | some m ↦ if_match_pass ]
    else elim existing [
      | none ↦ if_match_fail
      | some m ↦
          if contains (split_etag_list (trim_space header)) (revision_etag m.revision)
          then if_match_pass
          else if_match_fail
    ]

-- 412 and 409
pub data WriteConflict : Type 0 where
  precondition_failed revision_conflict : WriteConflict

-- `checkConditionalWrite`
unfoldable pub check_conditional_write : Bytes → Option ObjectMeta → ℤ → Option WriteConflict
check_conditional_write header existing incoming =
    if is_fail (evaluate_if_match header existing)
    then some precondition_failed
    else (option_else existing none
        λ m. if not (int_lt m.revision incoming) then some revision_conflict else none)
