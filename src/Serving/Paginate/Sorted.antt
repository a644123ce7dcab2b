-- ===== src/Serving/Paginate/Sorted.antt =====
-- serving/paginate.go and `sortMetaDesc`: a sorted result of distinct objects has the strict order
-- that the cursors need.
use dataverse_hub.Base.{
  ◌≡◌, refl, ◌∙◌, Bool, true, false, ◌&&◌, not, List, [], ◌∷◌, ◌==◌, eq_iff, arith, str_lt_trans,
  str_lt_total, str_lt, ◌<◌, ◌⊎◌, eqb, Bool-cases, inl, inr, all,
}
use mathlib.Core.List.{Perm}
use dataverse_hub.Object.Types.{ObjectMeta}
use dataverse_hub.Storage.Index.Queries.{comes_before, insert_sorted, sort_meta_desc}
use dataverse_hub.Storage.Index.Order.{perm-sort_meta_desc}
use dataverse_hub.Serving.Paginate.Follow.{IsStrict}

-- No two objects have one ref.
abbrev pub IsDistinct : List ObjectMeta → Type 0
IsDistinct [] = Unit
IsDistinct (m ∷ ms) = (all (λ n. not (m.ref == n.ref)) ms ≡ true) × IsDistinct ms

comes_before_trans :
    (a b c : ObjectMeta)
    → comes_before a b ≡ true
    → comes_before b c ≡ true
    → comes_before a c ≡ true
unfolding comes_before
comes_before_trans a b c h k = ground (arith, str_lt_trans c.ref b.ref a.ref)

comes_before_total :
    (a b : ObjectMeta)
    → not (a.ref == b.ref) ≡ true
    → comes_before a b ≡ false
    → comes_before b a ≡ true
unfolding comes_before
comes_before_total a b n h = ground (arith, eq_iff a.ref b.ref, str_lt_total a.ref b.ref)

all-insert_sorted :
    (p : ObjectMeta → Bool) (m : ObjectMeta) (xs : List ObjectMeta)
    → all p (insert_sorted m xs) ≡ (p m && all p xs)
unfolding insert_sorted
all-insert_sorted p m [] = refl
all-insert_sorted p m (x ∷ xs) = ground (arith, all-insert_sorted p m xs)

all-sort_meta_desc :
    (p : ObjectMeta → Bool) (ms : List ObjectMeta) → all p (sort_meta_desc ms) ≡ all p ms
unfolding sort_meta_desc
all-sort_meta_desc p [] = refl
all-sort_meta_desc p (m ∷ ms) =
    all-insert_sorted p m (sort_meta_desc ms) ∙ ground (arith, all-sort_meta_desc p ms)

all-comes_before_trans :
    (m x : ObjectMeta) (xs : List ObjectMeta)
    → comes_before m x ≡ true
    → all (λ n. comes_before x n) xs ≡ true
    → all (λ n. comes_before m n) xs ≡ true
all-comes_before_trans m x [] h k = refl
all-comes_before_trans m x (y ∷ xs) h k =
    ground (arith, comes_before_trans m x y, all-comes_before_trans m x xs h)

insert_sorted-IsStrict :
    (m : ObjectMeta) (xs : List ObjectMeta)
    → IsStrict xs
    → all (λ n. not (m.ref == n.ref)) xs ≡ true
    → IsStrict (insert_sorted m xs)
unfolding insert_sorted
insert_sorted-IsStrict m [] s d = (refl, tt)
insert_sorted-IsStrict m (x ∷ xs) (h, s) d = elim (Bool-cases (comes_before m x)) [
  | inl e ↦ rw e (ground (arith, e, all-comes_before_trans m x xs e h), (h, s))
  | inr e ↦ rw e (
    all-insert_sorted (λ n. comes_before x n) m xs
        ∙ ground (arith, h, comes_before_total m x (ground arith) e),
    insert_sorted-IsStrict m xs s (ground arith),
  )
]

-- The result is strict for the order of the code.
sort_meta_desc-IsStrict : (ms : List ObjectMeta) → IsDistinct ms → IsStrict (sort_meta_desc ms)
unfolding sort_meta_desc
sort_meta_desc-IsStrict [] d = tt
sort_meta_desc-IsStrict (m ∷ ms) (n, d) =
    insert_sorted-IsStrict m (sort_meta_desc ms) (sort_meta_desc-IsStrict ms d)
      (all-sort_meta_desc (λ x. not (m.ref == x.ref)) ms ∙ n)

-- What a reader of a page expects of `m` and a later `n`: `m` is newer, or of the same time and with
-- the greater ref.
abbrev pub IsNewer : ObjectMeta → ObjectMeta → Type 0
IsNewer m n =
    (n.updated_at < m.updated_at) ⊎ ((n.updated_at ≡ m.updated_at) × (str_lt n.ref m.ref ≡ true))

abbrev pub NewerThanAll : ObjectMeta → List ObjectMeta → Type 0
NewerThanAll m [] = Unit
NewerThanAll m (n ∷ ms) = IsNewer m n × NewerThanAll m ms

abbrev pub IsNewestFirst : List ObjectMeta → Type 0
IsNewestFirst [] = Unit
IsNewestFirst (m ∷ ms) = NewerThanAll m ms × IsNewestFirst ms

comes_before-IsNewer : (m n : ObjectMeta) → comes_before m n ≡ true → IsNewer m n
unfolding comes_before
comes_before-IsNewer m n h = elim (Bool-cases (eqb m.updated_at n.updated_at)) [
  | inl e ↦ inr (ground arith, ground arith)
  | inr e ↦ inl (ground arith)
]

all-NewerThanAll :
    (m : ObjectMeta) (ms : List ObjectMeta)
    → all (λ n. comes_before m n) ms ≡ true
    → NewerThanAll m ms
all-NewerThanAll m [] h = tt
all-NewerThanAll m (n ∷ ms) h =
    (comes_before-IsNewer m n (ground arith), all-NewerThanAll m ms (ground arith))

IsStrict-IsNewestFirst : (ms : List ObjectMeta) → IsStrict ms → IsNewestFirst ms
IsStrict-IsNewestFirst [] h = tt
IsStrict-IsNewestFirst (m ∷ ms) (h, s) = (all-NewerThanAll m ms h, IsStrict-IsNewestFirst ms s)

-- `sortMetaDesc` keeps the objects of a list and, if their refs are distinct, puts each in front of all
-- that are older, or of the same time and with a smaller ref.
pub sort_meta_desc-IsNewestFirst :
    (ms : List ObjectMeta)
    → IsDistinct ms
    → Perm (sort_meta_desc ms) ms × IsNewestFirst (sort_meta_desc ms)
sort_meta_desc-IsNewestFirst ms d = (
  perm-sort_meta_desc ms,
  IsStrict-IsNewestFirst (sort_meta_desc ms) (sort_meta_desc-IsStrict ms d),
)
