-- ===== src/Storage/Index/Order.antt =====
-- storage/index.go: `sortMetaDesc` keeps the objects and puts them in the order of the pages.
use mathlib.Core.List.{Memᴰ, Perm}
use mathlib.Core.List.Perm
use dataverse_hub.Base.{
  ◌≡◌, refl, true, false, inl, inr, List, [], ◌∷◌, str_lt_trans, str_lt_total, str_lt_irrefl, arith,
  Bool-cases, ◌↔◌,
}
use dataverse_hub.Object.Types.{ObjectMeta}
use dataverse_hub.Storage.Index.Queries.{comes_before, insert_sorted, sort_meta_desc}

-- Nothing of the list comes before `m`.
abbrev pub NoneBefore : ObjectMeta → List ObjectMeta → Type 0
NoneBefore m [] = Unit
NoneBefore m (x ∷ xs) = (comes_before x m ≡ false) × NoneBefore m xs

-- No object of the list comes before one that stands in front of it.
abbrev pub IsDescending : List ObjectMeta → Type 0
IsDescending [] = Unit
IsDescending (m ∷ ms) = NoneBefore m ms × IsDescending ms

not_before_trans :
    (a b c : ObjectMeta)
    → comes_before b a ≡ false
    → comes_before c b ≡ false
    → comes_before c a ≡ false
unfolding comes_before
not_before_trans a b c h k = ground (
  arith,
  str_lt_total a.ref b.ref,
  str_lt_total b.ref c.ref,
  str_lt_total a.ref c.ref,
  str_lt_trans a.ref c.ref b.ref,
  str_lt_trans b.ref a.ref c.ref,
  str_lt_trans a.ref b.ref c.ref,
  str_lt_irrefl a.ref,
  str_lt_irrefl b.ref,
  str_lt_irrefl c.ref,
  str_lt_trans b.ref a.ref b.ref,
  str_lt_trans c.ref b.ref c.ref,
)

before_asymm : (a b : ObjectMeta) → comes_before a b ≡ true → comes_before b a ≡ false
unfolding comes_before
before_asymm a b h = ground (arith, str_lt_trans a.ref b.ref a.ref, str_lt_irrefl a.ref)

NoneBefore-weaken :
    (a b : ObjectMeta) (xs : List ObjectMeta)
    → comes_before b a ≡ false
    → NoneBefore b xs
    → NoneBefore a xs
NoneBefore-weaken a b [] h k = tt
NoneBefore-weaken a b (x ∷ xs) h (p, k) = (not_before_trans a b x h p, NoneBefore-weaken a b xs h k)

NoneBefore-insert_sorted :
    (a m : ObjectMeta) (xs : List ObjectMeta)
    → comes_before m a ≡ false
    → NoneBefore a xs
    → NoneBefore a (insert_sorted m xs)
unfolding insert_sorted
NoneBefore-insert_sorted a m [] h k = (h, tt)
NoneBefore-insert_sorted a m (x ∷ xs) h (p, k) = elim (Bool-cases (comes_before m x)) [
  | inl e ↦ rw e (h, (p, k))
  | inr e ↦ rw e (p, NoneBefore-insert_sorted a m xs h k)
]

insert_sorted-IsDescending :
    (m : ObjectMeta) (xs : List ObjectMeta) → IsDescending xs → IsDescending (insert_sorted m xs)
unfolding insert_sorted
insert_sorted-IsDescending m [] d = (tt, tt)
insert_sorted-IsDescending m (x ∷ xs) (n, d) = elim (Bool-cases (comes_before m x)) [
  | inl e ↦ rw e ((before_asymm m x e, NoneBefore-weaken m x xs (before_asymm m x e) n), (n, d))
  | inr e ↦ rw e (NoneBefore-insert_sorted x m xs e n, insert_sorted-IsDescending m xs d)
]

perm-insert_sorted : (m : ObjectMeta) (xs : List ObjectMeta) → Perm (insert_sorted m xs) (m ∷ xs)
unfolding insert_sorted
perm-insert_sorted m [] = Perm.refl (m ∷ [])
perm-insert_sorted m (x ∷ xs) = elim (Bool-cases (comes_before m x)) [
  | inl e ↦ rw e (Perm.refl (m ∷ (x ∷ xs)))
  | inr e ↦ rw e (Perm.trans (Perm.cons x (perm-insert_sorted m xs)) (Perm.swap m x xs))
]

pub perm-sort_meta_desc : (ms : List ObjectMeta) → Perm (sort_meta_desc ms) ms
unfolding sort_meta_desc
perm-sort_meta_desc [] = Perm.refl []
perm-sort_meta_desc (m ∷ ms) =
    Perm.trans (perm-insert_sorted m (sort_meta_desc ms)) (Perm.cons m (perm-sort_meta_desc ms))

sort_meta_desc-IsDescending : (ms : List ObjectMeta) → IsDescending (sort_meta_desc ms)
unfolding sort_meta_desc
sort_meta_desc-IsDescending [] = tt
sort_meta_desc-IsDescending (m ∷ ms) =
    insert_sorted-IsDescending m (sort_meta_desc ms) (sort_meta_desc-IsDescending ms)

-- The object that is put in, and those that were there.
mem-here : (m : ObjectMeta) (xs : List ObjectMeta) → Memᴰ m (insert_sorted m xs)
unfolding insert_sorted
mem-here m [] = Memᴰ.head refl
mem-here m (x ∷ xs) = elim (Bool-cases (comes_before m x)) [
  | inl e ↦ rw e (Memᴰ.head refl)
  | inr e ↦ rw e (Memᴰ.tail (mem-here m xs))
]

mem-there : (a m : ObjectMeta) (xs : List ObjectMeta) → Memᴰ a xs → Memᴰ a (insert_sorted m xs)
unfolding insert_sorted
mem-there a m [] h = elim h [ ]
mem-there a m (x ∷ xs) (Memᴰ.head p) = elim (Bool-cases (comes_before m x)) [
  | inl e ↦ rw e (Memᴰ.tail (Memᴰ.head p))
  | inr e ↦ rw e (Memᴰ.head p)
]
mem-there a m (x ∷ xs) (Memᴰ.tail h) = elim (Bool-cases (comes_before m x)) [
  | inl e ↦ rw e (Memᴰ.tail (Memᴰ.tail h))
  | inr e ↦ rw e (Memᴰ.tail (mem-there a m xs h))
]

pass_over :
    (a m x : ObjectMeta) (xs ys : List ObjectMeta)
    → (Memᴰ a ys → Memᴰ a (m ∷ xs))
    → Memᴰ a (x ∷ ys)
    → Memᴰ a (m ∷ (x ∷ xs))
pass_over a m x xs ys ih (Memᴰ.head p) = Memᴰ.tail (Memᴰ.head p)
pass_over a m x xs ys ih (Memᴰ.tail k) = under (ih k)
  where
    under : Memᴰ a (m ∷ xs) → Memᴰ a (m ∷ (x ∷ xs))
    under (Memᴰ.head p) = Memᴰ.head p
    under (Memᴰ.tail k) = Memᴰ.tail (Memᴰ.tail k)

mem-insert_sorted :
    (a m : ObjectMeta) (xs : List ObjectMeta) → Memᴰ a (insert_sorted m xs) → Memᴰ a (m ∷ xs)
unfolding insert_sorted
mem-insert_sorted a m [] h = h
mem-insert_sorted a m (x ∷ xs) h = elim (Bool-cases (comes_before m x)) [
  | inl e ↦ rw e at h
  | inr e ↦ pass_over a m x xs (insert_sorted m xs) (mem-insert_sorted a m xs) (rw e at h)
]

mem-sort_sound : (a : ObjectMeta) (ms : List ObjectMeta) → Memᴰ a (sort_meta_desc ms) → Memᴰ a ms
unfolding sort_meta_desc
mem-sort_sound a [] h = h
mem-sort_sound a (m ∷ ms) h =
    out (mem-insert_sorted a m (sort_meta_desc ms) h) (mem-sort_sound a ms)
  where
    out :
        Memᴰ a (m ∷ sort_meta_desc ms) → (Memᴰ a (sort_meta_desc ms) → Memᴰ a ms) → Memᴰ a (m ∷ ms)
    out (Memᴰ.head p) ih = Memᴰ.head p
    out (Memᴰ.tail k) ih = Memᴰ.tail (ih k)

mem-sort_complete : (a : ObjectMeta) (ms : List ObjectMeta) → Memᴰ a ms → Memᴰ a (sort_meta_desc ms)
unfolding sort_meta_desc
mem-sort_complete a [] h = elim h [ ]
mem-sort_complete a (m ∷ ms) (Memᴰ.head p) = rw p (mem-here m (sort_meta_desc ms))
mem-sort_complete a (m ∷ ms) (Memᴰ.tail h) =
    mem-there a m (sort_meta_desc ms) (mem-sort_complete a ms h)

-- Sorting keeps exactly the objects that are there.
pub mem-sort_meta_desc :
    (a : ObjectMeta) (ms : List ObjectMeta) → Memᴰ a (sort_meta_desc ms) ↔ Memᴰ a ms
mem-sort_meta_desc a ms = (mem-sort_sound a ms, mem-sort_complete a ms)

-- `sortMetaDesc` returns the same objects, each as often, and none of them stands before one that
-- comes before it: later times first, and larger refs first at one time.
pub sort_meta_desc_lem :
    (ms : List ObjectMeta) → Perm (sort_meta_desc ms) ms × IsDescending (sort_meta_desc ms)
sort_meta_desc_lem ms = (perm-sort_meta_desc ms, sort_meta_desc-IsDescending ms)
