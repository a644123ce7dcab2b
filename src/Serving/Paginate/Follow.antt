-- ===== src/Serving/Paginate/Follow.antt =====
-- serving/paginate.go: a client that follows the cursors.
use mathlib.Core.List.{append_assoc, append-nil}
use dataverse_hub.Base.{
  ℕ, zero, suc, ◌≤◌, ◌<◌, ◌≡◌, refl, ap, sym, ◌∙◌, true, false, Option, none, some, List, [], ◌∷◌,
  ◌++◌, Bytes, arith, ltb, str_lt_irrefl, str_lt_trans, option_else, ltb→lt, Bool-cases, inl, inr,
  all, all-append, length, take, drop, take-drop, length-drop, length-take, subst,
}
use dataverse_hub.Object.Types.{ObjectMeta, Cursor}
use dataverse_hub.Storage.Index.Queries.{comes_before}
use dataverse_hub.Storage.Store.{Store}
use dataverse_hub.Serving.Paginate.{
  is_after, skip_to, from_cursor, page_metas, last_meta, cursor_of, next_cursor, loaded_refs,
  paginate_and_load,
}

-- Each object comes before all later ones.
abbrev pub IsStrict : List ObjectMeta → Type 0
IsStrict [] = Unit
IsStrict (m ∷ ms) = (all (λ n. comes_before m n) ms ≡ true) × IsStrict ms

is_after-cursor_of : (a m : ObjectMeta) → is_after (cursor_of a) m ≡ comes_before a m
unfolding is_after comes_before
is_after-cursor_of a m = ground arith

comes_before_irrefl : (a : ObjectMeta) → comes_before a a ≡ false
unfolding comes_before
comes_before_irrefl a = ground (arith, str_lt_irrefl a.ref)

comes_before_asymm : (a b : ObjectMeta) → comes_before a b ≡ true → comes_before b a ≡ false
unfolding comes_before
comes_before_asymm a b h = ground (arith, str_lt_irrefl a.ref, str_lt_trans a.ref b.ref a.ref)

skip_to-rest :
    (x : ObjectMeta) (rest : List ObjectMeta)
    → all (λ n. comes_before x n) rest ≡ true
    → skip_to (cursor_of x) rest ≡ rest
unfolding skip_to
skip_to-rest x [] h = refl
skip_to-rest x (y ∷ rest) h = ground (arith, is_after-cursor_of x y)

-- The cursor of an object skips the objects up to it.
skip_to-split :
    (pre : List ObjectMeta) (x : ObjectMeta) (rest : List ObjectMeta)
    → IsStrict (pre ++ x ∷ rest)
    → skip_to (cursor_of x) (pre ++ x ∷ rest) ≡ rest
unfolding skip_to
skip_to-split [] x rest (h, s) =
    rw (is_after-cursor_of x x ∙ comes_before_irrefl x) (skip_to-rest x rest h)
skip_to-split (p ∷ pre) x rest (h, s) =
    let before : comes_before p x ≡ true =
      ground (arith, h, all-append (λ n. comes_before p n) pre (x ∷ rest)) in
    rw (is_after-cursor_of x p ∙ comes_before_asymm p x before) (skip_to-split pre x rest s)

but_last : List ObjectMeta → List ObjectMeta
but_last [] = []
but_last (m ∷ []) = []
but_last (m ∷ (n ∷ ms)) = m ∷ but_last (n ∷ ms)

last_meta-split :
    (ms : List ObjectMeta) (x : ObjectMeta) → last_meta ms ≡ some x → ms ≡ but_last ms ++ x ∷ []
unfolding last_meta but_last
last_meta-split [] x h = cc
last_meta-split (m ∷ []) x h = cc
last_meta-split (m ∷ (n ∷ ms)) x h = ap (◌∷◌ m) (last_meta-split (n ∷ ms) x h)

loaded_refs-append :
    (s : Store) (xs ys : List ObjectMeta)
    → loaded_refs s (xs ++ ys) ≡ loaded_refs s xs ++ loaded_refs s ys
unfolding loaded_refs
loaded_refs-append s [] ys = refl
loaded_refs-append s (x ∷ xs) ys = ground (arith, loaded_refs-append s xs ys)

last_meta-exists :
    (ms : List ObjectMeta) → 1 ≤ length ms → (x : ObjectMeta) × (last_meta ms ≡ some x)
unfolding last_meta
last_meta-exists [] h = absurd (omega arith)
last_meta-exists (m ∷ []) h = (m, refl)
last_meta-exists (m ∷ (n ∷ ms)) h = last_meta-exists (n ∷ ms) (omega arith)

-- The refs that a client gets from a cursor on, if it follows at most so many cursors.
abbrev pub follow : ℕ → Store → List ObjectMeta → ℕ → Option Cursor → List Bytes
follow zero s ms limit c = []
follow (suc n) s ms limit c =
    (paginate_and_load s ms c limit).refs
    ++ option_else (paginate_and_load s ms c limit).next [] λ d. follow n s ms limit (some d)

-- One page: what it lists, and the cursor that continues after it.
page-split :
    (s : Store) (pre rest : List ObjectMeta) (limit : ℕ)
    → IsStrict (pre ++ rest)
    → 1 ≤ limit
    → limit < length rest
    → (x : ObjectMeta) × (next_cursor limit rest ≡ some (cursor_of x))
      × (skip_to (cursor_of x) (pre ++ rest) ≡ drop limit rest)
unfolding next_cursor page_metas
page-split s pre rest limit strict pos_limit more =
    let page = take limit rest in
    let (x, e) =
      last_meta-exists (take limit rest) (omega (arith, length-take limit rest (omega arith))) in
    let split : (pre ++ but_last (take limit rest)) ++ x ∷ drop limit rest ≡ pre ++ rest =
      append_assoc pre (but_last (take limit rest)) (x ∷ drop limit rest)
      ∙ ap (λ ms. pre ++ ms)
          (sym (append_assoc (but_last (take limit rest)) (x ∷ []) (drop limit rest))
            ∙ ap (λ ms. ms ++ drop limit rest) (sym (last_meta-split (take limit rest) x e))
            ∙ take-drop limit rest) in
    let long : ltb limit (length rest) ≡ true = ground arith in
    (
      x,
      rw (long, e) refl,
      subst (λ ms. skip_to (cursor_of x) ms ≡ drop limit rest) split
          (skip_to-split (pre ++ but_last (take limit rest)) x (drop limit rest)
            (subst IsStrict (sym split) strict)),
    )

from_cursor-none : (ms : List ObjectMeta) → from_cursor none ms ≡ ms
unfolding from_cursor
from_cursor-none ms = refl

from_cursor-some : (c : Cursor) (ms : List ObjectMeta) → from_cursor (some c) ms ≡ skip_to c ms
unfolding from_cursor
from_cursor-some c ms = refl

page_metas-more :
    (limit : ℕ) (ms : List ObjectMeta)
    → ltb limit (length ms) ≡ true
    → page_metas limit ms ≡ take limit ms
unfolding page_metas
page_metas-more limit ms h = rw h

page_metas-last :
    (limit : ℕ) (ms : List ObjectMeta) → ltb limit (length ms) ≡ false → page_metas limit ms ≡ ms
unfolding page_metas
page_metas-last limit ms h = rw h

next_cursor-last :
    (limit : ℕ) (ms : List ObjectMeta) → ltb limit (length ms) ≡ false → next_cursor limit ms ≡ none
unfolding next_cursor
next_cursor-last limit ms h = rw h

follow-from :
    (n : ℕ) (s : Store) (metas pre rest : List ObjectMeta) (limit : ℕ) (c : Option Cursor)
    → pre ++ rest ≡ metas
    → IsStrict metas
    → 1 ≤ limit
    → from_cursor c metas ≡ rest
    → length rest < n
    → follow n s metas limit c ≡ loaded_refs s rest
unfolding paginate_and_load
follow-from zero s metas pre rest limit c split strict p at fuel = absurd (omega arith)
follow-from (suc n) s metas pre rest limit c split strict p at fuel =
    elim (Bool-cases (ltb limit (length rest))) [
      | inl more ↦
          let (x, next, skip) =
            page-split s pre rest limit (subst IsStrict (sym split) strict) p
              (ltb→lt limit (length rest) more) in
          let again : follow n s metas limit (some (cursor_of x))
              ≡ loaded_refs s (drop limit rest) =
            follow-from n s metas (pre ++ take limit rest) (drop limit rest) limit
              (some (cursor_of x))
              (append_assoc pre (take limit rest) (drop limit rest)
                ∙ ap (λ ms. pre ++ ms) (take-drop limit rest)
                ∙ split)
              strict p
              (from_cursor-some (cursor_of x) metas
                ∙ subst (λ ms. skip_to (cursor_of x) ms ≡ drop limit rest) split skip)
              (omega
                (arith, length-drop limit rest (ground arith), ltb→lt limit (length rest) more)) in
          rw (at, page_metas-more limit rest more, next, again)
            (sym (loaded_refs-append s (take limit rest) (drop limit rest))
              ∙ ap (loaded_refs s) (take-drop limit rest))
      | inr done ↦
          rw (at, page_metas-last limit rest done, next_cursor-last limit rest done)
            (append-nil (loaded_refs s rest))
    ]

-- In a result where each object comes before all later ones, a client that follows the cursors from
-- the first page on gets exactly the refs of the objects that can be read, in their order, whatever
-- the limit of a page is, if it is not 0: one request more than there are objects is always enough.
pub follow-all :
    (s : Store) (metas : List ObjectMeta) (limit : ℕ)
    → IsStrict metas
    → 1 ≤ limit
    → follow (suc (length metas)) s metas limit none ≡ loaded_refs s metas
follow-all s metas limit strict p =
    follow-from (suc (length metas)) s metas [] metas limit none refl strict p
      (from_cursor-none metas) (omega arith)
