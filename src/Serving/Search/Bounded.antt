-- ===== src/Serving/Search/Bounded.antt =====
-- serving/handlers.go: how long an answer to a search is, and what is in it.
use mathlib.Core.List.{Memᴰ}
use dataverse_hub.Base.{
  ℕ, zero, suc, ◌≤◌, ◌≡◌, refl, sym, Option, none, some, List, [], ◌∷◌, Bytes, ◌==◌, arith, ℤ, pos,
  negsuc, length, length-take, take, ltb, Bool-cases, Option-cases, inl, inr,
}
use dataverse_hub.External.{Library}
use dataverse_hub.Object.Types.{ObjectMeta, Cursor}
use dataverse_hub.Serving.Paginate.{
  paginate_and_load, from_cursor, skip_to, is_after, page_metas, loaded_refs,
}
use dataverse_hub.Storage.Index.{Index}
use dataverse_hub.Storage.Index.Queries.{get_all}
use dataverse_hub.Storage.Index.Indexed.{IsIndexed, get_all-IsIndexed}
use dataverse_hub.Storage.Index.Visible.{IsVisible, Allows, get_all-IsVisible}
use dataverse_hub.Storage.Store.{Store, exists}
use dataverse_hub.Serving.Search.{
  SearchQuery, clamp_limit, parse_limit, parse_cursor, asks_members_only, handle_list_objects,
}

clamp_limit-bounds :
    (n : ℤ) (default_val max_val : ℕ)
    → 1 ≤ default_val
    → default_val ≤ max_val
    → (1 ≤ clamp_limit n default_val max_val) × (clamp_limit n default_val max_val ≤ max_val)
clamp_limit-bounds (pos n) default_val max_val h k = (ground arith, ground arith)
clamp_limit-bounds (negsuc n) default_val max_val h k = (h, k)

-- Whatever text a client sends as the limit, the limit is at least 1 and at most the maximum, if the
-- default is.
pub parse_limit-bounds :
    (lib : Library) (s : Bytes) (default_val max_val : ℕ)
    → 1 ≤ default_val
    → default_val ≤ max_val
    → (1 ≤ parse_limit lib s default_val max_val)
      × (parse_limit lib s default_val max_val ≤ max_val)
unfolding parse_limit
parse_limit-bounds lib s default_val max_val h k = elim (Bool-cases (s == [])) [
  | inl e ↦ rw e (h, k)
  | inr e ↦ rw e (elim (Option-cases (lib.atoi s)) [
    | inl n ↦ rw n (h, k)
    | inr (n, f) ↦ rw f (clamp_limit-bounds n default_val max_val h k)
  ])
]

length-page_metas : (limit : ℕ) (ms : List ObjectMeta) → length (page_metas limit ms) ≤ limit
unfolding page_metas
length-page_metas limit ms = elim (Bool-cases (ltb limit (length ms))) [
  | inl e ↦ rw e (omega (arith, length-take limit ms (ground (arith, e))))
  | inr e ↦ rw e (ground (arith, e))
]

length-loaded_refs : (s : Store) (ms : List ObjectMeta) → length (loaded_refs s ms) ≤ length ms
unfolding loaded_refs
length-loaded_refs s [] = omega arith
length-loaded_refs s (m ∷ ms) = ground (arith, length-loaded_refs s ms)

-- An object of the list whose ref is this one.
abbrev pub IsListed : Bytes → List ObjectMeta → Type 0
IsListed ref ms = (m : ObjectMeta) × Memᴰ m ms × (m.ref ≡ ref)

IsListed-later :
    (ref : Bytes) (k : ObjectMeta) (ms : List ObjectMeta) → IsListed ref ms → IsListed ref (k ∷ ms)
IsListed-later ref k ms (m, there, same) = (m, Memᴰ.tail there, same)

IsListed-first :
    (ref : Bytes) (m : ObjectMeta) (ms : List ObjectMeta) (refs : List Bytes)
    → (Memᴰ ref refs → IsListed ref ms)
    → Memᴰ ref (m.ref ∷ refs)
    → IsListed ref (m ∷ ms)
IsListed-first ref m ms refs later (Memᴰ.head same) = (m, Memᴰ.head refl, sym same)
IsListed-first ref m ms refs later (Memᴰ.tail there) = IsListed-later ref m ms (later there)

loaded_refs-IsListed :
    (s : Store) (ms : List ObjectMeta) (ref : Bytes) → Memᴰ ref (loaded_refs s ms) → IsListed ref ms
unfolding loaded_refs
loaded_refs-IsListed s [] ref h = elim h [ ]
loaded_refs-IsListed s (m ∷ ms) ref h = elim (Bool-cases (exists m.ref s)) [
  | inr e ↦ IsListed-later ref m ms (loaded_refs-IsListed s ms ref (rw e at h))
  | inl e ↦ IsListed-first ref m ms (loaded_refs s ms) (loaded_refs-IsListed s ms ref) (rw e at h)
]

mem-take : (n : ℕ) (ms : List ObjectMeta) (m : ObjectMeta) → Memᴰ m (take n ms) → Memᴰ m ms
mem-take zero ms m h = elim h [ ]
mem-take (suc n) [] m h = h
mem-take (suc n) (k ∷ ms) m (Memᴰ.head e) = Memᴰ.head e
mem-take (suc n) (k ∷ ms) m (Memᴰ.tail h) = Memᴰ.tail (mem-take n ms m h)

mem-page_metas :
    (limit : ℕ) (ms : List ObjectMeta) (m : ObjectMeta) → Memᴰ m (page_metas limit ms) → Memᴰ m ms
unfolding page_metas
mem-page_metas limit ms m h = elim (Bool-cases (ltb limit (length ms))) [
  | inl e ↦ mem-take limit ms m (rw e at h)
  | inr e ↦ rw e at h
]

mem-skip_to :
    (c : Cursor) (ms : List ObjectMeta) (m : ObjectMeta) → Memᴰ m (skip_to c ms) → Memᴰ m ms
unfolding skip_to
mem-skip_to c [] m h = h
mem-skip_to c (k ∷ ms) m h = elim (Bool-cases (is_after c k)) [
  | inl e ↦ rw e at h
  | inr e ↦ Memᴰ.tail (mem-skip_to c ms m (rw e at h))
]

mem-from_cursor :
    (c : Option Cursor) (ms : List ObjectMeta) (m : ObjectMeta)
    → Memᴰ m (from_cursor c ms)
    → Memᴰ m ms
unfolding from_cursor
mem-from_cursor none ms m h = h
mem-from_cursor (some c) ms m h = mem-skip_to c ms m h

-- Whatever the query says, an answer to a search has at most 200 objects, and each of them is the ref
-- of an entry that the index holds, of an object visible to the reader and of the type that was asked
-- for.
pub handle_list_objects-IsVisible :
    (lib : Library) (q : SearchQuery) (idx : Index) (s : Store)
    → (length (handle_list_objects lib q idx s).refs ≤ 200)
      × ((ref : Bytes)
          → Memᴰ ref (handle_list_objects lib q idx s).refs
          → (m : ObjectMeta) × (m.ref ≡ ref)
            × IsIndexed idx m
            × IsVisible idx q.auth_pubkey (asks_members_only q) m
            × Allows q.kind m.kind)
unfolding handle_list_objects paginate_and_load
handle_list_objects-IsVisible lib q idx s =
    let metas = get_all idx q.by q.kind q.auth_pubkey (asks_members_only q) in
    let limit = parse_limit lib q.limit 50 200 in
    let rest = from_cursor (parse_cursor lib q.cursor) metas in
    (
      omega (
        arith,
        length-loaded_refs s (page_metas limit rest),
        length-page_metas limit rest,
        (parse_limit-bounds lib q.limit 50 200 (omega arith) (omega arith)).1,
      ),
      λ ref h.
          let (m, there, same) = loaded_refs-IsListed s (page_metas limit rest) ref h in
          let found =
            mem-from_cursor (parse_cursor lib q.cursor) metas m
              (mem-page_metas limit rest m there) in
          let (v, a) =
            get_all-IsVisible idx q.auth_pubkey (asks_members_only q) m q.by q.kind found in
          (
            m,
            same,
            get_all-IsIndexed idx q.auth_pubkey (asks_members_only q) m q.by q.kind found,
            v,
            a,
          ),
    )
