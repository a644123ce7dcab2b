-- ===== src/Serving/Paginate.antt =====
-- serving/paginate.go: `paginateAndLoad`, but for the bytes of the items: the refs that it returns,
-- the next cursor before its encoding, and whether there is more.
pub mod Follow
pub mod Sorted
use dataverse_hub.Base.{
  ℕ, Bool, true, false, ◌&&◌, ◌||◌, Option, none, some, List, [], ◌∷◌, Bytes, str_lt, ltb, eqb,
  length, take, if◌then◌else◌, option_else, is_some,
}
use dataverse_hub.Base.Dict.{lookup}
use dataverse_hub.Object.Types.{ObjectMeta, Cursor}
use dataverse_hub.Storage.Store.{Store, exists}

-- the test that ends the loop over the cursor
unfoldable pub is_after : Cursor → ObjectMeta → Bool
is_after c m = ltb m.updated_at c.t || (eqb m.updated_at c.t && str_lt m.ref c.ref)

unfoldable pub skip_to : Cursor → List ObjectMeta → List ObjectMeta
unfolding is_after
skip_to c [] = []
skip_to c (m ∷ ms) = if is_after c m then m ∷ ms else skip_to c ms

-- the metas from the cursor on
unfoldable pub from_cursor : Option Cursor → List ObjectMeta → List ObjectMeta
unfolding skip_to
from_cursor none ms = ms
from_cursor (some c) ms = skip_to c ms

unfoldable pub page_metas : ℕ → List ObjectMeta → List ObjectMeta
page_metas limit ms = if ltb limit (length ms) then take limit ms else ms

-- `metas[len(metas)-1]`
unfoldable pub last_meta : List ObjectMeta → Option ObjectMeta
last_meta [] = none
last_meta (m ∷ []) = some m
last_meta (m ∷ (n ∷ ms)) = last_meta (n ∷ ms)

abbrev pub cursor_of : ObjectMeta → Cursor
cursor_of m = record { t = m.updated_at; ref = m.ref }

unfoldable pub next_cursor : ℕ → List ObjectMeta → Option Cursor
unfolding page_metas last_meta
next_cursor limit ms =
    if ltb limit (length ms)
    then (option_else (last_meta (page_metas limit ms)) none λ m. some (cursor_of m))
    else none

-- the loop that loads, where a read fails only on a missing file
unfoldable pub loaded_refs : Store → List ObjectMeta → List Bytes
unfolding exists
loaded_refs s [] = []
loaded_refs s (m ∷ ms) = if exists m.ref s then m.ref ∷ loaded_refs s ms else loaded_refs s ms

pub record Page : Type 0 where
  pub refs : List Bytes
  pub next : Option Cursor
  pub has_more : Bool

-- `paginateAndLoad`
unfoldable pub paginate_and_load : Store → List ObjectMeta → Option Cursor → ℕ → Page
paginate_and_load s metas cursor limit =
    let rest = from_cursor cursor metas in
    record {
      refs = loaded_refs s (page_metas limit rest);
      next = next_cursor limit rest;
      has_more = ltb limit (length rest);
    }
