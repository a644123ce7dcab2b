-- ===== src/Storage/Index/Meta.antt =====
-- storage/index.go: the metadata that `Update` leaves.
use dataverse_hub.Base.{ℕ, ◌≡◌, none, some, Bytes, ◌==◌, eq_iff, arith, if◌then◌else◌, Option-cases}
use dataverse_hub.Base.Dict.{lookup, lookup-insert, lookup-erase}
use dataverse_hub.External.{Library}
use dataverse_hub.Object.Types.{Item, ObjectMeta}
use dataverse_hub.Storage.Index.{Index, update, add_locked, remove_locked, meta_of, resolved_realms}
use dataverse_hub.Storage.Index.Queries.{get_meta}

get_meta-remove_locked :
    (ref s : Bytes) (idx : Index)
    → get_meta (remove_locked ref idx) s ≡ (if ref == s then none else get_meta idx s)
unfolding get_meta remove_locked
get_meta-remove_locked ref s idx = ground (
  arith,
  λ (m : ObjectMeta). lookup-erase ref s idx.meta,
  eq_iff ref s,
  Option-cases (lookup ref idx.meta),
)

-- `Update` sets the metadata of its ref and keeps the metadata of each other ref.
pub get_meta-update :
    (lib : Library) (ref s : Bytes) (item : Item) (ts : ℕ) (realms : _) (idx : Index)
    → get_meta (update lib ref item ts realms idx) s ≡ (
        if ref == s
        then some (meta_of lib ref item ts (resolved_realms item realms))
        else get_meta idx s)
unfolding get_meta update add_locked
get_meta-update lib ref s item ts realms idx = ground (
  arith,
  get_meta-remove_locked ref s idx,
  lookup-insert ref s (meta_of lib ref item ts (resolved_realms item realms))
      (remove_locked ref idx).meta,
)
