-- ===== src/Storage/Conflict.antt =====
-- storage/conflict.go: edits that are kept outside the index. A directory is a map from the name of
-- a file to its content; which calls of the operating system fail is an argument.
pub mod Laws
use dataverse_hub.Base.{
  Bool, true, false, ◌||◌, not, Option, none, some, ◌++◌, Bytes, bytes, ◌==◌, if◌then◌else◌,
  option_else, Result, ok, err,
}
use dataverse_hub.Base.Dict.{Dict, lookup, insert}
use dataverse_hub.External.{Library}
use dataverse_hub.Realm.RealmId.{hex_text}

-- the calls of `PreserveConflict`, in their order; a link that fails since the file exists is no
-- failure here
pub data ConflictCall : Type 0 where
  make_conflict_dir create_conflict write_conflict sync_conflict close_conflict : ConflictCall
  link_conflict read_saved open_conflict_dir sync_conflict_dir : ConflictCall

-- "%x.json" of the hash
abbrev pub conflict_name : Library → Bytes → Bytes
conflict_name lib content = hex_text (lib.sha256 content) ++ bytes ".json"

-- a call before os.Link fails
abbrev fails_early : (ConflictCall → Bool) → Bool
fails_early failing =
    failing make_conflict_dir
    || failing create_conflict
    || failing write_conflict
    || failing sync_conflict
    || failing close_conflict

-- from os.Open on: the error, or the path
abbrev publish : (ConflictCall → Bool) → Bytes → Result Unit Bytes
publish failing name =
    if failing open_conflict_dir || failing sync_conflict_dir then err tt else ok name

-- `PreserveConflict`: the name of the file or an error, and the directory after it. The temporary
-- file is removed on every return.
unfoldable pub preserve_conflict :
    Library → (ConflictCall → Bool) → Bytes → Dict Bytes → Result Unit Bytes × Dict Bytes
preserve_conflict lib failing content dir =
    if fails_early failing
    then (err tt, dir)
    else if failing link_conflict
    then (err tt, dir)
    else option_else (lookup (conflict_name lib content) dir)
        (
          publish failing (conflict_name lib content),
          insert (conflict_name lib content) content dir,
        )
        λ saved.
          if failing read_saved
          then (err tt, dir)
          else if not (saved == content)
          then (err tt, dir)
          else (publish failing (conflict_name lib content), dir)
