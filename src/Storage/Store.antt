-- ===== src/Storage/Store.antt =====
-- storage/store.go: the directory of objects. A file is found by the ref that its name has before
-- ".json", a backup by its name. Which call of the operating system fails is an argument.
pub mod Files
use dataverse_hub.Base.{
  ℕ, Bool, true, false, ◌||◌, not, Option, none, some, List, [], ◌∷◌, ◌++◌, Bytes, bytes,
  if◌then◌else◌, option_else, is_some, ℤ, itoa, Result, ok, err,
}
use dataverse_hub.Base.Affix.{has_prefix, has_suffix, trim_suffix}
use dataverse_hub.Base.Dict.{Dict, lookup, insert, erase}

pub record File : Type 0 where
  pub content : Bytes
  pub mtime : ℕ

pub record Store : Type 0 where
  pub backup_enabled : Bool
  pub objects : Dict File
  pub backups : Dict File

-- the calls of `Backup` and of `Write`, in their order
pub data BackupCall : Type 0 where
  make_dir rename_backup : BackupCall

pub data WriteCall : Type 0 where
  create_temp write_temp sync_temp close_temp rename_temp set_mtime : WriteCall

-- the name in bk/, without ".json"
abbrev pub backup_name : Bytes → ℤ → Bytes
backup_name ref revision = ref ++ (bytes ".r" ++ itoa revision)

-- `Backup`: the error, and the store after it. A failed os.Stat of a file that exists goes on.
unfoldable pub backup : Option BackupCall → Bytes → ℤ → Store → Option BackupCall × Store
backup failing ref revision s =
    if not s.backup_enabled
    then (none, s)
    else option_else (lookup ref s.objects) (none, s)
        λ file. elim failing [
          | some call ↦ (some call, s)
          | none ↦ (
            none,
            record s {
              objects = erase ref s.objects;
              backups = insert (backup_name ref revision) file s.backups;
            },
          )
        ]

-- `Read`; the first argument says that the read fails for another reason than a missing file
unfoldable pub read : Bool → Bytes → Store → Result Unit (Option Bytes)
read failing ref s =
    if failing
    then err tt
    else ok (option_else (lookup ref s.objects) none λ file. some file.content)

abbrev put_file : Bytes → Bytes → ℕ → Store → Store
put_file ref content ts s = record s {
  objects = insert ref (record { content = content; mtime = ts }) s.objects;
}

-- `Write`: the error, and the store after it; `now` is the time of the write. The temporary file is
-- removed on every return.
unfoldable pub write : Option WriteCall → ℕ → Bytes → Bytes → ℕ → Store → Option WriteCall × Store
write none now ref content ts s = (none, put_file ref content ts s)
write (some create_temp) now ref content ts s = (some create_temp, s)
write (some write_temp) now ref content ts s = (some write_temp, s)
write (some sync_temp) now ref content ts s = (some sync_temp, s)
write (some close_temp) now ref content ts s = (some close_temp, s)
write (some rename_temp) now ref content ts s = (some rename_temp, s)
write (some set_mtime) now ref content ts s = (some set_mtime, put_file ref content now s)

-- `Exists`, where os.Stat fails only on a missing file
unfoldable pub exists : Bytes → Store → Bool
exists ref s = is_some (lookup ref s.objects)

-- `NewStore` on an empty directory; `none` is that the directory cannot be made
abbrev pub new_store : Bool → Bool → Option Store
new_store make_fails backup_enabled =
    if make_fails
    then none
    else some (record { backup_enabled = backup_enabled; objects = []; backups = [] })

-- an entry of os.ReadDir
pub record DirEntry : Type 0 where
  pub name : Bytes
  pub is_dir : Bool

-- the loop of `Scan`
unfoldable pub scan_entries : List DirEntry → List Bytes
scan_entries [] = []
scan_entries (e ∷ entries) =
    let rest = scan_entries entries in
    if e.is_dir || not (has_suffix e.name (bytes ".json")) || has_prefix e.name (bytes ".")
    then rest
    else trim_suffix e.name (bytes ".json") ∷ rest

-- `Scan`, of what os.ReadDir gives
abbrev pub scan : Option (List DirEntry) → Option (List Bytes)
scan entries = option_else entries none λ es. some (scan_entries es)
