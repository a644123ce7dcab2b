-- ===== src/Storage/Store/Files.antt =====
-- storage/store.go: which files `Backup` and `Write` touch.
use dataverse_hub.Base.{
  ℕ, ◌≡◌, refl, sym, ◌∙◌, true, false, Option, none, some, Bytes, ◌==◌, eq_refl, arith, ℤ,
  Option-cases, inl, inr, ok, ◌≢◌,
}
use dataverse_hub.Base.Dict.{lookup, lookup-insert, lookup-erase}
use dataverse_hub.Storage.Store.{
  Store, File, BackupCall, WriteCall, create_temp, write_temp, sync_temp, close_temp, rename_temp,
  set_mtime, backup, backup_name, read, write, exists,
}

-- A write that returns no error makes the file readable with what was written.
pub read-write :
    (failing : Option WriteCall) (now : ℕ) (ref content : Bytes) (ts : ℕ) (s : Store)
    → (write failing now ref content ts s).0 ≡ none
    → read false ref (write failing now ref content ts s).1 ≡ ok (some content)
unfolding write read
read-write none now ref content ts s h = rw (lookup-insert ref ref, eq_refl ref)
read-write (some create_temp) now ref content ts s h = cc
read-write (some write_temp) now ref content ts s h = cc
read-write (some sync_temp) now ref content ts s h = cc
read-write (some close_temp) now ref content ts s h = cc
read-write (some rename_temp) now ref content ts s h = cc
read-write (some set_mtime) now ref content ts s h = cc

-- A write that fails before the time of the file is set changes nothing.
pub write-failed :
    (call : WriteCall) (now : ℕ) (ref content : Bytes) (ts : ℕ) (s : Store)
    → call ≢ set_mtime
    → write (some call) now ref content ts s ≡ (some call, s)
unfolding write
write-failed create_temp now ref content ts s n = refl
write-failed write_temp now ref content ts s n = refl
write-failed sync_temp now ref content ts s n = refl
write-failed close_temp now ref content ts s n = refl
write-failed rename_temp now ref content ts s n = refl
write-failed set_mtime now ref content ts s n = absurd (n refl)

-- A write of one ref leaves the file of another.
pub lookup-write_ne :
    (failing : Option WriteCall) (now : ℕ) (ref other content : Bytes) (ts : ℕ) (s : Store)
    → (ref == other) ≡ false
    → lookup other (write failing now ref content ts s).1.objects ≡ lookup other s.objects
unfolding write
lookup-write_ne none now ref other content ts s n = rw (lookup-insert ref other, n)
lookup-write_ne (some create_temp) now ref other content ts s n = refl
lookup-write_ne (some write_temp) now ref other content ts s n = refl
lookup-write_ne (some sync_temp) now ref other content ts s n = refl
lookup-write_ne (some close_temp) now ref other content ts s n = refl
lookup-write_ne (some rename_temp) now ref other content ts s n = refl
lookup-write_ne (some set_mtime) now ref other content ts s n = rw (lookup-insert ref other, n)

pub lookup-backup_ne :
    (failing : Option BackupCall) (ref other : Bytes) (revision : ℤ) (s : Store)
    → (ref == other) ≡ false
    → lookup other (backup failing ref revision s).1.objects ≡ lookup other s.objects
unfolding backup
lookup-backup_ne failing ref other revision s n =
    ground (arith, λ (f : File). lookup-erase ref other s.objects)

-- A backup that returns no error, of a file that exists, keeps the file under its revision and takes
-- it away from its own place.
pub backup-moves :
    (ref : Bytes) (revision : ℤ) (s : Store) (file : File)
    → s.backup_enabled ≡ true
    → lookup ref s.objects ≡ some file
    → (lookup ref (backup none ref revision s).1.objects ≡ none)
      × (lookup (backup_name ref revision) (backup none ref revision s).1.backups ≡ some file)
unfolding backup
backup-moves ref revision s file e h =
    rw (e, h)
      (
        rw (lookup-erase ref ref s.objects, eq_refl ref),
        rw (
          lookup-insert (backup_name ref revision) (backup_name ref revision),
          eq_refl (backup_name ref revision),
        ),
      )

pub read_of_missing :
    (ref : Bytes) (s : Store) → lookup ref s.objects ≡ none → read false ref s ≡ ok none
unfolding read
read_of_missing ref s h = rw h

pub exists_of_read :
    (ref content : Bytes) (s : Store) → read false ref s ≡ ok (some content) → exists ref s ≡ true
unfolding read exists
exists_of_read ref content s h = elim (Option-cases (lookup ref s.objects)) [
  | inl n ↦ absurd (ground (arith, sym (read_of_missing ref s n) ∙ h))
  | inr (f, e) ↦ rw e
]
