-- ===== src/Serving/Put/Backed.antt =====
-- serving/handlers.go: whether an indexed object has its file. `handlePutObject` moves the old file to
-- bk/ before it writes the new one, and returns on a failed write with the index as it was.
use dataverse_hub.Base.{
  ℕ, ◌≡◌, refl, ap, sym, subst, ◌∙◌, true, false, Option, none, some, Bytes, ◌==◌, eq_iff, arith,
  option_else_ind, is_some, Bool-cases, Result-cases, inl, inr, Result, ok, err, ◌≢◌,
}
use dataverse_hub.Base.Dict.{lookup}
use dataverse_hub.External.{Library}
use dataverse_hub.Object.Types.{ObjectMeta}
use dataverse_hub.Storage.Store.{
  Store, File, WriteCall, set_mtime, backup, backup_name, read, write, exists,
}
use dataverse_hub.Storage.Store.Files.{
  read-write, backup-moves, write-failed, read_of_missing, exists_of_read,
}
use dataverse_hub.Storage.Index.Queries.{get_meta}
use dataverse_hub.Serving.Precondition.{check_conditional_write}
use dataverse_hub.Serving.Put.{
  Hub, PutRequest, PutEnv, PutError, PutReply, Admitted, write_failed, admit, commit, commit_hub,
  commit_admitted, backed_up, handle_put_object,
}
use dataverse_hub.Serving.Put.Frame.{handle_put_object-keeps_others, handle_put_object-rejected}

-- Every object of the index has a file.
pub record IsBacked (hub : Hub) : Type 0 where
  pub backed : (ref : Bytes) → is_some (get_meta hub.index ref) ≡ true → exists ref hub.store ≡ true

abbrev KeepsFile : Bytes → Result PutError PutReply × Hub → Type 0
KeepsFile ref x = (r : PutReply) → x.0 ≡ ok r → exists ref x.1.store ≡ true

exists-write :
    (failing : Option WriteCall) (now : ℕ) (ref content : Bytes) (ts : ℕ) (s : Store)
    → (write failing now ref content ts s).0 ≡ none
    → exists ref (write failing now ref content ts s).1 ≡ true
exists-write failing now ref content ts s h =
    exists_of_read ref content _ (read-write failing now ref content ts s h)

-- A write that fails after the backup leaves an object that the index knows, of the revision that it
-- had, and that a read does not find: its file is in bk/ only.
pub commit-loses_file :
    (lib : Library) (env : PutEnv) (req : PutRequest) (a : Admitted) (hub : Hub) (m : ObjectMeta)
    (file : File) (call : WriteCall)
    → check_conditional_write req.if_match (get_meta hub.index req.ref) a.item.revision ≡ none
    → get_meta hub.index req.ref ≡ some m
    → lookup req.ref hub.store.objects ≡ some file
    → hub.store.backup_enabled ≡ true
    → env.backup_failing ≡ none
    → env.write_failing ≡ some call
    → call ≢ set_mtime
    → ((commit lib env req a hub).0 ≡ err write_failed)
      × (get_meta (commit lib env req a hub).1.index req.ref ≡ some m)
      × (read false req.ref (commit lib env req a hub).1.store ≡ ok none)
      × (lookup (backup_name req.ref m.revision) (commit lib env req a hub).1.store.backups
          ≡ some file)
unfolding commit backed_up
commit-loses_file lib env req a hub m file call c g f e b w n =
    let moved = backup-moves req.ref m.revision hub.store file e f in
    rw
      (
        c,
        g,
        b,
        w,
        write-failed call env.now req.ref a.canonical a.ts
            (backup none req.ref m.revision hub.store).1 n,
      )
      (refl, g, read_of_missing req.ref _ moved.0, moved.1)

commit_admitted-backed :
    (lib : Library) (env : PutEnv) (req : PutRequest) (hub : Hub)
    (admitted : Result PutError Admitted)
    → KeepsFile req.ref (commit_admitted lib env req hub admitted)
unfolding commit_admitted commit commit_hub
commit_admitted-backed lib env req hub (err x) = λ r h. absurd (cc)
commit_admitted-backed lib env req hub (ok a) =
    option_else_ind (KeepsFile req.ref)
      (check_conditional_write req.if_match (get_meta hub.index req.ref) a.item.revision) _ _
      (λ passed.
        option_else_ind (KeepsFile req.ref)
          (write env.write_failing env.now req.ref a.canonical a.ts
            (backed_up lib env req.ref hub)).0
          _ _
          (λ stored r h.
            exists-write env.write_failing env.now req.ref a.canonical a.ts
              (backed_up lib env req.ref hub) stored)
          (λ call r h. absurd (cc)))
      (λ c r h. absurd (cc))

handle_put_object-file :
    (lib : Library) (env : PutEnv) (req : PutRequest) (hub : Hub)
    → KeepsFile req.ref (handle_put_object lib env req hub)
unfolding handle_put_object
handle_put_object-file lib env req hub =
    commit_admitted-backed lib env req hub (admit lib hub.index req)

-- If every object of the index has its file, this is so after a PUT, unless its write to disk failed.
pub handle_put_object-IsBacked :
    (lib : Library) (env : PutEnv) (req : PutRequest) (hub : Hub)
    → IsBacked hub
    → (handle_put_object lib env req hub).0 ≢ err write_failed
    → IsBacked (handle_put_object lib env req hub).1
unfolding exists
handle_put_object-IsBacked lib env req hub h n =
    elim (Result-cases (handle_put_object lib env req hub).0) [
      | inr (e, q) ↦ rw (handle_put_object-rejected lib env req hub e q λ p. n (q ∙ ap err p)) h
      | inl (r, q) ↦
          let file = handle_put_object-file lib env req hub in
          record {
            backed = λ ref k. elim (Bool-cases (req.ref == ref)) [
              | inl s ↦
                  subst (λ x. exists x (handle_put_object lib env req hub).1.store ≡ true)
                    ((eq_iff req.ref ref).0 s) (file r q)
              | inr s ↦
                  let (files, metas) =
                    handle_put_object-keeps_others lib env req hub ref
                      (ground (arith, eq_iff req.ref ref)) in
                  ap is_some files ∙ h.backed ref (ap is_some (sym metas) ∙ k)
            ];
          }
    ]
