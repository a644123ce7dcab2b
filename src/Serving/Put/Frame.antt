-- ===== src/Serving/Put/Frame.antt =====
-- serving/handlers.go: what a PUT leaves alone, and what is left when the write to disk fails.
use dataverse_hub.Base.{
  ◌≡◌, refl, ◌∙◌, false, [], ◌∷◌, Bytes, ◌==◌, eq_iff, arith, option_else_ind, Result, ok, err, ◌≢◌,
}
use dataverse_hub.Base.Dict.{lookup}
use dataverse_hub.External.{Library}
use dataverse_hub.Storage.Store.{Store, write}
use dataverse_hub.Storage.Store.Files.{lookup-write_ne, lookup-backup_ne}
use dataverse_hub.Storage.Index.Meta.{get_meta-update}
use dataverse_hub.Storage.Index.Queries.{get_meta}
use dataverse_hub.Serving.Precondition.{check_conditional_write}
use dataverse_hub.Serving.Put.{
  Hub, PutRequest, PutEnv, PutError, PutReply, Admitted, write_failed, admit, commit, commit_hub,
  commit_admitted, backed_up, handle_put_object,
}

abbrev KeepsRejected : Hub → Result PutError PutReply × Hub → Type 0
KeepsRejected hub x = (e : PutError) → x.0 ≡ err e → e ≢ write_failed → x.1 ≡ hub

commit_admitted-rejected :
    (lib : Library) (env : PutEnv) (req : PutRequest) (hub : Hub)
    (admitted : Result PutError Admitted)
    → KeepsRejected hub (commit_admitted lib env req hub admitted)
unfolding commit_admitted commit
commit_admitted-rejected lib env req hub (err x) = λ e h n. refl
commit_admitted-rejected lib env req hub (ok a) =
    option_else_ind (KeepsRejected hub)
      (check_conditional_write req.if_match (get_meta hub.index req.ref) a.item.revision) _ _
      (λ passed.
        option_else_ind (KeepsRejected hub)
          (write env.write_failing env.now req.ref a.canonical a.ts
            (backed_up lib env req.ref hub)).0
          _ _ (λ stored e h n. absurd (cc)) (λ call e h n. absurd (n (cc))))
      (λ c e h n. refl)

-- A rejected PUT changes nothing, unless the write to disk failed.
pub handle_put_object-rejected :
    (lib : Library) (env : PutEnv) (req : PutRequest) (hub : Hub) (e : PutError)
    → (handle_put_object lib env req hub).0 ≡ err e
    → e ≢ write_failed
    → (handle_put_object lib env req hub).1 ≡ hub
unfolding handle_put_object
handle_put_object-rejected lib env req hub =
    commit_admitted-rejected lib env req hub (admit lib hub.index req)

abbrev KeepsOther : Hub → Bytes → Result PutError PutReply × Hub → Type 0
KeepsOther hub other x =
    (lookup other x.1.store.objects ≡ lookup other hub.store.objects)
    × (get_meta x.1.index other ≡ get_meta hub.index other)

lookup-backed_up_ne :
    (lib : Library) (env : PutEnv) (ref other : Bytes) (hub : Hub)
    → (ref == other) ≡ false
    → lookup other (backed_up lib env ref hub).objects ≡ lookup other hub.store.objects
unfolding backed_up
lookup-backed_up_ne lib env ref other hub n =
    option_else_ind (λ (s : Store). lookup other s.objects ≡ lookup other hub.store.objects)
      (get_meta hub.index ref) _ _ (λ fresh. refl)
      λ m. lookup-backup_ne env.backup_failing ref other m.revision hub.store n

commit_admitted-keeps_others :
    (lib : Library) (env : PutEnv) (req : PutRequest) (hub : Hub) (other : Bytes)
    (admitted : Result PutError Admitted)
    → (req.ref == other) ≡ false
    → KeepsOther hub other (commit_admitted lib env req hub admitted)
unfolding commit_admitted commit commit_hub
commit_admitted-keeps_others lib env req hub other (err x) n = (refl, refl)
commit_admitted-keeps_others lib env req hub other (ok a) n =
    let files =
      lookup-write_ne env.write_failing env.now req.ref other a.canonical a.ts
        (backed_up lib env req.ref hub) n
      ∙ lookup-backed_up_ne lib env req.ref other hub n in
    option_else_ind (KeepsOther hub other)
      (check_conditional_write req.if_match (get_meta hub.index req.ref) a.item.revision) _ _
      (λ passed.
        option_else_ind (KeepsOther hub other)
          (write env.write_failing env.now req.ref a.canonical a.ts
            (backed_up lib env req.ref hub)).0
          _ _
          (λ stored.
            (files, get_meta-update lib req.ref other a.item a.ts (a.realms ∷ []) hub.index ∙ rw n))
          (λ call. (files, refl)))
      (λ c. (refl, refl))

-- A PUT of one ref, however it ends, leaves the file and the metadata of each other ref.
pub handle_put_object-keeps_others :
    (lib : Library) (env : PutEnv) (req : PutRequest) (hub : Hub) (other : Bytes)
    → req.ref ≢ other
    → (lookup other (handle_put_object lib env req hub).1.store.objects
        ≡ lookup other hub.store.objects)
      × (get_meta (handle_put_object lib env req hub).1.index other ≡ get_meta hub.index other)
unfolding handle_put_object
handle_put_object-keeps_others lib env req hub other n =
    commit_admitted-keeps_others lib env req hub other (admit lib hub.index req)
      (ground (arith, eq_iff req.ref other))
