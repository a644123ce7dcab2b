-- ===== src/Serving/Put/Stored.antt =====
-- serving/handlers.go: what a PUT that went through has stored, under the lock of its ref.
use dataverse_hub.Base.{
  ◌≡◌, ap, ◌∙◌, false, not, none, some, [], ◌∷◌, eq_refl, option_else-inv_none, is_some, ◌<ℤ◌, ok,
}
use dataverse_hub.External.{Library}
use dataverse_hub.Object.Types.{ObjectMeta}
use dataverse_hub.Storage.Store.{read, write}
use dataverse_hub.Storage.Store.Files.{read-write}
use dataverse_hub.Storage.Index.{meta_of, resolved_realms}
use dataverse_hub.Storage.Index.Meta.{get_meta-update}
use dataverse_hub.Storage.Index.Queries.{get_meta}
use dataverse_hub.Serving.Precondition.{check_conditional_write}
use dataverse_hub.Serving.Precondition.Laws.{check_conditional_write_iff}
use dataverse_hub.Serving.Put.{
  Hub, PutRequest, PutEnv, PutReply, Admitted, commit, commit_hub, commit_reply, backed_up,
}

-- A write under the lock that replies without error passed the precondition and was written.
pub commit-inv :
    (lib : Library) (env : PutEnv) (req : PutRequest) (a : Admitted) (hub hub' : Hub)
    (reply : PutReply)
    → commit lib env req a hub ≡ (ok reply, hub')
    → (check_conditional_write req.if_match (get_meta hub.index req.ref) a.item.revision ≡ none)
      × ((write env.write_failing env.now req.ref a.canonical a.ts
            (backed_up lib env req.ref hub)).0
          ≡ none)
      × (reply ≡ commit_reply lib hub req.ref a)
      × (hub' ≡ commit_hub lib env req.ref a hub)
unfolding commit
commit-inv lib env req a hub hub' reply h =
    let (n, k) =
      option_else-inv_none
        (check_conditional_write req.if_match (get_meta hub.index req.ref) a.item.revision) _ _ h
        (λ c e. cc) in
    let (w, j) =
      option_else-inv_none
        (write env.write_failing env.now req.ref a.canonical a.ts (backed_up lib env req.ref hub)).0
        _ _ k (λ c e. cc) in
    (n, w, cc, cc)

-- A PUT that went through has made the object of its ref the one that it carried: a read returns the
-- canonical body that is replied, the index has the metadata of the new item, the new revision is
-- larger than the one that was there, and the reply says 201 exactly if there was none.
pub commit-stored :
    (lib : Library) (env : PutEnv) (req : PutRequest) (a : Admitted) (hub hub' : Hub)
    (reply : PutReply)
    → commit lib env req a hub ≡ (ok reply, hub')
    → (read false req.ref hub'.store ≡ ok (some reply.body))
      × (reply.body ≡ a.canonical)
      × (get_meta hub'.index req.ref
          ≡ some (meta_of lib req.ref a.item a.ts (resolved_realms a.item (a.realms ∷ []))))
      × ((m : ObjectMeta) → get_meta hub.index req.ref ≡ some m → m.revision <ℤ a.item.revision)
      × (reply.created ≡ not (is_some (get_meta hub.index req.ref)))
unfolding commit_reply commit_hub
commit-stored lib env req a hub hub' reply h =
    let (n, w, r, e) = commit-inv lib env req a hub hub' reply h in
    (
      rw (r, e)
          (read-write env.write_failing env.now req.ref a.canonical a.ts
            (backed_up lib env req.ref hub) w),
      ap (λ (x : PutReply). x.body) r,
      ap (λ (x : Hub). get_meta x.index req.ref) e
          ∙ get_meta-update lib req.ref req.ref a.item a.ts (a.realms ∷ []) hub.index
          ∙ rw (eq_refl req.ref),
      ((check_conditional_write_iff req.if_match (get_meta hub.index req.ref) a.item.revision).0
          n).1,
      ap (λ (x : PutReply). x.created) r,
    )
