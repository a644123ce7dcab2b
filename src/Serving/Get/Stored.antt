-- ===== src/Serving/Get/Stored.antt =====
-- serving/handlers.go: what a PUT has stored is what a GET shows.
use dataverse_hub.Base.{
  ◌≡◌, refl, sym, ap, subst, ◌∙◌, true, false, Option, none, some, [], ◌∷◌, Bytes, ok,
}
use dataverse_hub.External.{Library}
use dataverse_hub.Object.Types.{Envelope, Item, ObjectMeta}
use dataverse_hub.Object.Verify.{parse_envelope}
use dataverse_hub.Realm.Access.{can_read}
use dataverse_hub.Serving.Representation.{blob_content}
use dataverse_hub.Serving.Selection.{as_json}
use dataverse_hub.Serving.Put.{Hub, PutRequest, PutEnv, PutReply, Admitted, commit, commit_reply}
use dataverse_hub.Serving.Put.Stored.{commit-inv, commit-stored}
use dataverse_hub.Storage.Index.{resolver, meta_of, resolved_realms}
use dataverse_hub.Storage.Index.Queries.{get_meta}
use dataverse_hub.Storage.Store.{read}
use dataverse_hub.Vhost.Resolver.{Resolver}
use dataverse_hub.Serving.Get.{Frontend, GetEnv, GetRequest, answered, handle_get_object}
use dataverse_hub.Serving.Get.Unindexed.{IsPlain, json_answer, serve_stored-json, get_indexed-json}

handle_get_object-json :
    (lib : Library) (env : GetEnv) (q : GetRequest) (front : Frontend) (meta : ObjectMeta)
    (content : Bytes) (p : Envelope × Item)
    → IsPlain env q
    → get_meta front.index q.ref ≡ some meta
    → can_read meta.realms q.auth_pubkey (some (resolver front.index)) ≡ true
    → read false q.ref front.store ≡ ok (some content)
    → parse_envelope lib content ≡ some p
    → blob_content lib content ≡ none
    → (handle_get_object lib env q front).0 ≡ json_answer p.1.revision content
unfolding handle_get_object
handle_get_object-json lib env q front meta content p plain m c r e b =
    rw
      (
        plain.valid,
        m,
        get_indexed-json lib env q front meta plain c,
        serve_stored-json lib env q front content p plain r e b,
      )
      refl

-- the metadata that the index has after a PUT
abbrev pub meta_after : Library → PutRequest → Admitted → ObjectMeta
meta_after lib req a = meta_of lib req.ref a.item a.ts (resolved_realms a.item (a.realms ∷ []))

-- After a PUT that went through, a GET of the same ref by a reader who may read it answers with the
-- body and the ETag that the PUT has replied. The client asks for the JSON and has no copy, the reads
-- do not fail, the canonical body parses to the item of the request, and the object is no BLOB.
pub handle_get_object-commit :
    (lib : Library) (put_env : PutEnv) (req : PutRequest) (a : Admitted) (hub hub' : Hub)
    (reply : PutReply) (env : GetEnv) (q : GetRequest) (default_viewer_ref vhost_mode : Bytes)
    (vhost : Option Resolver) (e : Envelope)
    → commit lib put_env req a hub ≡ (ok reply, hub')
    → IsPlain env q
    → q.ref ≡ req.ref
    → can_read (meta_after lib req a).realms q.auth_pubkey (some (resolver hub'.index)) ≡ true
    → parse_envelope lib a.canonical ≡ some (e, a.item)
    → blob_content lib a.canonical ≡ none
    → (handle_get_object lib env q (record {
      store = hub'.store;
      index = hub'.index;
      default_viewer_ref = default_viewer_ref;
      vhost = vhost;
      vhost_mode = vhost_mode;
    })).0
      ≡ answered (some reply.etag) false as_json reply.body
unfolding commit_reply
handle_get_object-commit lib put_env req a hub hub' reply env q default_viewer_ref vhost_mode vhost
      e h plain at c parsed b =
    let (stored, body, meta, _, _) = commit-stored lib put_env req a hub hub' reply h in
    let (_, _, r, _) = commit-inv lib put_env req a hub hub' reply h in
    handle_get_object-json lib env q _ (meta_after lib req a) a.canonical (e, a.item) plain
      (subst (λ ref. get_meta hub'.index ref ≡ some (meta_after lib req a)) (sym at) meta) c
      (subst (λ ref. read false ref hub'.store ≡ ok (some a.canonical)) (sym at)
        (stored ∙ ap (λ x. ok (some x)) body))
      parsed b
    ∙ ap (λ (x : PutReply). answered (some x.etag) false as_json x.body) (sym r)
