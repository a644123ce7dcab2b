-- ===== src/Serving/Get/Unindexed.antt =====
-- serving/handlers.go: what GET answers about a stored object to a client that asks for JSON.
use dataverse_hub.Base.{
  ℕ, ◌≡◌, refl, sym, subst, true, false, none, some, [], Bytes, bytes, ◌==◌, eq_refl, arith, ℤ, ok,
}
use dataverse_hub.External.{Library}
use dataverse_hub.Object.Ref.{is_valid_ref}
use dataverse_hub.Object.Types.{Envelope, Item, ObjectMeta}
use dataverse_hub.Object.Verify.{parse_envelope}
use dataverse_hub.Realm.Access.{can_read}
use dataverse_hub.Serving.Precondition.{revision_etag}
use dataverse_hub.Serving.Representation.{accepts_html, blob_content}
use dataverse_hub.Serving.Selection.{
  as_json, etag_text, representation_etag, indexed_validator, select_negotiated, select_default,
  select_blob,
}
use dataverse_hub.Storage.Index.{resolver}
use dataverse_hub.Storage.Index.Queries.{get_meta}
use dataverse_hub.Storage.Store.{Store, read, write}
use dataverse_hub.Storage.Store.Files.{read-write}
use dataverse_hub.Serving.Get.{
  Frontend, GetEnv, GetRequest, GetReply, answered, viewer_resolver, serve_object, serve_stored,
  get_indexed, handle_get_object,
}

-- A request for the JSON of a valid ref, by a client without a copy, whose reads do not fail.
pub record IsPlain (env : GetEnv) (q : GetRequest) : Type 0 where
  pub valid : is_valid_ref q.ref ≡ true
  pub no_html : accepts_html q.accept ≡ false
  pub no_copy : q.if_none_match ≡ []
  pub reads : env.read_fails q.ref ≡ false

-- the answer with the JSON of an object
abbrev pub json_answer : ℤ → Bytes → GetReply
json_answer revision content = answered (some (revision_etag revision)) false as_json content

no_copy-etag : (revision : ℤ) (suffix : Bytes) → ([] == etag_text revision suffix) ≡ false
unfolding ◌==◌
no_copy-etag revision suffix = refl

select_negotiated-json :
    (lib : Library) (env : GetEnv) (q : GetRequest) (hub : Frontend) (content : Bytes)
    → accepts_html q.accept ≡ false
    → blob_content lib content ≡ none
    → select_negotiated lib (viewer_resolver lib env q hub content) hub.default_viewer_ref q.accept
      ≡ as_json
unfolding select_negotiated select_blob select_default
select_negotiated-json lib env q hub content a b = rw (a, b) refl

serve_object-json :
    (lib : Library) (env : GetEnv) (q : GetRequest) (hub : Frontend) (content : Bytes)
    (p : Envelope × Item)
    → IsPlain env q
    → parse_envelope lib content ≡ some p
    → blob_content lib content ≡ none
    → serve_object lib env q hub content ≡ (json_answer p.1.revision content, hub.vhost)
unfolding serve_object representation_etag revision_etag
serve_object-json lib env q hub content p plain e b =
    rw (e, select_negotiated-json lib env q hub content plain.no_html b, plain.no_copy)
      (rw (eq_refl [], no_copy-etag p.1.revision []) refl)

pub serve_stored-json :
    (lib : Library) (env : GetEnv) (q : GetRequest) (hub : Frontend) (content : Bytes)
    (p : Envelope × Item)
    → IsPlain env q
    → read false q.ref hub.store ≡ ok (some content)
    → parse_envelope lib content ≡ some p
    → blob_content lib content ≡ none
    → serve_stored lib env q hub ≡ (json_answer p.1.revision content, hub.vhost)
unfolding serve_stored
serve_stored-json lib env q hub content p plain r e b =
    rw (serve_stored, plain.reads, r) (serve_object-json lib env q hub content p plain e b)

pub get_indexed-json :
    (lib : Library) (env : GetEnv) (q : GetRequest) (hub : Frontend) (meta : ObjectMeta)
    → IsPlain env q
    → can_read meta.realms q.auth_pubkey (some (resolver hub.index)) ≡ true
    → get_indexed lib env q hub meta ≡ serve_stored lib env q hub
unfolding get_indexed indexed_validator
get_indexed-json lib env q hub meta plain c =
    simp (c, plain.no_html, plain.no_copy)
      (ground (arith, no_copy-etag meta.revision [], no_copy-etag meta.revision (bytes "-blob")))

read_written :
    (now : ℕ) (ref content : Bytes) (ts : ℕ) (s : Store)
    → read false ref (write none now ref content ts s).1 ≡ ok (some content)
unfolding write
read_written now ref content ts s = read-write none now ref content ts s refl

-- A file that is not in the index is shown to everybody, also to a client without a session and
-- whatever its realms are: for a new object, between the write of its file and the update of the
-- index. The client asks for the JSON, and the object is no BLOB.
pub handle_get_object-unindexed :
    (lib : Library) (env : GetEnv) (q : GetRequest) (hub : Frontend) (p : Envelope × Item) (now : ℕ)
    (content : Bytes) (ts : ℕ) (before : Store)
    → IsPlain env q
    → get_meta hub.index q.ref ≡ none
    → hub.store ≡ (write none now q.ref content ts before).1
    → parse_envelope lib content ≡ some p
    → blob_content lib content ≡ none
    → (handle_get_object lib env q hub).0 ≡ json_answer p.1.revision content
unfolding handle_get_object
handle_get_object-unindexed lib env q hub p now content ts before plain n w e b =
    rw
      (
        plain.valid,
        n,
        serve_stored-json lib env q hub content p plain
            (subst (λ st. read false q.ref st ≡ ok (some content)) (sym w)
              (read_written now q.ref content ts before))
            e b,
      )
      refl
