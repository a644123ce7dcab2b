-- ===== src/Serving/Projection/FailClosed.antt =====
-- serving/projection.go: what a reader who is refused sees, and when /raw gives out the HTML of a page.
use dataverse_hub.Base.{◌≡◌, refl, Bool, true, false, some, arith, Bool-cases, inl, inr}
use dataverse_hub.External.{Library}
use dataverse_hub.Object.Types.{ObjectMeta}
use dataverse_hub.Serving.Selection.{as_json, as_blob, as_html}
use dataverse_hub.Serving.Get.{
  Frontend, GetEnv, GetRequest, GetReply, failed, object_not_found, redirected, not_modified,
  answered, login_page,
}
use dataverse_hub.Serving.Projection.{
  is_refused, serve_json_for_ref, serve_raw_for_ref, serve_page_for_ref,
}
use dataverse_hub.Realm.Access.{can_read}
use dataverse_hub.Realm.Access.Laws.{MayRead, can_read_iff}
use dataverse_hub.Storage.Index.{Index, resolver}
use dataverse_hub.Storage.Index.Queries.{get_meta}

-- The access test refuses a reader whom no realm lets in.
is_refused-barred :
    (q : GetRequest) (idx : Index) (meta : ObjectMeta)
    → get_meta idx q.ref ≡ some meta
    → meta.is_public ≡ false
    → ¬ MayRead meta.realms q.auth_pubkey (some (resolver idx))
    → is_refused q idx q.ref ≡ true
unfolding is_refused
is_refused-barred q idx meta found private barred =
    elim (Bool-cases (can_read meta.realms q.auth_pubkey (some (resolver idx)))) [
      | inl e ↦ absurd (barred ((can_read_iff meta.realms q.auth_pubkey (some (resolver idx))).0 e))
      | inr e ↦ rw (found, private, e) refl
    ]

-- The three projections answer a GET of an object that the index has as not public, by a reader whom
-- no realm of the object lets in, with the 404 of a missing object: no redirect, no ETag, whatever the
-- store, the cached copies and the hosts are.
pub projections-refused :
    (lib : Library) (env : GetEnv) (q : GetRequest) (hub : Frontend) (meta : ObjectMeta)
    → get_meta hub.index q.ref ≡ some meta
    → meta.is_public ≡ false
    → ¬ MayRead meta.realms q.auth_pubkey (some (resolver hub.index))
    → (serve_json_for_ref lib env q hub ≡ (failed object_not_found, hub.vhost))
      × (serve_raw_for_ref lib env q hub ≡ (failed object_not_found, hub.vhost))
      × (serve_page_for_ref lib env q hub ≡ (failed object_not_found, hub.vhost))
unfolding serve_json_for_ref serve_raw_for_ref serve_page_for_ref
projections-refused lib env q hub meta found private barred =
    let h = is_refused-barred q hub.index meta found private barred in
    (ground (arith, h), ground (arith, h), ground (arith, h))

-- The reply is the HTML of a page, the `content.html` of a parsed object. The bytes of a BLOB are not
-- meant here, whatever media type the BLOB names, text/html included.
abbrev pub gives_page : GetReply → Bool
gives_page (answered etag is_private (as_html v) content) = true
gives_page (answered etag is_private as_json content) = false
gives_page (answered etag is_private (as_blob mime raw) content) = false
gives_page (failed e) = false
gives_page (redirected target) = false
gives_page (not_modified etag) = false
gives_page login_page = false
