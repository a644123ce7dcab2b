-- ===== src/Serving/Projection.antt =====
-- serving/projection.go: the paths /json, /raw and /page of an object and of the root of a host.
pub mod FailClosed
use dataverse_hub.Base.{
  ℕ, Bool, true, false, ◌&&◌, ◌||◌, not, Option, none, some, List, [], ◌∷◌, ◌++◌, Bytes, bytes,
  ◌==◌, if◌then◌else◌, option_else, Result, ok, err,
}
use dataverse_hub.External.{Library}
use dataverse_hub.Object.Ref.{is_valid_ref}
use dataverse_hub.Object.Types.{ObjectMeta}
use dataverse_hub.Object.Verify.{parse_envelope}
use dataverse_hub.Realm.Access.{can_read}
use dataverse_hub.Serving.Representation.{extract_html, blob_raw, page_own_html}
use dataverse_hub.Serving.Viewer.{ViewerResolution, no_viewer, viewer_inline}
use dataverse_hub.Serving.Selection.{
  Representation, as_json, as_blob, as_html, etag_text, representation_etag, select_page,
}
use dataverse_hub.Serving.Get.{
  Frontend, GetEnv, GetRequest, GetError, GetReply, object_not_found, internal_error, unknown_host,
  no_root_object, no_raw, no_page, failed, redirected, not_modified, answered, answer, is_private,
  isolated_page_ref, viewer_resolver, moved,
}
use dataverse_hub.Storage.Index.{Index, resolver}
use dataverse_hub.Storage.Index.Queries.{get_meta, get_all}
use dataverse_hub.Storage.Store.{read}
use dataverse_hub.Vhost.Resolver.{Resolver, resolve}
use dataverse_hub.Vhost.Mode.{
  VhostMode, redirect, off, isolate, normalize_vhost_mode, base_host_matches, vhost_redirect,
  page_redirect_target_path,
}

-- `rawETagSuffix`
unfoldable pub raw_etag_suffix : ObjectMeta → Option Bytes
raw_etag_suffix meta =
    if meta.kind == bytes "BLOB" && not (meta.mime_type == [])
    then some (bytes "-blob")
    else if meta.kind == bytes "PAGE"
    then some (if meta.has_page_relation then bytes "-raw" else bytes "-html")
    else none

-- whether `authorizeProjection` refuses
unfoldable pub is_refused : GetRequest → Index → Bytes → Bool
is_refused q idx ref =
    option_else (get_meta idx ref) false
      λ meta. not meta.is_public && not (can_read meta.realms q.auth_pubkey (some (resolver idx)))

module _ (lib : Library) (env : GetEnv) (q : GetRequest) (hub : Frontend) where
  -- `readForProjection`: the content, or the error
  unfoldable pub read_for_projection : Result GetError Bytes
  read_for_projection = elim (read (env.read_fails q.ref) q.ref hub.store) [
    | err e ↦ err internal_error
    | ok none ↦ err object_not_found
    | ok (some content) ↦ ok content
  ]

  -- a reply from the content
  abbrev pub with_content : (Bytes → GetReply) → GetReply
  with_content f = elim read_for_projection [ err e ↦ failed e | ok content ↦ f content ]

  -- the test of If-None-Match, and the reply without a match
  abbrev pub unless_same : Bytes → GetReply → GetReply
  unless_same etag reply = if q.if_none_match == etag then not_modified etag else reply

  -- `serveJSON`, of what the index has
  unfoldable pub serve_json : Option ObjectMeta → GetReply
  serve_json none = with_content (answered none false as_json)
  serve_json (some meta) =
      unless_same (etag_text meta.revision [])
        (with_content (answered (some (etag_text meta.revision [])) false as_json))

  -- `serveRaw` after the read, with the ETag that is set: a BLOB, the HTML of a page, or an error
  unfoldable pub raw_content : Option Bytes → Bool → Bytes → GetReply
  raw_content etag is_page content =
      option_else (blob_raw lib content)
        (if is_page && not (page_own_html lib content == [])
          then answered etag false
              (as_html (record no_viewer {
                source = viewer_inline;
                page_ref = q.ref;
                html = page_own_html lib content;
              }))
              content
          else failed no_raw)
        λ b. answered etag false (as_blob (b.0) (b.1)) content

  -- `serveRaw`
  unfoldable pub serve_raw : Option ObjectMeta → GetReply
  serve_raw none = with_content (raw_content none false)
  serve_raw (some meta) = option_else (raw_etag_suffix meta) (failed no_raw) λ suffix.
      unless_same (etag_text meta.revision suffix) (
        with_content
          (raw_content (some (etag_text meta.revision suffix)) (meta.kind == bytes "PAGE")))

  -- `serveProjectionPage` after the read
  unfoldable pub page_content : Bytes → GetReply × Option Resolver
  page_content content =
      option_else (parse_envelope lib content) (failed internal_error, hub.vhost)
        λ p.
          option_else
            (select_page lib (viewer_resolver lib env q hub content) hub.default_viewer_ref)
            (failed no_page, hub.vhost)
            λ viewer.
              let m = moved lib env q hub (isolated_page_ref (as_html viewer)) (bytes "/page") in
              option_else m.0
                (
                  answer q (some (representation_etag p.1.revision (as_html viewer)))
                      viewer.requires_auth (as_html viewer) content,
                  m.1,
                )
                λ target. (redirected target, m.1)

  -- `serveProjectionPage`
  unfoldable pub serve_projection_page : GetReply × Option Resolver
  serve_projection_page = elim read_for_projection [
    | err e ↦ (failed e, hub.vhost)
    | ok content ↦ page_content content
  ]

  -- `serveJSONForRef`
  unfoldable pub serve_json_for_ref : GetReply × Option Resolver
  serve_json_for_ref =
      if not (is_valid_ref q.ref) || is_refused q hub.index q.ref
      then (failed object_not_found, hub.vhost)
      else (serve_json (get_meta hub.index q.ref), hub.vhost)

  -- `rawVhostRedirect`; without an entry of the index the kind is ""
  unfoldable pub raw_vhost_redirect : Option ObjectMeta → Option Bytes × Option Resolver
  raw_vhost_redirect none = (none, hub.vhost)
  raw_vhost_redirect (some meta) =
      if not (meta.kind == bytes "PAGE")
      then (none, hub.vhost)
      else vhost_redirect lib env.dns env.now hub.vhost_mode q.host q.ref q.ref (bytes "/raw")
          hub.vhost

  -- `serveRawForRef`
  unfoldable pub serve_raw_for_ref : GetReply × Option Resolver
  serve_raw_for_ref =
      let meta = get_meta hub.index q.ref in
      let m = raw_vhost_redirect meta in
      if not (is_valid_ref q.ref) || is_refused q hub.index q.ref
      then (failed object_not_found, hub.vhost)
      else option_else m.0 (serve_raw meta, m.1) λ target. (redirected target, m.1)

  -- `servePageForRef`
  unfoldable pub serve_page_for_ref : GetReply × Option Resolver
  serve_page_for_ref =
      if not (is_valid_ref q.ref) || is_refused q hub.index q.ref
      then (failed object_not_found, hub.vhost)
      else serve_projection_page

  -- `rootObjectRef`: the ref, or the error
  unfoldable pub root_object_ref : Result GetReply Bytes
  root_object_ref = elim (get_all hub.index [] (bytes "ROOT") [] false) [
    | [] ↦ err (failed no_root_object)
    | meta ∷ metas ↦ ok meta.ref
  ]

  -- `resolveRootTarget` for a host that shows a page
  unfoldable pub resolved_target : Bytes → Bytes → Resolver → VhostMode → Result GetReply Bytes
  resolved_target path_suffix ref vhost off = ok ref
  resolved_target path_suffix ref vhost isolate = ok ref
  resolved_target path_suffix ref vhost redirect =
      if is_refused q hub.index ref
      then err (failed object_not_found)
      else err (
          redirected
            (page_redirect_target_path lib hub.vhost_mode q.host ref ref path_suffix vhost))

  -- `resolveRootTarget`: the ref, or the reply that ends the request
  unfoldable pub resolve_root_target : Bytes → Result GetReply Bytes × Option Resolver
  resolve_root_target path_suffix =
      option_else hub.vhost (root_object_ref, none)
        λ vhost.
          let r = resolve env.dns env.now q.host.host vhost in
          if r.0 == []
          then (
            if base_host_matches q.host.host vhost.base_domain
                then root_object_ref
                else err (failed unknown_host),
            some r.1,
          )
          else (
            resolved_target path_suffix (r.0) vhost (normalize_vhost_mode hub.vhost_mode),
            some r.1,
          )

module _ (lib : Library) (env : GetEnv) (q : GetRequest) (hub : Frontend) where
  -- the pipeline for the ref that the root of the host stands for
  unfoldable pub at_root :
      Bytes → (GetRequest → Frontend → GetReply × Option Resolver) → GetReply × Option Resolver
  at_root path_suffix serve =
      let t = resolve_root_target lib env q hub path_suffix in
      elim (t.0) [
        | err reply ↦ (reply, t.1)
        | ok ref ↦ serve (record q { ref = ref }) (record hub { vhost = t.1 })
      ]

  -- `handleRootJSON`, `handleRootRaw`, `handleRootPage`
  abbrev pub handle_root_json : GetReply × Option Resolver
  handle_root_json = at_root (bytes "/json") (serve_json_for_ref lib env)

  abbrev pub handle_root_raw : GetReply × Option Resolver
  handle_root_raw = at_root (bytes "/raw") (serve_raw_for_ref lib env)

  abbrev pub handle_root_page : GetReply × Option Resolver
  handle_root_page = at_root (bytes "/page") (serve_page_for_ref lib env)
