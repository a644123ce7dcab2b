-- ===== src/Serving/Get.antt =====
-- `handleGetObject` and `serveObject` of serving/handlers.go, and the login of a private page in
-- serving/viewer.go. The header Accept and the other parts of a request are fields.
pub mod Hidden
pub mod Unindexed
pub mod Stored
use dataverse_hub.Base.{
  ℕ, Bool, true, false, ◌&&◌, ◌||◌, not, Option, none, some, List, [], ◌∷◌, ◌++◌, Bytes, bytes,
  ◌==◌, if◌then◌else◌, option_else, Result, ok, err,
}
use dataverse_hub.External.{Library}
use dataverse_hub.Object.Ref.{is_valid_ref}
use dataverse_hub.Object.Types.{ObjectMeta}
use dataverse_hub.Object.Verify.{parse_envelope}
use dataverse_hub.Realm.Access.{can_read}
use dataverse_hub.Serving.Representation.{accepts_html}
use dataverse_hub.Serving.Viewer.{
  ViewerSource, viewer_hub_default, viewer_none, viewer_inline, viewer_direct, viewer_type_default,
  ViewerResolution, ViewerResolver, available, primary,
}
use dataverse_hub.Serving.Selection.{
  Representation, as_json, as_blob, as_html, representation_etag, indexed_validator,
  select_negotiated,
}
use dataverse_hub.Storage.Index.{Index, resolver}
use dataverse_hub.Storage.Index.Queries.{get_meta}
use dataverse_hub.Storage.Store.{Store, read}
use dataverse_hub.Vhost.Resolver.{Resolver, DnsLookup}
use dataverse_hub.Vhost.Mode.{HostRequest, vhost_redirect}

-- the fields of `Hub` that a GET reads; a nil resolver is `none`
pub record Frontend : Type 0 where
  pub store : Store
  pub index : Index
  pub default_viewer_ref : Bytes
  pub vhost : Option Resolver
  pub vhost_mode : Bytes

-- the reads that fail, the DNS and the clock
pub record GetEnv : Type 0 where
  pub read_fails : Bytes → Bool
  pub dns : DnsLookup
  pub now : ℕ

-- the URL's ref, the headers Accept and If-None-Match, and the key of the session ("" for none)
pub record GetRequest : Type 0 where
  pub ref : Bytes
  pub accept : Bytes
  pub if_none_match : Bytes
  pub auth_pubkey : Bytes
  pub host : HostRequest

pub data GetError : Type 0 where
  object_not_found internal_error unknown_host no_root_object no_raw no_page : GetError
  page_not_found page_without_html : GetError

-- `answered` has the ETag, if one is set, whether Cache-Control says private, what is written, and
-- the object that it is written from
pub data GetReply : Type 0 where
  failed : GetError → GetReply
  redirected : Bytes → GetReply
  not_modified : Bytes → GetReply
  answered : Option Bytes → Bool → Representation → Bytes → GetReply
  login_page : GetReply

-- whether `setCacheHeaders` marks the answer as private
abbrev pub is_private : Representation → Bool
is_private as_json = false
is_private (as_blob mime raw) = false
is_private (as_html v) = v.requires_auth

abbrev pub isolated_source : ViewerSource → Bool
isolated_source viewer_hub_default = false
isolated_source viewer_none = true
isolated_source viewer_inline = true
isolated_source viewer_direct = true
isolated_source viewer_type_default = true

-- `isolatedPageRef`
abbrev pub isolated_page_ref : Representation → Bytes
isolated_page_ref as_json = []
isolated_page_ref (as_blob mime raw) = []
isolated_page_ref (as_html v) = if isolated_source v.source then v.page_ref else []

-- the answer to a client that may have this ETag
abbrev pub answer : GetRequest → Option Bytes → Bool → Representation → Bytes → GetReply
answer q none is_private selected content = answered none is_private selected content
answer q (some etag) is_private selected content =
    if q.if_none_match == etag
    then not_modified etag
    else answered (some etag) is_private selected content

module _ (lib : Library) (env : GetEnv) (q : GetRequest) (hub : Frontend) where
  -- `newViewerResolver`
  abbrev pub viewer_resolver : Bytes → ViewerResolver
  viewer_resolver content = record {
    store = hub.store;
    read_fails = env.read_fails;
    index = hub.index;
    requested_ref = q.ref;
    requested_content = content;
    auth_pubkey = q.auth_pubkey;
    enforce_access = true;
  }

  -- `vhostRedirect` for this request
  abbrev pub moved : Bytes → Bytes → Option Bytes × Option Resolver
  moved page_ref path_suffix =
      if page_ref == []
      then (none, hub.vhost)
      else vhost_redirect lib env.dns env.now hub.vhost_mode q.host q.ref page_ref path_suffix
          hub.vhost

  -- `serveObject`
  unfoldable pub serve_object : Bytes → GetReply × Option Resolver
  serve_object content =
      option_else (parse_envelope lib content) (failed internal_error, hub.vhost)
        λ p.
          let selected =
            select_negotiated lib (viewer_resolver content) hub.default_viewer_ref q.accept in
          let m = moved (isolated_page_ref selected) [] in
          option_else m.0
            (
              answer q (some (representation_etag p.1.revision selected)) (is_private selected)
                  selected content,
              m.1,
            )
            λ target. (redirected target, m.1)

  -- `servePrivateViewerLogin`: the reply, if it gives one
  unfoldable pub private_viewer_login : Bytes → Option GetReply × Option Resolver
  private_viewer_login content =
      option_else hub.vhost (none, none)
        λ vhost.
          let viewer = primary lib (record (viewer_resolver content) { enforce_access = false }) in
          let m =
            vhost_redirect lib env.dns env.now hub.vhost_mode q.host q.ref viewer.page_ref []
              (some vhost) in
          if not (accepts_html q.accept)
          then (none, some vhost)
          else if not (available viewer)
          then (none, some vhost)
          else (some (option_else m.0 login_page redirected), m.1)

  -- the answer about an object that the reader may not read
  unfoldable pub denied : GetReply × Option Resolver
  denied = elim (read (env.read_fails q.ref) q.ref hub.store) [
    | err e ↦ (failed object_not_found, hub.vhost)
    | ok none ↦ (failed object_not_found, hub.vhost)
    | ok (some content) ↦
        let login = private_viewer_login content in
        (option_else login.0 (failed object_not_found) (λ reply. reply), login.1)
  ]

  -- `store.Read` and what follows it
  unfoldable pub serve_stored : GetReply × Option Resolver
  serve_stored = elim (read (env.read_fails q.ref) q.ref hub.store) [
    | err e ↦ (failed internal_error, hub.vhost)
    | ok none ↦ (failed object_not_found, hub.vhost)
    | ok (some content) ↦ serve_object content
  ]

  -- `handleGetObject` for an object in the index
  unfoldable pub get_indexed : ObjectMeta → GetReply × Option Resolver
  get_indexed meta =
      if not meta.is_public && not (can_read meta.realms q.auth_pubkey (some (resolver hub.index)))
      then denied
      else option_else (indexed_validator q.accept meta) serve_stored
          λ etag. if q.if_none_match == etag then (not_modified etag, hub.vhost) else serve_stored

  -- `handleGetObject`
  unfoldable pub handle_get_object : GetReply × Option Resolver
  handle_get_object =
      if not (is_valid_ref q.ref)
      then (failed object_not_found, hub.vhost)
      else option_else (get_meta hub.index q.ref) serve_stored get_indexed
