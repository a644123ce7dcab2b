-- ===== src/Serving/Get/Hidden.antt =====
-- serving/handlers.go: GET shows an indexed object only to those who may read it.
use dataverse_hub.Base.{
  ◌≡◌, refl, Bool, true, false, Option, none, some, [], Bytes, option_else, option_else_ind,
  Bool-cases, Result-cases, inl, inr,
}
use dataverse_hub.External.{Library}
use dataverse_hub.Object.Ref.{is_valid_ref}
use dataverse_hub.Object.Types.{ObjectMeta}
use dataverse_hub.Realm.Access.{can_read}
use dataverse_hub.Serving.Representation.{accepts_html}
use dataverse_hub.Serving.Viewer.{available, primary}
use dataverse_hub.Storage.Index.{resolver}
use dataverse_hub.Storage.Index.Queries.{get_meta}
use dataverse_hub.Storage.Store.{read}
use dataverse_hub.Vhost.Resolver.{Resolver}
use dataverse_hub.Vhost.Mode.{vhost_redirect}
use dataverse_hub.Serving.Get.{
  Frontend, GetEnv, GetRequest, GetReply, failed, object_not_found, redirected, not_modified,
  answered, login_page, viewer_resolver, private_viewer_login, denied, get_indexed,
  handle_get_object,
}

-- The reply has a part of the object, or confirms the client's copy of it.
abbrev pub shows : GetReply → Bool
shows (failed e) = false
shows (redirected target) = false
shows (not_modified etag) = true
shows (answered etag is_private selected content) = true
shows login_page = false

abbrev shows_some : Option GetReply → Bool
shows_some reply = option_else reply false shows

shown_login :
    (login : Option GetReply)
    → shows_some login ≡ false
    → shows (option_else login (failed object_not_found) λ reply. reply) ≡ false
shown_login none h = refl
shown_login (some reply) h = h

module _ (lib : Library) (env : GetEnv) (q : GetRequest) (hub : Frontend) where
  private_viewer_login-hides :
      (content : Bytes) → shows_some (private_viewer_login lib env q hub content).0 ≡ false
  unfolding private_viewer_login
  private_viewer_login-hides content =
      option_else_ind (λ (x : Option GetReply × Option Resolver). shows_some x.0 ≡ false) hub.vhost
        _ _ (λ n. refl)
        λ vhost.
          let viewer =
            primary lib
              (record (viewer_resolver lib env q hub content) { enforce_access = false }) in
          elim (Bool-cases (accepts_html q.accept)) [
            | inr a ↦ rw a refl
            | inl a ↦ rw a (elim (Bool-cases (available viewer)) [
              | inr b ↦ rw b refl
              | inl b ↦ rw b (
                  option_else_ind (λ reply. shows reply ≡ false)
                    (vhost_redirect lib env.dns env.now hub.vhost_mode q.host q.ref viewer.page_ref
                      [] (some vhost)).0
                    _ _ (λ n. refl) (λ target. refl))
            ])
          ]

  denied-hides : shows (denied lib env q hub).0 ≡ false
  unfolding denied
  denied-hides = elim (Result-cases (read (env.read_fails q.ref) q.ref hub.store)) [
    | inr (x, e) ↦ rw (e, shows, denied) refl
    | inl (none, e) ↦ rw (e, shows, denied) refl
    | inl (some content, e) ↦
        rw (e, shows, denied)
          (shown_login (private_viewer_login lib env q hub content).0
            (private_viewer_login-hides content))
  ]

  -- The answer to a GET of an object that the index has as private, and that the reader may not read,
  -- shows nothing of the object and does not confirm a copy of it: it is an error, a redirect to the
  -- host of a page, or the login.
  pub handle_get_object-hides :
      (meta : ObjectMeta)
      → get_meta hub.index q.ref ≡ some meta
      → meta.is_public ≡ false
      → can_read meta.realms q.auth_pubkey (some (resolver hub.index)) ≡ false
      → shows (handle_get_object lib env q hub).0 ≡ false
  unfolding handle_get_object get_indexed
  handle_get_object-hides meta e p c = elim (Bool-cases (is_valid_ref q.ref)) [
    | inr v ↦ rw v refl
    | inl v ↦ rw (v, e, p, c) denied-hides
  ]
