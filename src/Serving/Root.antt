-- ===== src/Serving/Root.antt =====
-- `handleRoot`, `handleRootLegacy` and `TLSAskHandler` of serving/handlers.go: what a host shows at its
-- root, and for which hosts a certificate is asked.
use dataverse_hub.Base.{
  ℕ, ◌≡◌, ◌≢◌, refl, true, false, not, Option, none, some, [], ◌∷◌, ◌++◌, Bytes, bytes, ◌==◌,
  eq_iff, arith, if◌then◌else◌, option_else, Bool-cases, inl, inr, ok, err,
}
use dataverse_hub.External.{Library}
use dataverse_hub.Serving.Get.{
  Frontend, GetEnv, GetRequest, GetReply, unknown_host, page_not_found, page_without_html, failed,
  redirected, answered, login_page,
}
use dataverse_hub.Serving.Projection.{is_refused, root_object_ref, unless_same}
use dataverse_hub.Serving.Representation.{page_own_html}
use dataverse_hub.Serving.Selection.{as_html, etag_text}
use dataverse_hub.Serving.Viewer.{viewer_inline, no_viewer, read_content}
use dataverse_hub.Storage.Index.Queries.{get_meta}
use dataverse_hub.Vhost.{page_hash, add_page}
use dataverse_hub.Vhost.Resolver.{Resolver, DnsLookup, resolve, lookup_cached_txt, update_hash_map}
use dataverse_hub.Vhost.Resolver.Hosts.{is_bare}
use dataverse_hub.Vhost.Resolver.Cached.{resolve-add_page}
use dataverse_hub.Vhost.Mode.{
  VhostMode, redirect, off, isolate, normalize_vhost_mode, base_host_matches,
  page_redirect_target_path,
}

module _ (lib : Library) (env : GetEnv) (q : GetRequest) (hub : Frontend) where
  -- `handleRootLegacy`
  unfoldable pub handle_root_legacy : GetReply
  handle_root_legacy = elim (root_object_ref lib env q hub) [
    | err reply ↦ reply
    | ok ref ↦ redirected (bytes "/" ++ ref)
  ]

  -- the HTML of the page, with the ETag that is set
  unfoldable pub root_html : Bytes → Option Bytes → GetReply
  root_html ref etag =
      option_else (read_content env.read_fails ref hub.store) (failed page_not_found) λ content.
        if page_own_html lib content == []
        then failed page_without_html
        else answered etag false
            (as_html (record no_viewer {
              source = viewer_inline;
              page_ref = ref;
              html = page_own_html lib content;
            }))
            content

  -- `handleRoot` for the page that the host shows
  unfoldable pub root_page : Bytes → GetReply
  root_page ref =
      if is_refused q hub.index ref
      then login_page
      else option_else (get_meta hub.index ref) (root_html ref none) λ meta.
        unless_same lib env q hub (etag_text meta.revision (bytes "-html"))
          (root_html ref (some (etag_text meta.revision (bytes "-html"))))

  -- `handleRoot` by the mode
  unfoldable pub root_reply : VhostMode → Bytes → Resolver → GetReply
  root_reply redirect ref vhost =
      redirected (page_redirect_target_path lib hub.vhost_mode q.host ref ref [] vhost)
  root_reply off ref vhost = root_page ref
  root_reply isolate ref vhost = root_page ref

  -- `handleRoot`
  unfoldable pub handle_root : GetReply × Option Resolver
  handle_root =
      option_else hub.vhost (handle_root_legacy, none)
        λ vhost.
          let r = resolve env.dns env.now q.host.host vhost in
          if r.0 == []
          then (
            if base_host_matches q.host.host vhost.base_domain
                then handle_root_legacy
                else failed unknown_host,
            some r.1,
          )
          else (root_reply (normalize_vhost_mode hub.vhost_mode) (r.0) vhost, some r.1)

  -- A page that the reader may not read is answered with the login.
  root_page-refused : (ref : Bytes) → is_refused q hub.index ref ≡ true → root_page ref ≡ login_page
  unfolding root_page
  root_page-refused ref h = rw h refl

pub data AskReply : Type 0 where
  missing_domain vhosting_disabled approved unknown_domain : AskReply

-- `TLSAskHandler`, of the query's domain
unfoldable pub tls_ask : DnsLookup → ℕ → Bytes → Option Resolver → AskReply × Option Resolver
tls_ask dns now domain vhost =
    if domain == []
    then (missing_domain, vhost)
    else option_else vhost (vhosting_disabled, none)
        λ r.
          let found = resolve dns now domain r in
          (if not (found.0 == []) then approved else unknown_domain, some found.1)

-- The host of a page that was added gets a certificate, under the conditions of `resolve-add_page`.
tls_ask-add_page :
    (lib : Library) (dns : DnsLookup) (now : ℕ) (ref : Bytes) (r : Resolver)
    → ref ≢ []
    → is_bare r.base_domain ≡ true
    → page_hash lib ref ≢ []
    → (lookup_cached_txt dns now
        (page_hash lib ref ++ (bytes "." ++ r.base_domain))
        (update_hash_map (add_page lib ref r.hash_map) r)).0
      ≡ []
    → (tls_ask dns now
        (page_hash lib ref ++ (bytes "." ++ r.base_domain))
        (some (update_hash_map (add_page lib ref r.hash_map) r))).0
      ≡ approved
unfolding tls_ask
tls_ask-add_page lib dns now ref r named h n t =
    elim (Bool-cases ((page_hash lib ref ++ (bytes "." ++ r.base_domain)) == [])) [
      | inl e ↦ absurd (not_empty (page_hash lib ref) r.base_domain e)
      | inr e ↦
          rw (e, resolve-add_page lib dns now ref r h n t) (ground (arith, eq_iff ref [], named))
    ]
  where
    not_empty : (s t : Bytes) → ((s ++ (bytes "." ++ t)) == []) ≡ true → ⊥
    not_empty [] t e = absurd (cc ((eq_iff (bytes "." ++ t) []).0 e))
    not_empty (c ∷ s) t e = absurd (cc ((eq_iff (c ∷ (s ++ (bytes "." ++ t))) []).0 e))
