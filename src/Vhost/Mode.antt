-- ===== src/Vhost/Mode.antt =====
-- serving/vhost_mode.go, and `requestScheme` and `requestPort` of serving/hub.go: where a page lives.
pub mod Canonical
use dataverse_hub.Base.{
  ℕ, Bool, true, false, ◌||◌, not, Option, none, some, [], ◌∷◌, ◌++◌, Bytes, bytes, ◌==◌, length,
  ltb, drop, if◌then◌else◌, option_else,
}
use dataverse_hub.Base.Affix.{has_byte, before_last}
use dataverse_hub.External.{Library}
use dataverse_hub.Vhost.{page_hash}
use dataverse_hub.Vhost.Resolver.{Resolver, DnsLookup, strip_port, is_page_host}

pub data VhostMode : Type 0 where
  off redirect isolate : VhostMode

-- `normalizeVhostMode`, of the text in the configuration
unfoldable pub normalize_vhost_mode : Bytes → VhostMode
normalize_vhost_mode mode =
    if mode == [] || mode == bytes "isolate"
    then isolate
    else if mode == bytes "redirect"
    then redirect
    else if mode == bytes "off"
    then off
    else isolate

-- `baseHostMatches`, whose `stripHostPort` is the code of `stripPort`
abbrev pub base_host_matches : Bytes → Bytes → Bool
base_host_matches host base_domain = strip_port host == base_domain

-- what the redirects take from the request: Host, X-Forwarded-Proto ("" if missing), whether it came
-- by TLS, and the query
pub record HostRequest : Type 0 where
  pub host : Bytes
  pub forwarded_proto : Bytes
  pub tls : Bool
  pub raw_query : Bytes

-- `requestScheme`
abbrev pub request_scheme : HostRequest → Bytes
request_scheme q =
    if not (q.forwarded_proto == [])
    then q.forwarded_proto
    else if q.tls
    then bytes "https"
    else bytes "http"

-- the part of the Host from its last colon on, but for the default ports
abbrev port_after : Bytes → Bytes → Bytes
port_after host front =
    let port = drop (length front) host in
    if port == bytes ":80" || port == bytes ":443" then [] else port

-- `requestPort`
unfoldable pub request_port : Bytes → Bytes
request_port host = option_else (before_last b':' host) [] λ front.
    if has_byte b']' host
    then (option_else (before_last b']' host) (port_after host front)
        λ inside. if ltb (length front) (length inside) then [] else port_after host front)
    else port_after host front

-- the switch of `canonicalPageHost`
unfoldable pub canonical_by :
    Library → DnsLookup → ℕ → VhostMode → Bytes → Bytes → Resolver → Bool × Resolver
canonical_by lib dns now redirect host page_ref r = (base_host_matches host r.base_domain, r)
canonical_by lib dns now off host page_ref r = is_page_host lib dns now host page_ref r
canonical_by lib dns now isolate host page_ref r = is_page_host lib dns now host page_ref r

-- `canonicalPageHost` with a resolver
abbrev pub canonical_page_host :
    Library → DnsLookup → ℕ → Bytes → Bytes → Bytes → Resolver → Bool × Resolver
canonical_page_host lib dns now mode = canonical_by lib dns now (normalize_vhost_mode mode)

-- the host and port of `pageRedirectTargetPath`
unfoldable pub target_by : Library → VhostMode → Bytes → Bytes → Resolver → Bytes
target_by lib redirect host page_ref r = r.base_domain ++ request_port host
target_by lib off host page_ref r =
    page_hash lib page_ref ++ (bytes "." ++ (r.base_domain ++ request_port host))
target_by lib isolate host page_ref r =
    page_hash lib page_ref ++ (bytes "." ++ (r.base_domain ++ request_port host))

abbrev pub target_host : Library → Bytes → Bytes → Bytes → Resolver → Bytes
target_host lib mode = target_by lib (normalize_vhost_mode mode)

-- `pageRedirectTargetPath`
unfoldable pub page_redirect_target_path :
    Library → Bytes → HostRequest → Bytes → Bytes → Bytes → Resolver → Bytes
page_redirect_target_path lib mode q ref page_ref path_suffix r =
    request_scheme q
    ++ (bytes "://"
        ++ (target_host lib mode q.host page_ref r ++ (bytes "/" ++ (ref ++ path_suffix))))

-- `vhostRedirect`: the target if it redirects. Without a resolver nothing redirects.
unfoldable pub vhost_redirect :
    Library
    → DnsLookup
    → ℕ
    → Bytes
    → HostRequest
    → Bytes
    → Bytes
    → Bytes
    → Option Resolver
    → Option Bytes × Option Resolver
vhost_redirect lib dns now mode q ref page_ref path_suffix none = (none, none)
vhost_redirect lib dns now mode q ref page_ref path_suffix (some r) =
    let canonical = canonical_page_host lib dns now mode q.host page_ref r in
    let target = page_redirect_target_path lib mode q ref page_ref path_suffix r in
    if canonical.0 then (none, some canonical.1) else (
      some (if q.raw_query == [] then target else target ++ (bytes "?" ++ q.raw_query)),
      some canonical.1,
    )
