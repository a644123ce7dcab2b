-- ===== src/Vhost/Resolver.antt =====
-- vhost/resolver.go: which page a host shows. Each access to the maps is under the lock; the answers
-- of the DNS and the time are arguments.
pub mod Hosts
pub mod Cached
use dataverse_hub.Base.{
  ℕ, ◌+◌, Bool, true, false, ◌&&◌, ◌||◌, not, Option, none, some, List, [], ◌∷◌, ◌++◌, Bytes, bytes,
  ◌==◌, length, eqb, ltb, byte_is, get_elem?, if◌then◌else◌, option_else, is_some,
}
use dataverse_hub.Base.Affix.{
  strip_prefix, has_prefix, trim_prefix, strip_suffix, has_suffix, trim_suffix, has_byte,
  before_last,
}
use dataverse_hub.Base.Dict.{Dict, lookup, insert}
use dataverse_hub.External.{Library}
use dataverse_hub.Vhost.{page_hash}

pub record TxtEntry : Type 0 where
  pub ref : Bytes
  pub expires_at : ℕ

pub record Resolver : Type 0 where
  pub base_domain : Bytes
  pub cache_ttl : ℕ
  pub txt_cache : Dict TxtEntry
  pub hash_map : Dict Bytes

-- net.LookupTXT; `none` is an error
abbrev pub DnsLookup : Type 0
DnsLookup = Bytes → Option (List Bytes)

-- `NewResolver`
abbrev pub new_resolver : Bytes → ℕ → Resolver
new_resolver base_domain cache_ttl = record {
  base_domain = base_domain;
  cache_ttl = cache_ttl;
  txt_cache = [];
  hash_map = [];
}

-- `stripPort`; the index of the last byte of a value is the length of what stands before it
unfoldable pub strip_port : Bytes → Bytes
strip_port host = option_else (before_last b':' host) host λ front.
    if has_byte b']' host
    then (option_else (before_last b']' host) front
        λ inside. if ltb (length inside) (length front) then front else host)
    else front

-- `Subdomain`
unfoldable pub subdomain : Bytes → Resolver → Bytes
subdomain host r =
    let name = strip_port host in
    if name == r.base_domain
    then []
    else if not (has_suffix name (bytes "." ++ r.base_domain))
    then []
    else trim_suffix name (bytes "." ++ r.base_domain)

-- `looksLikeRef`
abbrev pub looks_like_ref : Bytes → Bool
looks_like_ref s = if not (eqb (length s) 81) then false else byte_is (get_elem? s 44) b'.'

-- the loop over the records
unfoldable pub page_of_records : List Bytes → Bytes
page_of_records [] = []
page_of_records (txt ∷ records) =
    let rest = page_of_records records in
    if has_prefix txt (bytes "dv1-page=")
    then trim_prefix txt (bytes "dv1-page=")
    else if looks_like_ref txt
    then txt
    else rest

-- the ref that the DNS gives for the host
abbrev pub dns_page : DnsLookup → Bytes → Bytes
dns_page dns host = option_else (dns (bytes "_dv." ++ host)) [] page_of_records

-- the entry of the cache, if it is still good
unfoldable pub fresh_entry : ℕ → Bytes → Resolver → Option Bytes
fresh_entry now host r =
    option_else (lookup host r.txt_cache) none
      λ e. if ltb now e.expires_at then some e.ref else none

-- `lookupCachedTXT`
unfoldable pub lookup_cached_txt : DnsLookup → ℕ → Bytes → Resolver → Bytes × Resolver
lookup_cached_txt dns now host r =
    option_else (fresh_entry now host r)
      (
        dns_page dns host,
        record r {
          txt_cache =
              insert host (record { ref = dns_page dns host; expires_at = now + r.cache_ttl })
                r.txt_cache;
        },
      )
      λ ref. (ref, r)

-- `Resolve`
unfoldable pub resolve : DnsLookup → ℕ → Bytes → Resolver → Bytes × Resolver
resolve dns now host r =
    let name = strip_port host in
    let sub = subdomain name r in
    let txt = lookup_cached_txt dns now name r in
    if sub == []
    then (if name == r.base_domain then ([], r) else txt)
    else if not (txt.0 == [])
    then txt
    else (option_else (lookup sub txt.1.hash_map) [] (λ ref. ref), txt.1)

-- `IsPageHost`
unfoldable pub is_page_host : Library → DnsLookup → ℕ → Bytes → Bytes → Resolver → Bool × Resolver
is_page_host lib dns now host page_ref r =
    if subdomain host r == page_hash lib page_ref
    then (true, r)
    else ((resolve dns now host r).0 == page_ref, (resolve dns now host r).1)

-- `UpdateHashMap`
abbrev pub update_hash_map : Dict Bytes → Resolver → Resolver
update_hash_map pages r = record r { hash_map = pages }
