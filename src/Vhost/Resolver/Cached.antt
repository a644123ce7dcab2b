-- ===== src/Vhost/Resolver/Cached.antt =====
-- vhost/resolver.go: the cache of TXT records and the hashes of pages.
use dataverse_hub.Base.{
  ℕ, ◌+◌, ◌<◌, ◌≡◌, ◌≢◌, refl, true, none, some, [], ◌++◌, Bytes, bytes, eq_iff, eq_refl, arith,
  Option-cases, inl, inr,
}
use dataverse_hub.Base.Dict.{Dict, lookup, insert, lookup-insert}
use dataverse_hub.External.{Library}
use dataverse_hub.Vhost.{page_hash, add_page}
use dataverse_hub.Vhost.Resolver.{
  Resolver, DnsLookup, subdomain, dns_page, fresh_entry, lookup_cached_txt, resolve,
  update_hash_map,
}
use dataverse_hub.Vhost.Resolver.Hosts.{
  is_bare, page_hash-bare, strip_port-bare, subdomain_bare, is_bare-append,
}

-- the resolver that has cached what the DNS says
abbrev stored : DnsLookup → ℕ → Bytes → Resolver → Resolver
stored dns now host r = record r {
  txt_cache =
      insert host (record { ref = dns_page dns host; expires_at = now + r.cache_ttl }) r.txt_cache;
}

lookup_cached_txt-miss :
    (dns : DnsLookup) (now : ℕ) (host : Bytes) (r : Resolver)
    → fresh_entry now host r ≡ none
    → lookup_cached_txt dns now host r ≡ (dns_page dns host, stored dns now host r)
unfolding lookup_cached_txt
lookup_cached_txt-miss dns now host r n = rw n refl

lookup_cached_txt-hit :
    (dns : DnsLookup) (now : ℕ) (host ref : Bytes) (r : Resolver)
    → fresh_entry now host r ≡ some ref
    → lookup_cached_txt dns now host r ≡ (ref, r)
unfolding lookup_cached_txt
lookup_cached_txt-hit dns now host ref r e = rw e refl

fresh_entry-stored :
    (dns : DnsLookup) (now later : ℕ) (host : Bytes) (r : Resolver)
    → later < now + r.cache_ttl
    → fresh_entry later host (stored dns now host r) ≡ some (dns_page dns host)
unfolding fresh_entry
fresh_entry-stored dns now later host r l =
    rw
      (
        lookup-insert host host (record { ref = dns_page dns host; expires_at = now + r.cache_ttl })
            r.txt_cache,
        eq_refl host,
      )
      (ground (arith, l))

-- Within the time to live a lookup in the cache answers as the DNS did at the first lookup, whatever
-- the DNS says by then, and it changes nothing.
pub lookup_cached_txt-again :
    (dns dns_later : DnsLookup) (now later : ℕ) (host : Bytes) (r : Resolver)
    → fresh_entry now host r ≡ none
    → later < now + r.cache_ttl
    → lookup_cached_txt dns_later later host (lookup_cached_txt dns now host r).1
      ≡ (dns_page dns host, (lookup_cached_txt dns now host r).1)
lookup_cached_txt-again dns dns_later now later host r n l =
    rw (lookup_cached_txt-miss dns now host r n) (
      lookup_cached_txt-hit dns_later later host (dns_page dns host) (stored dns now host r)
        (fresh_entry-stored dns now later host r l))

lookup_cached_txt-hash_map :
    (dns : DnsLookup) (now : ℕ) (host : Bytes) (r : Resolver)
    → (lookup_cached_txt dns now host r).1.hash_map ≡ r.hash_map
lookup_cached_txt-hash_map dns now host r = elim (Option-cases (fresh_entry now host r)) [
  | inl n ↦ rw (lookup_cached_txt-miss dns now host r n) refl
  | inr (ref, e) ↦ rw (lookup_cached_txt-hit dns now host ref r e) refl
]

lookup-add_page :
    (lib : Library) (ref : Bytes) (hash_map : Dict Bytes)
    → lookup (page_hash lib ref) (add_page lib ref hash_map) ≡ some ref
unfolding add_page
lookup-add_page lib ref hash_map =
    rw
      (
        lookup-insert (page_hash lib ref) (page_hash lib ref) ref hash_map,
        eq_refl (page_hash lib ref),
      )
      refl

-- After `AddPage` the host of the hash of a page shows this page, if neither the cache nor the DNS
-- names a page for the host. The base domain has no colon and no bracket, and the hash is not empty.
pub resolve-add_page :
    (lib : Library) (dns : DnsLookup) (now : ℕ) (ref : Bytes) (r : Resolver)
    → is_bare r.base_domain ≡ true
    → page_hash lib ref ≢ []
    → (lookup_cached_txt dns now
        (page_hash lib ref ++ (bytes "." ++ r.base_domain))
        (update_hash_map (add_page lib ref r.hash_map) r)).0
      ≡ []
    → (resolve dns now
        (page_hash lib ref ++ (bytes "." ++ r.base_domain))
        (update_hash_map (add_page lib ref r.hash_map) r)).0
      ≡ ref
unfolding resolve
resolve-add_page lib dns now ref r h n t =
    let hash = page_hash lib ref in
    let host = hash ++ (bytes "." ++ r.base_domain) in
    let added = update_hash_map (add_page lib ref r.hash_map) r in
    let plain = strip_port-bare host (
      is_bare-append hash (bytes "." ++ r.base_domain) (page_hash-bare lib ref)
        (ground (arith, h))) in
    let sub : subdomain host added ≡ hash = subdomain_bare hash added (page_hash-bare lib ref) h in
    rw
      (
        plain,
        sub,
        t,
        lookup_cached_txt-hash_map dns now host added,
        lookup-add_page lib ref r.hash_map,
        eq_refl [],
      )
      (ground (arith, eq_iff hash [], n))
