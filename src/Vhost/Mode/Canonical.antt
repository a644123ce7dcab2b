-- ===== src/Vhost/Mode/Canonical.antt =====
-- serving/vhost_mode.go: a redirect leads to a host that does not redirect again.
use dataverse_hub.Base.{
  ℕ, ◌≤◌, ◌≡◌, refl, ap, sym, ◌∙◌, true, false, ◌||◌, [], ◌∷◌, ◌++◌, Bytes, bytes, ◌==◌, eq_refl,
  arith, length, drop, take, ltb, Bool-cases, Option-cases, inl, inr, tail,
}
use dataverse_hub.Base.Affix.{
  has_byte, has_byte-append, before_last, before_last-split, before_last-none,
}
use dataverse_hub.External.{Library}
use dataverse_hub.Vhost.{page_hash}
use dataverse_hub.Vhost.Resolver.{Resolver, DnsLookup, is_page_host}
use dataverse_hub.Vhost.Resolver.Hosts.{
  is_bare, IsPort, strip_port-port, page_hash-bare, subdomain_lem,
}
use dataverse_hub.Vhost.Mode.{
  VhostMode, off, redirect, isolate, normalize_vhost_mode, port_after, request_port, canonical_by,
  target_by, canonical_page_host, target_host,
}

drop-front : (front : Bytes) (rest : Bytes) → drop (length front) (front ++ rest) ≡ rest
drop-front [] rest = refl
drop-front (c ∷ front) rest = drop-front front rest

-- What stands after the last closing bracket has none.
no_bracket :
    (inside q front p : Bytes)
    → inside ++ b']' ∷ q ≡ front ++ b':' ∷ p
    → length inside ≤ length front
    → has_byte b']' q ≡ false
    → has_byte b']' p ≡ false
no_bracket [] q [] p e le h = absurd (ground (arith, ap (take 1) e))
no_bracket [] q (d ∷ front) p e le h =
    ground (arith, has_byte-append b']' front (b':' ∷ p), h, ap (has_byte b']') (ap tail e))
no_bracket (c ∷ inside) q [] p e le h = absurd (omega arith)
no_bracket (c ∷ inside) q (d ∷ front) p e le h =
    no_bracket inside q front p (ap tail e) (omega arith) h

port_after-IsPort :
    (host front p : Bytes)
    → host ≡ front ++ b':' ∷ p
    → is_bare p ≡ true
    → IsPort (port_after host front)
port_after-IsPort host front p e h =
    let at : drop (length front) host ≡ b':' ∷ p =
      ap (drop (length front)) e ∙ drop-front front (b':' ∷ p) in
    elim (Bool-cases
      (drop (length front) host == bytes ":80" || drop (length front) host == bytes ":443")) [
        | inl q ↦ inl (rw q refl)
        | inr q ↦ inr (p, rw q at, h)
      ]

request_port-IsPort : (host : Bytes) → IsPort (request_port host)
unfolding request_port
request_port-IsPort host = elim (Option-cases (before_last b':' host)) [
  | inl n ↦ rw n (inl refl)
  | inr (front, e) ↦
      let (p, at, clear) = before_last-split b':' host front e in
      rw e (elim (Bool-cases (has_byte b']' host)) [
        | inr q ↦ rw q (
            port_after-IsPort host front p at (
              ground
                (arith, clear, q, ap (has_byte b']') at, has_byte-append b']' front (b':' ∷ p))))
        | inl q ↦ rw q (elim (Option-cases (before_last b']' host)) [
          | inl n ↦ absurd (ground (arith, q, before_last-none b']' host n))
          | inr (inside, f) ↦
              let (rest, bracket, free) = before_last-split b']' host inside f in
              rw f (elim (Bool-cases (ltb (length front) (length inside))) [
                | inl l ↦ rw l (inl refl)
                | inr l ↦ rw l (
                    port_after-IsPort host front p at (
                      ground (
                        arith,
                        clear,
                        no_bracket inside rest front p (sym bracket ∙ at) (ground (arith, l)) free,
                      )))
              ])
        ])
      ])
]

page_target :
    (lib : Library) (dns : DnsLookup) (now : ℕ) (host page_ref : Bytes) (r : Resolver)
    → is_bare r.base_domain ≡ true
    → (is_page_host lib dns now
        (page_hash lib page_ref ++ (bytes "." ++ (r.base_domain ++ request_port host)))
        page_ref
        r).0
      ≡ true
unfolding is_page_host
page_target lib dns now host page_ref r h =
    rw
      (
        subdomain_lem (page_hash lib page_ref) (request_port host) r (page_hash-bare lib page_ref) h
            (request_port-IsPort host),
        eq_refl (page_hash lib page_ref),
      )
      refl

canonical_by-target :
    (lib : Library) (dns : DnsLookup) (now : ℕ) (m : VhostMode) (host page_ref : Bytes)
    (r : Resolver)
    → is_bare r.base_domain ≡ true
    → (canonical_by lib dns now m (target_by lib m host page_ref r) page_ref r).0 ≡ true
unfolding canonical_by target_by
canonical_by-target lib dns now redirect host page_ref r h =
    rw (strip_port-port r.base_domain (request_port host) h (request_port-IsPort host))
      (eq_refl r.base_domain)
canonical_by-target lib dns now off host page_ref r h = page_target lib dns now host page_ref r h
canonical_by-target lib dns now isolate host page_ref r h =
    page_target lib dns now host page_ref r h

-- A redirect to the host of a page is not redirected again, whatever the mode, the host that was
-- asked for, and what the DNS says, if the base domain has no colon and no bracket.
pub canonical_page_host-target :
    (lib : Library) (dns : DnsLookup) (now : ℕ) (mode host page_ref : Bytes) (r : Resolver)
    → is_bare r.base_domain ≡ true
    → (canonical_page_host lib dns now mode (target_host lib mode host page_ref r) page_ref r).0
      ≡ true
canonical_page_host-target lib dns now mode host page_ref r h =
    canonical_by-target lib dns now (normalize_vhost_mode mode) host page_ref r h
