-- ===== src/Vhost/Resolver/Hosts.antt =====
-- vhost/resolver.go: how the name of a host splits.
use mathlib.Core.List.{append_assoc, append-nil}
use dataverse_hub.Base.{
  ℕ, ◌/◌, ◌%◌, ◌≡◌, ◌⊎◌, refl, ap, sym, ◌∙◌, Bool, true, false, ◌||◌, not, [], ◌∷◌, ◌++◌, Bytes,
  bytes, ◌==◌, eq_iff, arith, length, length-append, take, Bool-cases, inl, inr,
}
use dataverse_hub.Base.Affix.{
  has_byte, has_byte-append, before_last-absent, before_last-append, strip_suffix-append,
}
use dataverse_hub.External.{Library}
use dataverse_hub.Realm.RealmId.{hex_text, hex_digit}
use dataverse_hub.Vhost.{page_hash}
use dataverse_hub.Vhost.Resolver.{Resolver, strip_port, subdomain}

-- No colon and no closing bracket: a name without a port, and not an IPv6 address.
abbrev pub is_bare : Bytes → Bool
is_bare s = not (has_byte b':' s || has_byte b']' s)

-- "" or a colon and what is no port and no bracket again
abbrev pub IsPort : Bytes → Type 0
IsPort s = (s ≡ []) ⊎ ((p : Bytes) × (s ≡ b':' ∷ p) × (is_bare p ≡ true))

pub is_bare-append : (s t : Bytes) → is_bare s ≡ true → is_bare t ≡ true → is_bare (s ++ t) ≡ true
is_bare-append s t h k = ground (arith, h, k, has_byte-append b':' s t, has_byte-append b']' s t)

pub strip_port-bare : (name : Bytes) → is_bare name ≡ true → strip_port name ≡ name
unfolding strip_port
strip_port-bare name h = rw (before_last-absent b':' name (ground (arith, h))) refl

-- `stripPort` takes a port off a bare name.
pub strip_port-port :
    (name port : Bytes) → is_bare name ≡ true → IsPort port → strip_port (name ++ port) ≡ name
unfolding strip_port
strip_port-port name port h (inl e) = rw (e, append-nil name) (strip_port-bare name h)
strip_port-port name port h (inr (p, e, k)) =
    rw (e, before_last-append b':' name p (ground (arith, k)), has_byte-append b']' name (b':' ∷ p))
      (ground (arith, h, k))

hex_digit-plain : (d : ℕ) → is_bare (hex_digit d ∷ []) ≡ true
hex_digit-plain d = ground arith

hex_text-bare : (s : Bytes) → is_bare (hex_text s) ≡ true
unfolding hex_text
hex_text-bare [] = refl
hex_text-bare (c ∷ s) =
    ground (arith, hex_text-bare s, hex_digit-plain (c / 16), hex_digit-plain (c % 16))

pub page_hash-bare : (lib : Library) (ref : Bytes) → is_bare (page_hash lib ref) ≡ true
unfolding page_hash
page_hash-bare lib ref = hex_text-bare (take 8 (lib.sha256 ref))

not-base : (sub base : Bytes) → ((sub ++ (b'.' ∷ base)) == base) ≡ false
not-base sub base = elim (Bool-cases ((sub ++ (b'.' ∷ base)) == base)) [
  | inr e ↦ e
  | inl e ↦ absurd (
      omega (
        arith,
        ap length ((eq_iff (sub ++ (b'.' ∷ base)) base).0 e),
        length-append sub (b'.' ∷ base),
      ))
]

-- A host "sub.base" has this subdomain, with a port or without.
pub subdomain_lem :
    (sub port : Bytes) (r : Resolver)
    → is_bare sub ≡ true
    → is_bare r.base_domain ≡ true
    → IsPort port
    → subdomain (sub ++ (bytes "." ++ (r.base_domain ++ port))) r ≡ sub
unfolding subdomain
subdomain_lem sub port r h k p =
    rw
      (
        sym (append_assoc sub (bytes "." ++ r.base_domain) port),
        strip_port-port (sub ++ (bytes "." ++ r.base_domain)) port
            (is_bare-append sub (bytes "." ++ r.base_domain) h (ground (arith, k))) p,
        not-base sub r.base_domain,
        strip_suffix-append sub (bytes "." ++ r.base_domain),
      )
      refl

pub subdomain_bare :
    (sub : Bytes) (r : Resolver)
    → is_bare sub ≡ true
    → is_bare r.base_domain ≡ true
    → subdomain (sub ++ (bytes "." ++ r.base_domain)) r ≡ sub
subdomain_bare sub r h k =
    ap (λ base. subdomain (sub ++ (bytes "." ++ base)) r) (sym (append-nil r.base_domain))
    ∙ subdomain_lem sub [] r h k (inl refl)
