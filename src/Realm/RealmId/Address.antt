-- ===== src/Realm/RealmId/Address.antt =====
-- realm/realmid.go: the parts of a realm name, and the ref of a realm's object.
use dataverse_hub.Base.{
  ◌≡◌, refl, ap, Bool, true, false, not, some, [], ◌∷◌, ◌++◌, Bytes, ◌==◌, eq_iff, ◌≢◌, length, eqb,
  all, arith, option_else-inv, if-inv, Bool-cases, Option-cases, inl, inr,
}
use dataverse_hub.External.{Library}
use dataverse_hub.Object.Ref.{is_base64url_chars, is_valid_ref}
use dataverse_hub.Object.Ref.Alphabet.{is_base64url_chars_sound}
use dataverse_hub.Object.Ref.Shape.{is_valid_ref_iff}
use dataverse_hub.Object.Verify.{is_pubkey_realm}
use dataverse_hub.Realm.RealmId.{cut_dot, split_realm_owner, realm_ref, realm_id}
use dataverse_hub.Realm.RealmId.Uuid.{IsSha1, realm_id-IsUuid}

abbrev pub no_dot : Bytes → Bool
no_dot = all (λ c. not (eqb c b'.'))

-- The two parts of a text at its first dot.
pub record IsCut (s before after : Bytes) : Type 0 where
  pub form : s ≡ before ++ (b'.' ∷ after)
  pub first : no_dot before ≡ true

pub cut_dot-IsCut :
    (s before after : Bytes) → cut_dot s ≡ some (before, after) → IsCut s before after
unfolding cut_dot
cut_dot-IsCut [] before after h = cc
cut_dot-IsCut (c ∷ s) before after h = elim (Bool-cases (eqb c b'.')) [
  | inl e ↦ record { form = ground arith; first = ground arith }
  | inr e ↦ elim (Option-cases (cut_dot s)) [
    | inl n ↦ absurd (ground arith)
    | inr (p, f) ↦
        let rest = cut_dot-IsCut s (p.0) (p.1) f in
        record { form = ground (arith, rest.form); first = ground (arith, rest.first) }
  ]
]

-- A text cut at a dot that is its first.
pub cut_dot-append :
    (before after : Bytes)
    → no_dot before ≡ true
    → cut_dot (before ++ (b'.' ∷ after)) ≡ some (before, after)
unfolding cut_dot
cut_dot-append [] after h = refl
cut_dot-append (c ∷ before) after h = ground (arith, cut_dot-append before after)

-- base64.RawURLEncoding: 44 characters that decode to 33 bytes are all of the alphabet.
pub record IsBase64url (lib : Library) : Type 0 where
  pub alphabet :
      (s raw : Bytes)
      → lib.decode_base64url s ≡ some raw
      → length s ≡ 44
      → length raw ≡ 33
      → is_base64url_chars s ≡ true

-- A name `<owner>.<Name>` with an owner that is a pubkey and a Name that is not empty.
pub record IsOwned (lib : Library) (realm owner : Bytes) : Type 0 where
  pub name : Bytes
  pub form : realm ≡ owner ++ (b'.' ∷ name)
  pub first : no_dot owner ≡ true
  pub nonempty : name ≢ []
  pub pubkey : is_pubkey_realm lib owner ≡ true

module _ (lib : Library) where
  pub split_realm_owner-IsOwned :
      (realm owner : Bytes) → split_realm_owner lib realm ≡ (owner, true) → IsOwned lib realm owner
  unfolding split_realm_owner
  split_realm_owner-IsOwned realm owner h =
      let (p, cut, h1) =
        option_else-inv (cut_dot realm) ([], false) _ h (λ e. absurd (ground arith)) in
      let (nonempty, h2) = if-inv (p.1 == []) ([], false) _ h1 (λ e. absurd (ground arith)) in
      let shape = cut_dot-IsCut realm (p.0) (p.1) cut in
      let owner_path : p.0 ≡ owner = ap (λ (q : Bytes × Bool). q.0) h2 in
      record {
        name = p.1;
        form = rw (← owner_path) (shape.form);
        first = rw (← owner_path) (shape.first);
        nonempty = λ e. ground (arith, eq_iff (p.1) []);
        pubkey = rw (← owner_path) (ap (λ (q : Bytes × Bool). q.1) h2);
      }

  pub split_realm_owner_complete :
      (realm owner : Bytes) → IsOwned lib realm owner → split_realm_owner lib realm ≡ (owner, true)
  unfolding split_realm_owner
  split_realm_owner_complete realm owner o =
      rw (o.form, cut_dot-append owner o.name (o.first))
        (ground (arith, o.pubkey, o.nonempty, eq_iff o.name []))

  is_pubkey_realm-chars :
      IsBase64url lib
      → (s : Bytes) → is_pubkey_realm lib s ≡ true
      → (length s ≡ 44) × (is_base64url_chars s ≡ true)
  unfolding is_pubkey_realm
  is_pubkey_realm-chars codec s h =
      let (size, h1) = if-inv (not (eqb (length s) 44)) _ _ h (cc) in
      let (raw, decoded, h2) = option_else-inv (lib.decode_base64url s) _ _ h1 (cc) in
      let (raw_size, _) = if-inv (not (eqb (length raw) 33)) _ _ h2 (cc) in
      let is_44 : length s ≡ 44 = ground arith in
      (is_44, codec.alphabet s raw decoded is_44 (ground arith))

  -- Whatever `RealmRef` returns is a valid ref: the realm's owner, a dot and a canonical UUID.
  pub realm_ref-valid :
      IsSha1 lib
      → IsBase64url lib
      → (realm ref : Bytes) → realm_ref lib realm ≡ some ref
      → is_valid_ref ref ≡ true
  unfolding realm_ref
  realm_ref-valid hash codec realm ref h =
      let (has_owner, e) = if-inv (not (split_realm_owner lib realm).1) _ _ h (cc) in
      let owner = (split_realm_owner lib realm).0 in
      let owned = split_realm_owner-IsOwned realm owner (ground arith) in
      let (size, chars) = is_pubkey_realm-chars codec owner (owned.pubkey) in
      (is_valid_ref_iff ref).1 (record {
        pubkey = owner;
        id = realm_id lib realm;
        form = ground arith;
        least = omega arith;
        most = omega arith;
        alphabet = is_base64url_chars_sound owner chars;
        uuid = realm_id-IsUuid lib hash realm;
      })
