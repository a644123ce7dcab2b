-- ===== src/Object/Verify/Signed.antt =====
-- object/verify.go: what an accepted envelope is.
use dataverse_hub.Base.{
  ◌≡◌, refl, ◌↔◌, true, false, not, none, some, List, [], ◌∷◌, Bytes, ◌==◌, eq_iff, length, eqb,
  arith, ◌≢◌, option_else-inv, if-inv,
}
use dataverse_hub.Object.Types.{Envelope, Item, resolve_in}
use dataverse_hub.External.{Library}
use dataverse_hub.Object.Verify.{
  decode_envelope, decode_item, canonical_json, verify_signature, verify_envelope, parse_envelope,
}

module _ (lib : Library) where
  -- The signature of `env` is one of its canonical item, under the key that the item names.
  pub record IsSigned (env : Envelope) (item : Item) : Type 0 where
    pub key : Bytes
    pub canonical : Bytes
    pub sig : Bytes
    pub point : lib.Point
    pub rs : lib.Signature
    pub key_decodes : lib.decode_base64url item.pubkey ≡ some key
    pub key_size : length key ≡ 33
    pub key_point : lib.unmarshal_compressed key ≡ some point
    pub item_canonical : canonical_json lib env.item ≡ some canonical
    pub sig_decodes : lib.decode_base64 env.signature ≡ some sig
    pub sig_pair : lib.unmarshal_signature sig ≡ some rs
    pub verified : lib.ecdsa_verify point (lib.sha256 canonical) rs ≡ true

  -- What `VerifyEnvelope` promises of the bytes that it accepts.
  pub record IsAccepted (raw : Bytes) : Type 0 where
    pub env : Envelope
    pub item : Item
    pub parsed : parse_envelope lib raw ≡ some (env, item)
    pub has_item : env.item ≢ []
    pub has_signature : env.signature ≢ []
    pub has_realm : resolve_in env item ≢ []
    pub has_pubkey : item.pubkey ≢ []
    pub has_id : item.id ≢ []
    pub has_created_at : item.created_at ≢ []
    pub signed : IsSigned env item

  verify_signature_sound :
      (env : Envelope) (item : Item) → verify_signature lib env item ≡ none → IsSigned env item
  unfolding verify_signature
  verify_signature_sound env item h =
      let (key, e_key, h1) = option_else-inv (lib.decode_base64url item.pubkey) _ _ h (cc) in
      let (size, h2) = if-inv (not (eqb (length key) 33)) _ _ h1 (cc) in
      let (point, e_point, h3) = option_else-inv (lib.unmarshal_compressed key) _ _ h2 (cc) in
      let (canonical, e_canonical, h4) =
        option_else-inv (canonical_json lib env.item) _ _ h3 (cc) in
      let (sig, e_sig, h5) = option_else-inv (lib.decode_base64 env.signature) _ _ h4 (cc) in
      let (rs, e_rs, h6) = option_else-inv (lib.unmarshal_signature sig) _ _ h5 (cc) in
      let (bad, _) = if-inv (not (lib.ecdsa_verify point (lib.sha256 canonical) rs)) _ _ h6 (cc) in
      record {
        key = key;
        canonical = canonical;
        sig = sig;
        point = point;
        rs = rs;
        key_decodes = e_key;
        key_size = ground arith;
        key_point = e_point;
        item_canonical = e_canonical;
        sig_decodes = e_sig;
        sig_pair = e_rs;
        verified = ground arith;
      }

  verify_signature_complete :
      (env : Envelope) (item : Item) → IsSigned env item → verify_signature lib env item ≡ none
  unfolding verify_signature
  verify_signature_complete env item s = rw (
    s.key_decodes, s.key_size, s.key_point, s.item_canonical, s.sig_decodes, s.sig_pair, s.verified,
  )

  nonempty_text : (s : Bytes) → (s == []) ≡ false → s ≢ []
  nonempty_text s h e = ground (arith, eq_iff s [])

  nonempty {ℓ} : {A : Type ℓ} (xs : List A) → eqb (length xs) 0 ≡ false → xs ≢ []
  nonempty [] h e = cc
  nonempty (x ∷ xs) h e = cc

  verify_envelope_sound : (raw : Bytes) → verify_envelope lib raw ≡ none → IsAccepted raw
  unfolding verify_envelope parse_envelope
  verify_envelope_sound raw h =
      let (env, e_env, h1) = option_else-inv (decode_envelope lib raw) _ _ h (cc) in
      let (has_sig, h2) = if-inv (env.signature == []) _ _ h1 (cc) in
      let (has_item, h3) = if-inv (eqb (length env.item) 0) _ _ h2 (cc) in
      let (item, e_item, h4) = option_else-inv (decode_item lib env.item) _ _ h3 (cc) in
      let (has_in, h5) = if-inv (eqb (length (resolve_in env item)) 0) _ _ h4 (cc) in
      let (has_pubkey, h6) = if-inv (item.pubkey == []) _ _ h5 (cc) in
      let (has_id, h7) = if-inv (item.id == []) _ _ h6 (cc) in
      let (has_created, h8) = if-inv (item.created_at == []) _ _ h7 (cc) in
      record {
        env = env;
        item = item;
        parsed = ground arith;
        has_item = nonempty env.item has_item;
        has_signature = nonempty_text _ has_sig;
        has_realm = nonempty (resolve_in env item) has_in;
        has_pubkey = nonempty_text _ has_pubkey;
        has_id = nonempty_text _ has_id;
        has_created_at = nonempty_text _ has_created;
        signed = verify_signature_sound env item h8;
      }

  parse_envelope-inv :
      (raw : Bytes) (env : Envelope) (item : Item)
      → parse_envelope lib raw ≡ some (env, item)
      → (decode_envelope lib raw ≡ some env) × (decode_item lib env.item ≡ some item)
  unfolding parse_envelope
  parse_envelope-inv raw env item h = ground arith

  eq_empty : (s : Bytes) → s ≢ [] → (s == []) ≡ false
  eq_empty s n = ground (arith, eq_iff s [])

  length_empty {ℓ} : {A : Type ℓ} (xs : List A) → xs ≢ [] → eqb (length xs) 0 ≡ false
  length_empty [] n = absurd (n refl)
  length_empty (x ∷ xs) n = ground arith

  verify_envelope_complete : (raw : Bytes) → IsAccepted raw → verify_envelope lib raw ≡ none
  unfolding verify_envelope
  verify_envelope_complete raw a =
      let (e, i) = parse_envelope-inv raw a.env a.item (a.parsed) in
      rw
        (
          e,
          eq_empty _ (a.has_signature),
          length_empty _ (a.has_item),
          i,
          length_empty _ (a.has_realm),
          eq_empty _ (a.has_pubkey),
          eq_empty _ (a.has_id),
          eq_empty _ (a.has_created_at),
        )
        (verify_signature_complete a.env a.item (a.signed))

  -- `VerifyEnvelope` accepts a body exactly when it parses to an envelope with a signature and an
  -- item, the item has a realm, a pubkey, an id and a creation time, and the signature is one of
  -- the canonical item under the 33-byte key that the item names.
  pub verify_envelope_iff : (raw : Bytes) → (verify_envelope lib raw ≡ none) ↔ IsAccepted raw
  verify_envelope_iff raw = (verify_envelope_sound raw, verify_envelope_complete raw)
