-- ===== src/Auth/Tokens/Answered.antt =====
-- auth/auth.go: a request gets a token for a signed answer to an open challenge.
use mathlib.Core.Option.{some-injective}
use dataverse_hub.Base.{
  ℕ, ◌+◌, ◌≤◌, ◌≡◌, ◌⊎◌, refl, ap, sym, ◌∙◌, true, not, Option, none, some, Bytes, ◌==◌, arith,
  length, eqb, option_else_ind, option_else-inv, if-inv, Bool-cases, Option-cases, inl, inr, Result,
}
use dataverse_hub.Base.Dict.{lookup, erase, lookup-insert}
use dataverse_hub.External.{Library}
use dataverse_hub.Auth.Tokens.{
  AuthStore, TokenEntry, TokenRequest, TokenEnv, TokenError, TokenReply, has_all_fields,
  has_expired, signature_error, make_token, redeem, handle_token,
}

-- The request carries a signature of its challenge, under the key that it names.
pub record IsChallengeSigned (lib : Library) (req : TokenRequest) : Type 0 where
  pub key : Bytes
  pub point : lib.Point
  pub raw : Bytes
  pub sig : lib.Signature
  pub key_decodes : lib.decode_base64url req.pubkey ≡ some key
  pub key_size : length key ≡ 33
  pub key_point : lib.unmarshal_compressed key ≡ some point
  pub sig_decodes : lib.decode_base64 req.signature ≡ some raw
  pub sig_pair : lib.unmarshal_signature raw ≡ some sig
  pub verified : lib.ecdsa_verify point (lib.sha256 req.challenge) sig ≡ true

pub signature_error_sound :
    (lib : Library) (req : TokenRequest)
    → signature_error lib req ≡ none
    → IsChallengeSigned lib req
unfolding signature_error
signature_error_sound lib req h =
    let (key, e_key, h1) = option_else-inv (lib.decode_base64url req.pubkey) _ _ h (cc) in
    let (size, h2) = if-inv (not (eqb (length key) 33)) _ _ h1 (cc) in
    let (point, e_point, h3) = option_else-inv (lib.unmarshal_compressed key) _ _ h2 (cc) in
    let (raw, e_raw, h4) = option_else-inv (lib.decode_base64 req.signature) _ _ h3 (cc) in
    let (sig, e_sig, h5) = option_else-inv (lib.unmarshal_signature raw) _ _ h4 (cc) in
    let (bad, _) =
      if-inv (not (lib.ecdsa_verify point (lib.sha256 req.challenge) sig)) _ _ h5 (cc) in
    record {
      key = key;
      point = point;
      raw = raw;
      sig = sig;
      key_decodes = e_key;
      key_size = ground arith;
      key_point = e_point;
      sig_decodes = e_raw;
      sig_pair = e_sig;
      verified = ground arith;
    }

-- What a call for a token may add to the tokens.
abbrev pub AddsOwn :
    Type 0 → TokenRequest → AuthStore → Result TokenError TokenReply × AuthStore → Type 0
AddsOwn P req a x =
    (t : Bytes) (e : TokenEntry)
    → lookup t x.1.tokens ≡ some e
    → (lookup t a.tokens ≡ some e) ⊎ ((req.pubkey ≡ e.pubkey) × P)

pub make_token-own :
    (lib : Library) (env : TokenEnv) (req : TokenRequest) (a : AuthStore) (P : Type 0)
    → P
    → AddsOwn P req a (make_token lib env req a)
unfolding make_token
make_token-own lib env req a P passed =
    option_else_ind (AddsOwn P req a) env.random _ _ (λ n t e h. inl h)
      λ b t e h.
        let made : TokenEntry = record {
          pubkey = req.pubkey;
          expires_at = env.made_at + a.token_expiry;
        } in
        let found = sym (lookup-insert (lib.encode_base64url b) t made a.tokens) ∙ h in
        elim (Bool-cases (lib.encode_base64url b == t)) [
          | inl q ↦
              inr (ap (λ (x : TokenEntry). x.pubkey) (some-injective _ _ (rw q at found)), passed)
          | inr q ↦ inl (rw q at found)
        ]

-- The request comes in time for the entry, and is signed.
abbrev pub InTime : Library → TokenEnv → TokenRequest → Option ℕ → Type 0
InTime lib env req entry =
    (expires_at : ℕ) × (entry ≡ some expires_at)
    × (env.now ≤ expires_at)
    × IsChallengeSigned lib req

pub redeem-own :
    (lib : Library) (env : TokenEnv) (req : TokenRequest) (entry : Option ℕ) (a : AuthStore)
    → AddsOwn (InTime lib env req entry) req a (redeem lib env req entry a)
unfolding redeem
redeem-own lib env req entry a = elim (Option-cases entry) [
  | inl n ↦ rw n (λ t e h. inl h)
  | inr (x, f) ↦ rw f (elim (Bool-cases (has_expired env.now x)) [
    | inl q ↦ rw q (λ t e h. inl h)
    | inr q ↦ rw q (
        option_else_ind (AddsOwn (InTime lib env req (some x)) req a) (signature_error lib req) _ _
          (λ passed.
            make_token-own lib env req a (InTime lib env req (some x))
              (x, refl, ground arith, signature_error_sound lib req passed))
          (λ y t e h. inl h))
  ])
]

pub handle_token-own :
    (lib : Library) (env : TokenEnv) (req : TokenRequest) (a : AuthStore)
    → AddsOwn
        (InTime lib env req (lookup req.challenge a.challenges))
        req
        a
        (handle_token lib env (some req) a)
unfolding handle_token
handle_token-own lib env req a = elim (Bool-cases (has_all_fields req)) [
  | inr q ↦ rw q (λ t e h. inl h)
  | inl q ↦ rw q (
      redeem-own lib env req (lookup req.challenge a.challenges)
        (record a { challenges = erase req.challenge a.challenges }))
]
