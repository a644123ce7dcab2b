-- ===== src/Auth/Tokens.antt =====
-- auth/auth.go: `AuthStore`, the challenges and the bearer tokens. Each access to the maps is under
-- the lock; the bytes that rand.Read gives and the times of time.Now are arguments.
pub mod Issued
pub mod Once
pub mod Answered
pub mod Proven
pub mod Sessions
use dataverse_hub.Base.{
  ℕ, ◌+◌, ◌*◌, ◌^◌, Bool, true, false, ◌&&◌, ◌||◌, not, Option, none, some, List, [], ◌∷◌, Bytes,
  bytes, ◌==◌, length, eqb, ltb, if◌then◌else◌, option_else, is_some, Result, ok, err,
}
use dataverse_hub.Base.Affix.{strip_prefix, has_prefix, trim_prefix}
use dataverse_hub.Base.Dict.{Dict, lookup, insert, erase}
use dataverse_hub.External.{Library}

pub record TokenEntry : Type 0 where
  pub pubkey : Bytes
  pub expires_at : ℕ

-- a challenge is kept with the time at which it expires
pub record AuthStore : Type 0 where
  pub challenges : Dict ℕ
  pub tokens : Dict TokenEntry
  pub token_expiry : ℕ

-- 5*time.Minute in nanoseconds
abbrev pub challenge_expiry : ℕ
challenge_expiry = 5 * 60 * 10 ^ 9

-- `NewAuthStore`
abbrev pub new_auth_store : ℕ → AuthStore
new_auth_store token_expiry = record { challenges = []; tokens = []; token_expiry = token_expiry }

-- `HandleChallenge`: the challenge, or `none` for an internal error
unfoldable pub handle_challenge : Library → Option Bytes → ℕ → AuthStore → Option Bytes × AuthStore
handle_challenge lib random now a =
    option_else random (none, a)
      λ b. (
        some (lib.encode_base64url b),
        record a {
          challenges = insert (lib.encode_base64url b) (now + challenge_expiry) a.challenges;
        },
      )

pub record TokenRequest : Type 0 where
  pub pubkey : Bytes
  pub challenge : Bytes
  pub signature : Bytes

pub data TokenError : Type 0 where
  invalid_body missing_fields challenge_expired invalid_pubkey invalid_signature_encoding :
      TokenError
  invalid_signature_format verification_failed internal : TokenError

pub record TokenReply : Type 0 where
  pub token : Bytes
  pub pubkey : Bytes
  pub expires_at : ℕ

-- the time of the check, the random bytes, and the time at which the token is made
pub record TokenEnv : Type 0 where
  pub now : ℕ
  pub random : Option Bytes
  pub made_at : ℕ

abbrev pub has_all_fields : TokenRequest → Bool
has_all_fields req =
    not (req.pubkey == []) && not (req.challenge == []) && not (req.signature == [])

-- `now.After(expiresAt)`
abbrev pub has_expired : ℕ → ℕ → Bool
has_expired now expires_at = ltb expires_at now

module _ (lib : Library) where
  -- the checks of the key and of the signature; `none` is that they pass
  unfoldable pub signature_error : TokenRequest → Option TokenError
  signature_error req = option_else (lib.decode_base64url req.pubkey) (some invalid_pubkey) λ key.
      if not (eqb (length key) 33)
      then some invalid_pubkey
      else option_else (lib.unmarshal_compressed key) (some invalid_pubkey) λ point.
        option_else (lib.decode_base64 req.signature) (some invalid_signature_encoding) λ raw.
          option_else (lib.unmarshal_signature raw) (some invalid_signature_format) λ sig.
            if not (lib.ecdsa_verify point (lib.sha256 req.challenge) sig)
            then some verification_failed
            else none

  -- from the making of the token on
  unfoldable pub make_token :
      TokenEnv → TokenRequest → AuthStore → Result TokenError TokenReply × AuthStore
  make_token env req a =
      option_else env.random (err internal, a)
        λ b. (
          ok (record {
            token = lib.encode_base64url b;
            pubkey = req.pubkey;
            expires_at = env.made_at + a.token_expiry;
          }),
          record a {
            tokens =
                insert (lib.encode_base64url b)
                  (record { pubkey = req.pubkey; expires_at = env.made_at + a.token_expiry })
                  a.tokens;
          },
        )

  -- from the check of the expiry on; `entry` is what the map held
  unfoldable pub redeem :
      TokenEnv → TokenRequest → Option ℕ → AuthStore → Result TokenError TokenReply × AuthStore
  unfolding make_token
  redeem env req entry a =
      option_else entry (err challenge_expired, a)
        λ expires_at.
          if has_expired env.now expires_at
          then (err challenge_expired, a)
          else option_else (signature_error req) (make_token env req a) λ e. (err e, a)

  -- `HandleToken`, of the decoded body, with its two sections under the lock one after the other
  unfoldable pub handle_token :
      TokenEnv → Option TokenRequest → AuthStore → Result TokenError TokenReply × AuthStore
  handle_token env body a =
      option_else body (err invalid_body, a)
        λ req.
          if not (has_all_fields req)
          then (err missing_fields, a)
          else redeem env req (lookup req.challenge a.challenges)
              (record a { challenges = erase req.challenge a.challenges })

-- `extractBearerToken`, of the header Authorization
unfoldable pub extract_bearer_token : Bytes → Bytes
extract_bearer_token header =
    if not (has_prefix header (bytes "Bearer ")) then [] else trim_prefix header (bytes "Bearer ")

-- `extractCookieToken`, of the cookie dv_session
abbrev pub extract_cookie_token : Option Bytes → Bytes
extract_cookie_token cookie = option_else cookie [] λ value. value

-- the token that `HandleLogout` and `Middleware` take
unfoldable pub request_token : Bytes → Option Bytes → Bytes
unfolding extract_bearer_token
request_token header cookie =
    if extract_bearer_token header == []
    then extract_cookie_token cookie
    else extract_bearer_token header

-- `HandleLogout`
unfoldable pub handle_logout : Bytes → Option Bytes → AuthStore → AuthStore
unfolding request_token
handle_logout header cookie a =
    if not (request_token header cookie == [])
    then record a { tokens = erase (request_token header cookie) a.tokens }
    else a

-- `ValidateToken`
unfoldable pub validate_token : Bytes → ℕ → AuthStore → Option Bytes
validate_token token now a =
    option_else (lookup token a.tokens) none
      λ entry. if has_expired now entry.expires_at then none else some entry.pubkey

-- `Middleware` and `AuthPubkey`: the key that the handlers see, "" for an anonymous request
unfoldable pub auth_pubkey : Bytes → Option Bytes → ℕ → AuthStore → Bytes
unfolding request_token validate_token
auth_pubkey header cookie now a =
    if not (request_token header cookie == [])
    then (option_else (validate_token (request_token header cookie) now a) [] λ pubkey. pubkey)
    else []

-- the two loops of `cleanup`
unfoldable pub drop_challenges : ℕ → Dict ℕ → Dict ℕ
drop_challenges now [] = []
drop_challenges now ((c, expires_at) ∷ m) =
    let rest = drop_challenges now m in
    if has_expired now expires_at then rest else (c, expires_at) ∷ rest

unfoldable pub drop_tokens : ℕ → Dict TokenEntry → Dict TokenEntry
drop_tokens now [] = []
drop_tokens now ((t, entry) ∷ m) =
    let rest = drop_tokens now m in
    if has_expired now entry.expires_at then rest else (t, entry) ∷ rest

-- `cleanup`
unfoldable pub cleanup : ℕ → AuthStore → AuthStore
unfolding drop_challenges drop_tokens
cleanup now a = record a {
  challenges = drop_challenges now a.challenges;
  tokens = drop_tokens now a.tokens;
}

-- the calls that change the store, one at a time in any order; no call comes between the two sections
-- under the lock of one `HandleToken`
pub data Call : Type 0 where
  challenge : Option Bytes → ℕ → Call
  token : TokenEnv → Option TokenRequest → Call
  logout : Bytes → Option Bytes → Call
  sweep : ℕ → Call

unfoldable pub step : Library → Call → AuthStore → AuthStore
step lib (challenge random now) a = (handle_challenge lib random now a).1
step lib (token env body) a = (handle_token lib env body a).1
step lib (logout header cookie) a = handle_logout header cookie a
step lib (sweep now) a = cleanup now a

unfoldable pub run : Library → List Call → AuthStore → AuthStore
unfolding step
run lib [] a = a
run lib (c ∷ calls) a = run lib calls (step lib c a)
