-- ===== src/Auth/Tokens/Once.antt =====
-- auth/auth.go: a challenge gives at most one token.
use dataverse_hub.Base.{
  ℕ, ◌+◌, ◌≤◌, ◌≡◌, refl, Bool, true, false, ◌&&◌, Option, none, some, List, [], ◌∷◌, Bytes, ◌==◌,
  eq_iff, arith, if◌then◌else◌, option_else_ind, is_some, Bool-cases, inl, inr, Result, ok, err,
}
use dataverse_hub.Base.Dict.{Dict, lookup, erase, lookup-insert, lookup-erase}
use dataverse_hub.External.{Library}
use dataverse_hub.Auth.Tokens.{
  AuthStore, TokenRequest, TokenEnv, TokenError, TokenReply, Call, challenge, token, logout, sweep,
  has_all_fields, has_expired, signature_error, make_token, redeem, handle_token, handle_challenge,
  handle_logout, drop_challenges, cleanup, step, challenge_expiry,
}

abbrev pub is_ok {ℓ} : {E : Type 0} {A : Type ℓ} → Result E A → Bool
is_ok (ok a) = true
is_ok (err e) = false

-- 1 if the challenge is open, and 0 if not.
abbrev pub open_count : Bytes → AuthStore → ℕ
open_count c a = if is_some (lookup c a.challenges) then 1 else 0

-- How often the server has issued the text as a challenge.
abbrev pub issued : Library → Bytes → List Call → ℕ
issued lib c [] = 0
issued lib c (challenge (some b) now ∷ calls) =
    (if lib.encode_base64url b == c then 1 else 0) + issued lib c calls
issued lib c (challenge none now ∷ calls) = issued lib c calls
issued lib c (token env body ∷ calls) = issued lib c calls
issued lib c (logout header cookie ∷ calls) = issued lib c calls
issued lib c (sweep now ∷ calls) = issued lib c calls

-- 1 if the request answers the challenge and gets a token.
abbrev pub gives : Library → Bytes → TokenEnv → TokenRequest → AuthStore → ℕ
gives lib c env req a =
    if req.challenge == c && is_ok (handle_token lib env (some req) a).0 then 1 else 0

-- How many tokens the requests with the challenge get.
abbrev pub redeemed : Library → Bytes → List Call → AuthStore → ℕ
redeemed lib c [] a = 0
redeemed lib c (token env (some req) ∷ calls) a =
    gives lib c env req a + redeemed lib c calls (step lib (token env (some req)) a)
redeemed lib c (token env none ∷ calls) a = redeemed lib c calls (step lib (token env none) a)
redeemed lib c (challenge random now ∷ calls) a =
    redeemed lib c calls (step lib (challenge random now) a)
redeemed lib c (logout header cookie ∷ calls) a =
    redeemed lib c calls (step lib (logout header cookie) a)
redeemed lib c (sweep now ∷ calls) a = redeemed lib c calls (step lib (sweep now) a)

pub redeem-challenges :
    (lib : Library) (env : TokenEnv) (req : TokenRequest) (entry : Option ℕ) (a : AuthStore)
    → (redeem lib env req entry a).1.challenges ≡ a.challenges
unfolding redeem make_token
redeem-challenges lib env req none a = refl
redeem-challenges lib env req (some t) a = elim (Bool-cases (has_expired env.now t)) [
  | inl e ↦ rw e refl
  | inr e ↦ rw e (
      option_else_ind
        (λ (x : Result TokenError TokenReply × AuthStore). x.1.challenges ≡ a.challenges)
        (signature_error lib req) _ _
        (λ passed.
          option_else_ind
            (λ (x : Result TokenError TokenReply × AuthStore). x.1.challenges ≡ a.challenges)
            env.random _ _ (λ missing. refl) (λ b. refl))
        (λ x. refl))
]

redeem_of_none :
    (lib : Library) (env : TokenEnv) (req : TokenRequest) (entry : Option ℕ) (a : AuthStore)
    → is_ok (redeem lib env req entry a).0 ≡ true
    → is_some entry ≡ true
unfolding redeem
redeem_of_none lib env req none a h = cc
redeem_of_none lib env req (some t) a h = refl

open_count-erase :
    (c d : Bytes) (m : Dict ℕ)
    → is_some (lookup c (erase d m)) ≡ (if d == c then false else is_some (lookup c m))
open_count-erase c d m = rw (lookup-erase d c m) (ground (arith, eq_iff d c))

drop_challenges-subset :
    (now : ℕ) (c : Bytes) (m : Dict ℕ)
    → is_some (lookup c (drop_challenges now m)) ≡ true
    → is_some (lookup c m) ≡ true
unfolding lookup drop_challenges
drop_challenges-subset now c [] h = h
drop_challenges-subset now c ((d, t) ∷ m) h = ground (arith, drop_challenges-subset now c m)

handle_token-count :
    (lib : Library) (c : Bytes) (env : TokenEnv) (req : TokenRequest) (a : AuthStore)
    → gives lib c env req a + open_count c (handle_token lib env (some req) a).1 ≤ open_count c a
unfolding handle_token
handle_token-count lib c env req a =
    let after : AuthStore = record a { challenges = erase req.challenge a.challenges } in
    let entry = lookup req.challenge a.challenges in
    elim (Bool-cases (has_all_fields req)) [
      | inr e ↦ rw e (ground arith)
      | inl e ↦ rw e (elim (Bool-cases (is_ok (redeem lib env req entry after).0)) [
        | inr r ↦
            rw (redeem-challenges lib env req entry after, r)
              (ground (arith, open_count-erase c req.challenge a.challenges))
        | inl r ↦
            rw (redeem-challenges lib env req entry after, r)
              (ground (
                arith,
                redeem_of_none lib env req entry after r,
                open_count-erase c req.challenge a.challenges,
                eq_iff req.challenge c,
              ))
      ])
    ]

handle_challenge-count :
    (lib : Library) (c b : Bytes) (now : ℕ) (a : AuthStore)
    → open_count c (handle_challenge lib (some b) now a).1
      ≤ (if lib.encode_base64url b == c then 1 else 0) + open_count c a
unfolding handle_challenge
handle_challenge-count lib c b now a =
    ground (arith, lookup-insert (lib.encode_base64url b) c (now + challenge_expiry) a.challenges)

handle_logout-count :
    (c header : Bytes) (cookie : Option Bytes) (a : AuthStore)
    → open_count c (handle_logout header cookie a) ≡ open_count c a
unfolding handle_logout
handle_logout-count c header cookie a = ground arith

cleanup-count :
    (c : Bytes) (now : ℕ) (a : AuthStore) → open_count c (cleanup now a) ≤ open_count c a
unfolding cleanup
cleanup-count c now a = ground (arith, drop_challenges-subset now c a.challenges)

-- However the calls of all clients follow one another, the requests with a challenge get at most as
-- many tokens as the challenge was issued, and one more if it was open before.
pub redeemed-issued :
    (lib : Library) (c : Bytes) (calls : List Call) (a : AuthStore)
    → redeemed lib c calls a ≤ issued lib c calls + open_count c a
unfolding step handle_token handle_challenge
redeemed-issued lib c [] a = omega arith
redeemed-issued lib c (token env (some req) ∷ calls) a = omega (
  arith,
  handle_token-count lib c env req a,
  redeemed-issued lib c calls (handle_token lib env (some req) a).1,
)
redeemed-issued lib c (token env none ∷ calls) a = redeemed-issued lib c calls a
redeemed-issued lib c (challenge (some b) now ∷ calls) a = omega (
  arith,
  handle_challenge-count lib c b now a,
  redeemed-issued lib c calls (handle_challenge lib (some b) now a).1,
)
redeemed-issued lib c (challenge none now ∷ calls) a = redeemed-issued lib c calls a
redeemed-issued lib c (logout header cookie ∷ calls) a = omega (
  arith,
  handle_logout-count c header cookie a,
  redeemed-issued lib c calls (handle_logout header cookie a),
)
redeemed-issued lib c (sweep now ∷ calls) a =
    omega (arith, cleanup-count c now a, redeemed-issued lib c calls (cleanup now a))
