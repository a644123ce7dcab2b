-- ===== src/Auth/Tokens/Proven.antt =====
-- auth/auth.go: a reader is only authenticated as a key that has signed a challenge.
use mathlib.Core.List.{append_assoc, append-nil}
use mathlib.Core.Option.{some-injective}
use dataverse_hub.Base.{
  ℕ, ◌≤◌, ◌≡◌, refl, ap, sym, ◌∙◌, Option, none, some, List, [], ◌∷◌, ◌++◌, Bytes, ◌==◌, arith,
  option_else_ind, option_else-inv, if-inv, Bool-cases, inl, inr, Result, subst,
}
use dataverse_hub.Base.Dict.{Dict, lookup, lookup-erase, IsMap, insert-IsMap, erase-IsMap}
use dataverse_hub.Auth.Tokens.Issued.{IsIssued, AllIssued, step-AllIssued}
use dataverse_hub.Auth.Tokens.Sessions.{lookup-drop_tokens}
use dataverse_hub.External.{Library}
use dataverse_hub.Auth.Tokens.{
  AuthStore, TokenEntry, TokenRequest, TokenEnv, TokenError, TokenReply, Call, challenge, token,
  logout, sweep, has_all_fields, has_expired, signature_error, make_token, redeem, handle_token,
  handle_challenge, handle_logout, request_token, validate_token, drop_tokens, cleanup, step, run,
  new_auth_store,
}
use dataverse_hub.Auth.Tokens.Answered.{IsChallengeSigned, handle_token-own}

-- Some request of the calls names the key, comes in time after the challenge that it answers was given
-- out, and carries a signature of this challenge by the key.
pub record IsProven (lib : Library) (calls : List Call) (pubkey : Bytes) : Type 0 where
  pub before : List Call
  pub after : List Call
  pub env : TokenEnv
  pub request : TokenRequest
  pub expires_at : ℕ
  pub sent : calls ≡ before ++ token env (some request) ∷ after
  pub issued : IsIssued lib before request.challenge expires_at
  pub in_time : env.now ≤ expires_at
  pub own : request.pubkey ≡ pubkey
  pub signed : IsChallengeSigned lib request

lookup-handle_logout :
    (header : Bytes) (cookie : Option Bytes) (a : AuthStore) (t : Bytes) (e : TokenEntry)
    → lookup t (handle_logout header cookie a).tokens ≡ some e
    → lookup t a.tokens ≡ some e
unfolding handle_logout
lookup-handle_logout header cookie a t e h =
    ground (arith, h, lookup-erase (request_token header cookie) t a.tokens)

drop_tokens-IsMap : (now : ℕ) (m : Dict TokenEntry) → IsMap m → IsMap (drop_tokens now m)
unfolding drop_tokens
drop_tokens-IsMap now [] h = tt
drop_tokens-IsMap now ((t, e) ∷ m) (fresh, h) = elim (Bool-cases (has_expired now e.expires_at)) [
  | inl q ↦ rw q (drop_tokens-IsMap now m h)
  | inr q ↦ rw q (rw (lookup-drop_tokens now t m h, fresh) refl, drop_tokens-IsMap now m h)
]

lookup-cleanup :
    (now : ℕ) (a : AuthStore) (t : Bytes) (e : TokenEntry)
    → IsMap a.tokens
    → lookup t (cleanup now a).tokens ≡ some e
    → lookup t a.tokens ≡ some e
unfolding cleanup
lookup-cleanup now a t e m h = ground (arith, h, lookup-drop_tokens now t a.tokens m)

abbrev MapsTokens : Result TokenError TokenReply × AuthStore → Type 0
MapsTokens x = IsMap x.1.tokens

handle_token-IsMap :
    (lib : Library) (env : TokenEnv) (body : Option TokenRequest) (a : AuthStore)
    → IsMap a.tokens
    → MapsTokens (handle_token lib env body a)
unfolding handle_token redeem make_token
handle_token-IsMap lib env body a m =
    option_else_ind MapsTokens body _ _ (λ n. m)
      λ req. elim (Bool-cases (has_all_fields req)) [
        | inr q ↦ rw q m
        | inl q ↦ rw q (
            option_else_ind MapsTokens (lookup req.challenge a.challenges) _ _ (λ n. m)
              λ x. elim (Bool-cases (has_expired env.now x)) [
                | inl r ↦ rw r m
                | inr r ↦ rw r (
                    option_else_ind MapsTokens (signature_error lib req) _ _
                      (λ passed.
                        option_else_ind MapsTokens env.random _ _ (λ n. m)
                          λ b. insert-IsMap (lib.encode_base64url b) _ a.tokens m)
                      (λ x. m))
              ])
      ]

step-IsMap :
    (lib : Library) (c : Call) (a : AuthStore) → IsMap a.tokens → IsMap (step lib c a).tokens
unfolding step handle_challenge handle_logout cleanup
step-IsMap lib (challenge none now) a m = m
step-IsMap lib (challenge (some b) now) a m = m
step-IsMap lib (token env body) a m = handle_token-IsMap lib env body a m
step-IsMap lib (logout header cookie) a m = elim (Bool-cases (request_token header cookie == [])) [
  | inl q ↦ rw q m
  | inr q ↦ rw q (erase-IsMap (request_token header cookie) a.tokens m)
]
step-IsMap lib (sweep now) a m = drop_tokens-IsMap now a.tokens m

IsProven-later :
    (lib : Library) (past : List Call) (c : Call) (pubkey : Bytes)
    → IsProven lib past pubkey
    → IsProven lib (past ++ c ∷ []) pubkey
IsProven-later lib past c pubkey p = record {
  before = p.before;
  after = p.after ++ c ∷ [];
  env = p.env;
  request = p.request;
  expires_at = p.expires_at;
  sent =
      ap (λ xs. xs ++ c ∷ []) p.sent
      ∙ append_assoc p.before (token p.env (some p.request) ∷ p.after) (c ∷ []);
  issued = p.issued;
  in_time = p.in_time;
  own = p.own;
  signed = p.signed;
}

-- The tokens of a store after some calls are those of keys that have proved themselves.
record Holds (lib : Library) (past : List Call) (a : AuthStore) : Type 0 where
  is_map : IsMap a.tokens
  open_issued : AllIssued lib past a
  proven : (t : Bytes) (e : TokenEntry) → lookup t a.tokens ≡ some e → IsProven lib past e.pubkey

-- A token after a call was there before, or the call proves its key.
step-IsProven :
    (lib : Library) (c : Call) (past : List Call) (a : AuthStore) (t : Bytes) (e : TokenEntry)
    → Holds lib past a
    → lookup t (step lib c a).tokens ≡ some e
    → IsProven lib (past ++ c ∷ []) e.pubkey
unfolding step handle_challenge handle_token
step-IsProven lib (challenge none now) past a t e m h =
    IsProven-later lib past (challenge none now) e.pubkey (m.proven t e h)
step-IsProven lib (challenge (some b) now) past a t e m h =
    IsProven-later lib past (challenge (some b) now) e.pubkey (m.proven t e h)
step-IsProven lib (token env none) past a t e m h =
    IsProven-later lib past (token env none) e.pubkey (m.proven t e h)
step-IsProven lib (token env (some req)) past a t e m h =
    elim (handle_token-own lib env req a t e h) [
      | inl old ↦ IsProven-later lib past (token env (some req)) e.pubkey (m.proven t e old)
      | inr (own, (x, found, in_time, signed)) ↦ record {
        before = past;
        after = [];
        env = env;
        request = req;
        expires_at = x;
        sent = refl;
        issued = (m.open_issued).issued req.challenge x found;
        in_time = in_time;
        own = own;
        signed = signed;
      }
    ]
step-IsProven lib (logout header cookie) past a t e m h =
    IsProven-later lib past (logout header cookie) e.pubkey
      (m.proven t e (lookup-handle_logout header cookie a t e h))
step-IsProven lib (sweep now) past a t e m h =
    IsProven-later lib past (sweep now) e.pubkey
      (m.proven t e (lookup-cleanup now a t e (m.is_map) h))

run-Holds :
    (lib : Library) (calls past : List Call) (a : AuthStore)
    → Holds lib past a
    → Holds lib (past ++ calls) (run lib calls a)
unfolding run
run-Holds lib [] past a m = subst (λ xs. Holds lib xs a) (sym (append-nil past)) m
run-Holds lib (c ∷ calls) past a m =
    subst (λ xs. Holds lib xs (run lib calls (step lib c a))) (append_assoc past (c ∷ []) calls)
      (run-Holds lib calls (past ++ c ∷ []) (step lib c a) (record {
        is_map = step-IsMap lib c a (m.is_map);
        open_issued = step-AllIssued lib c past a (m.open_issued);
        proven = λ t e h. step-IsProven lib c past a t e m h;
      }))

-- A server that starts without tokens authenticates a request as a key only if some request for a
-- token named this key, answered in time a challenge that the server had given out before, and carried
-- a signature of this challenge that verifies under the key; whatever calls of all clients come, in
-- any order.
pub validate_token-IsProven :
    (lib : Library) (calls : List Call) (token_expiry now : ℕ) (t pubkey : Bytes)
    → validate_token t now (run lib calls (new_auth_store token_expiry)) ≡ some pubkey
    → IsProven lib calls pubkey
unfolding validate_token lookup
validate_token-IsProven lib calls token_expiry now t pubkey h =
    let (e, found, rest) =
      option_else-inv (lookup t (run lib calls (new_auth_store token_expiry)).tokens) _ _ h (cc) in
    let (_, own) = if-inv (has_expired now e.expires_at) _ _ rest (cc) in
    let m = run-Holds lib calls [] (new_auth_store token_expiry) (record {
      is_map = tt;
      open_issued = record { is_map = tt; issued = λ text x q. absurd (cc) };
      proven = λ s x q. absurd (cc);
    }) in
    subst (IsProven lib calls) (some-injective _ _ own) (m.proven t e found)
