-- ===== src/Auth/Tokens/Issued.antt =====
-- auth/auth.go: an open challenge is one that the server gave out.
use mathlib.Core.List.{Memᴰ}
use mathlib.Core.Option.{some-injective}
use dataverse_hub.Base.{
  ℕ, ◌+◌, ◌≡◌, refl, ap, sym, ◌∙◌, none, some, List, [], ◌∷◌, ◌++◌, Bytes, ◌==◌, eq_iff, arith,
  if◌then◌else◌, option_else, Bool-cases, inl, inr,
}
use dataverse_hub.Base.Dict.{
  Dict, lookup, erase, lookup-insert, lookup-erase, IsMap, insert-IsMap, erase-IsMap,
}
use dataverse_hub.External.{Library}
use dataverse_hub.Auth.Tokens.{
  AuthStore, TokenEnv, TokenRequest, Call, challenge, token, logout, sweep, has_all_fields,
  has_expired, redeem, handle_token, handle_challenge, handle_logout, request_token,
  drop_challenges, cleanup, step, challenge_expiry,
}
use dataverse_hub.Auth.Tokens.Once.{redeem-challenges}

-- The server gave out the text as a challenge that can be answered up to this time.
pub record IsIssued (lib : Library) (calls : List Call) (text : Bytes) (expires_at : ℕ)
    : Type 0 where
  pub random : Bytes
  pub at : ℕ
  pub made : Memᴰ (challenge (some random) at) calls
  pub own : lib.encode_base64url random ≡ text
  pub limit : expires_at ≡ at + challenge_expiry

mem-front {ℓ} : {A : Type ℓ} (x : A) (xs ys : List A) → Memᴰ x xs → Memᴰ x (xs ++ ys)
mem-front x [] ys h = elim h [ ]
mem-front x (y ∷ xs) ys (Memᴰ.head e) = Memᴰ.head e
mem-front x (y ∷ xs) ys (Memᴰ.tail h) = Memᴰ.tail (mem-front x xs ys h)

mem-last {ℓ} : {A : Type ℓ} (x : A) (xs : List A) → Memᴰ x (xs ++ x ∷ [])
mem-last x [] = Memᴰ.head refl
mem-last x (y ∷ xs) = Memᴰ.tail (mem-last x xs)

IsIssued-later :
    (lib : Library) (past : List Call) (c : Call) (text : Bytes) (x : ℕ)
    → IsIssued lib past text x
    → IsIssued lib (past ++ c ∷ []) text x
IsIssued-later lib past c text x i = record {
  random = i.random;
  at = i.at;
  made = mem-front (challenge (some i.random) i.at) past (c ∷ []) (i.made);
  own = i.own;
  limit = i.limit;
}

-- Each open challenge of a store after some calls was given out by one of them.
pub record AllIssued (lib : Library) (past : List Call) (a : AuthStore) : Type 0 where
  pub is_map : IsMap a.challenges
  pub issued : (text : Bytes) (x : ℕ) → lookup text a.challenges ≡ some x → IsIssued lib past text x

-- Fewer open challenges keep the invariant.
AllIssued-shrink :
    (lib : Library) (past : List Call) (c : Call) (a b : AuthStore)
    → AllIssued lib past a
    → IsMap b.challenges
    → ((text : Bytes) (x : ℕ)
        → lookup text b.challenges ≡ some x
        → lookup text a.challenges ≡ some x)
    → AllIssued lib (past ++ c ∷ []) b
AllIssued-shrink lib past c a b i m sub = record {
  is_map = m;
  issued = λ text x h. IsIssued-later lib past c text x (i.issued text x (sub text x h));
}

lookup-drop_challenges :
    (now : ℕ) (text : Bytes) (m : Dict ℕ)
    → IsMap m
    → lookup text (drop_challenges now m)
      ≡ option_else (lookup text m) none λ x. if has_expired now x then none else some x
unfolding lookup drop_challenges
lookup-drop_challenges now text [] h = refl
lookup-drop_challenges now text ((t, e) ∷ m) (fresh, h) =
    ground (arith, lookup-drop_challenges now text m h, eq_iff t text)

drop_challenges-IsMap : (now : ℕ) (m : Dict ℕ) → IsMap m → IsMap (drop_challenges now m)
unfolding drop_challenges
drop_challenges-IsMap now [] h = tt
drop_challenges-IsMap now ((t, x) ∷ m) (fresh, h) = elim (Bool-cases (has_expired now x)) [
  | inl q ↦ rw q (drop_challenges-IsMap now m h)
  | inr q ↦ rw q (rw (lookup-drop_challenges now t m h, fresh) refl, drop_challenges-IsMap now m h)
]

handle_token-AllIssued :
    (lib : Library) (env : TokenEnv) (req : TokenRequest) (past : List Call) (a : AuthStore)
    → AllIssued lib past a
    → AllIssued lib (past ++ token env (some req) ∷ []) (handle_token lib env (some req) a).1
unfolding handle_token
handle_token-AllIssued lib env req past a i =
    let cut : AuthStore = record a { challenges = erase req.challenge a.challenges } in
    let same = redeem-challenges lib env req (lookup req.challenge a.challenges) cut in
    elim (Bool-cases (has_all_fields req)) [
      | inr q ↦
          rw q (AllIssued-shrink lib past (token env (some req)) a a i (i.is_map) (λ text x h. h))
      | inl q ↦ rw q (
          AllIssued-shrink lib past (token env (some req)) a
            (redeem lib env req (lookup req.challenge a.challenges) cut).1 i
            (rw same (erase-IsMap req.challenge a.challenges (i.is_map)))
            (λ text x h.
              let k : lookup text (erase req.challenge a.challenges) ≡ some x =
                ap (lookup text) (sym same) ∙ h in
              ground (arith, k, lookup-erase req.challenge text a.challenges)))
    ]

handle_challenge-AllIssued :
    (lib : Library) (b : Bytes) (now : ℕ) (past : List Call) (a : AuthStore)
    → AllIssued lib past a
    → AllIssued lib (past ++ challenge (some b) now ∷ []) (handle_challenge lib (some b) now a).1
unfolding handle_challenge
handle_challenge-AllIssued lib b now past a i = record {
  is_map = insert-IsMap (lib.encode_base64url b) (now + challenge_expiry) a.challenges (i.is_map);
  issued = λ text x h.
      let found =
        sym (lookup-insert (lib.encode_base64url b) text (now + challenge_expiry) a.challenges)
        ∙ h in
      elim (Bool-cases (lib.encode_base64url b == text)) [
        | inr q ↦
            IsIssued-later lib past (challenge (some b) now) text x
              (i.issued text x (rw q at found))
        | inl q ↦ record {
          random = b;
          at = now;
          made = mem-last (challenge (some b) now) past;
          own = (eq_iff (lib.encode_base64url b) text).0 q;
          limit = sym (some-injective _ _ (rw q at found));
        }
      ];
}

pub step-AllIssued :
    (lib : Library) (c : Call) (past : List Call) (a : AuthStore)
    → AllIssued lib past a
    → AllIssued lib (past ++ c ∷ []) (step lib c a)
unfolding step handle_challenge handle_token handle_logout cleanup
step-AllIssued lib (challenge none now) past a i =
    AllIssued-shrink lib past (challenge none now) a a i (i.is_map) (λ text x h. h)
step-AllIssued lib (challenge (some b) now) past a i = handle_challenge-AllIssued lib b now past a i
step-AllIssued lib (token env none) past a i =
    AllIssued-shrink lib past (token env none) a a i (i.is_map) (λ text x h. h)
step-AllIssued lib (token env (some req)) past a i = handle_token-AllIssued lib env req past a i
step-AllIssued lib (logout header cookie) past a i =
    elim (Bool-cases (request_token header cookie == [])) [
      | inl q ↦
          rw q (AllIssued-shrink lib past (logout header cookie) a a i (i.is_map) (λ text x h. h))
      | inr q ↦ rw q (
          AllIssued-shrink lib past (logout header cookie) a
            (record a { tokens = erase (request_token header cookie) a.tokens }) i (i.is_map)
            (λ text x h. h))
    ]
step-AllIssued lib (sweep now) past a i =
    AllIssued-shrink lib past (sweep now) a (cleanup now a) i
      (drop_challenges-IsMap now a.challenges (i.is_map))
      (λ text x h. ground (arith, h, lookup-drop_challenges now text a.challenges (i.is_map)))
