-- ===== src/Auth/Tokens/Sessions.antt =====
-- auth/auth.go: how long a token is good.
use dataverse_hub.Base.{
  ℕ, ◌≤◌, ◌≡◌, ◌≢◌, refl, ◌∙◌, Option, none, some, [], ◌∷◌, ◌++◌, Bytes, bytes, ◌==◌, eq_iff,
  eq_refl, arith, if◌then◌else◌, option_else, Option-cases, inl, inr,
}
use dataverse_hub.Base.Affix.{strip_prefix}
use dataverse_hub.Base.Dict.{Dict, lookup, erase, lookup-erase, IsMap}
use dataverse_hub.Auth.Tokens.{
  AuthStore, TokenEntry, has_expired, handle_logout, validate_token, auth_pubkey, request_token,
  extract_bearer_token, drop_tokens, cleanup,
}

pub lookup-drop_tokens :
    (now : ℕ) (token : Bytes) (m : Dict TokenEntry)
    → IsMap m
    → lookup token (drop_tokens now m)
      ≡ option_else (lookup token m) none λ e. if has_expired now e.expires_at then none else some e
unfolding lookup drop_tokens
lookup-drop_tokens now token [] h = refl
lookup-drop_tokens now token ((t, e) ∷ m) (fresh, h) =
    ground (arith, lookup-drop_tokens now token m h, eq_iff t token)

-- The sweep in the background never logs anybody out: a token is as good after it as before, in a
-- store with one entry for each token.
pub validate_token-cleanup :
    (now later : ℕ) (token : Bytes) (a : AuthStore)
    → IsMap a.tokens
    → now ≤ later
    → validate_token token later (cleanup now a) ≡ validate_token token later a
unfolding validate_token cleanup
validate_token-cleanup now later token a h le = elim (Option-cases (lookup token a.tokens)) [
  | inl n ↦ rw (lookup-drop_tokens now token a.tokens h, n)
  | inr (e, f) ↦ rw (lookup-drop_tokens now token a.tokens h, f) (ground arith)
]

-- The token of a Bearer header is the text after "Bearer ".
request_token-bearer :
    (token : Bytes) (cookie : Option Bytes)
    → token ≢ []
    → request_token (bytes "Bearer " ++ token) cookie ≡ token
unfolding request_token extract_bearer_token strip_prefix
request_token-bearer token cookie n = ground (arith, eq_iff token [])

handle_logout-bearer :
    (token : Bytes) (cookie : Option Bytes) (a : AuthStore)
    → token ≢ []
    → handle_logout (bytes "Bearer " ++ token) cookie a ≡ record a { tokens = erase token a.tokens }
unfolding handle_logout
handle_logout-bearer token cookie a n =
    rw (request_token-bearer token cookie n) (ground (arith, eq_iff token []))

auth_pubkey-bearer :
    (token : Bytes) (cookie : Option Bytes) (now : ℕ) (a : AuthStore)
    → token ≢ []
    → validate_token token now a ≡ none
    → auth_pubkey (bytes "Bearer " ++ token) cookie now a ≡ []
unfolding auth_pubkey
auth_pubkey-bearer token cookie now a n h =
    rw (request_token-bearer token cookie n, h) (ground arith)

validate_token-erase :
    (token other : Bytes) (now : ℕ) (a : AuthStore)
    → validate_token other now (record a { tokens = erase token a.tokens })
      ≡ (if token == other then none else validate_token other now a)
unfolding validate_token
validate_token-erase token other now a = ground (arith, lookup-erase token other a.tokens)

-- After a logout with a token that is not empty, a request with that token in its header is
-- anonymous, whatever its cookie is, and every other token is as good as before.
pub auth_pubkey-handle_logout :
    (token : Bytes) (cookie later_cookie : Option Bytes) (now : ℕ) (a : AuthStore)
    → token ≢ []
    → (auth_pubkey
          (bytes "Bearer " ++ token)
          later_cookie
          now
          (handle_logout (bytes "Bearer " ++ token) cookie a)
        ≡ [])
      × ((other : Bytes)
          → other ≢ token
          → validate_token other now (handle_logout (bytes "Bearer " ++ token) cookie a)
            ≡ validate_token other now a)
auth_pubkey-handle_logout token cookie later_cookie now a n =
    rw (handle_logout-bearer token cookie a n) (
      auth_pubkey-bearer token later_cookie now (record a { tokens = erase token a.tokens }) n
          (validate_token-erase token token now a ∙ rw (eq_refl token)),
      λ other ne. validate_token-erase token other now a ∙ ground (arith, ne, eq_iff token other),
    )
