-- ===== src/Tests/Sessions.antt =====
-- auth/auth.go at concrete inputs.
use dataverse_hub.Base.{
  ◌≡◌, ◌≢◌, ◌≤◌, ◌+◌, refl, none, some, List, [], ◌∷◌, ◌++◌, Bytes, bytes, ◌==◌, eq_iff, arith,
}
use dataverse_hub.Base.Dict.{Dict, lookup, insert, erase}
use dataverse_hub.Auth.Tokens.{
  AuthStore, TokenEntry, TokenRequest, TokenEnv, Call, challenge, token, sweep, new_auth_store, run,
  step, handle_challenge, handle_token, redeem, make_token, signature_error, validate_token,
  cleanup, drop_challenges, drop_tokens, auth_pubkey, handle_logout,
}
use dataverse_hub.Auth.Tokens.Once.{redeemed, issued, open_count, redeemed-issued}
use dataverse_hub.Auth.Tokens.Proven.{IsProven, validate_token-IsProven}
use dataverse_hub.Auth.Tokens.Sessions.{auth_pubkey-handle_logout}
use dataverse_hub.Object.Ref.{is_base64url_chars}
use dataverse_hub.Tests.Fixture.{alice, toy}

abbrev env : TokenEnv
env = record { now = 5; random = some (bytes "t"); made_at = 6 }

abbrev request : TokenRequest
request = record { pubkey = alice; challenge = bytes "c"; signature = bytes "sig" }

abbrev calls : List Call
calls =
    challenge (some (bytes "c")) 1
    ∷ token env (some request)
    ∷ token env (some request)
    ∷ sweep 7
    ∷ []

-- The second request with the challenge gets no token.
redeemed_once : redeemed toy (bytes "c") calls (new_auth_store 100) ≡ 1
unfolding step handle_challenge handle_token redeem make_token signature_error lookup insert erase
    is_base64url_chars ◌==◌
redeemed_once = refl

redeemed-issued_example :
    redeemed toy (bytes "c") calls (new_auth_store 100)
    ≤ issued toy (bytes "c") calls + open_count (bytes "c") (new_auth_store 100)
redeemed-issued_example = redeemed-issued toy (bytes "c") calls (new_auth_store 100)

is_valid : validate_token (bytes "t") 8 (run toy calls (new_auth_store 100)) ≡ some alice
unfolding run step handle_challenge handle_token redeem make_token signature_error lookup insert
    erase is_base64url_chars cleanup drop_challenges drop_tokens validate_token ◌==◌
is_valid = refl

validate_token-IsProven_example : IsProven toy calls alice
validate_token-IsProven_example = validate_token-IsProven toy calls 100 8 (bytes "t") alice is_valid

abbrev old_tokens : Dict TokenEntry
old_tokens = (bytes "old", record { pubkey = alice; expires_at = 3 }) ∷ []

abbrev logged_in : AuthStore
logged_in = record {
  challenges = [];
  tokens = (bytes "t", record { pubkey = alice; expires_at = 106 }) ∷ old_tokens;
  token_expiry = 100;
}

t-fresh : lookup (bytes "t") old_tokens ≡ none
unfolding lookup ◌==◌
t-fresh = refl

t-nonempty : bytes "t" ≢ []
t-nonempty = ground (arith, eq_iff (bytes "t") [])

auth_pubkey-handle_logout_example :
    (auth_pubkey
        (bytes "Bearer " ++ bytes "t")
        (some (bytes "old"))
        2
        (handle_logout (bytes "Bearer " ++ bytes "t") none logged_in)
      ≡ [])
    × ((other : Bytes)
        → other ≢ bytes "t"
        → validate_token other 2 (handle_logout (bytes "Bearer " ++ bytes "t") none logged_in)
          ≡ validate_token other 2 logged_in)
auth_pubkey-handle_logout_example =
    auth_pubkey-handle_logout (bytes "t") none (some (bytes "old")) 2 logged_in t-nonempty
