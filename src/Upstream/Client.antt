-- ===== src/Upstream/Client.antt =====
-- upstream/client.go: the client of the root hub and whether the hub is marked down.
use dataverse_hub.Base.{
  ℕ, Bool, true, false, ◌||◌, not, Option, none, some, Bytes, eqb, if◌then◌else◌, option_else,
  Result, ok, err,
}

pub record Client : Type 0 where
  pub base_url : Bytes
  pub available : Bool

-- a response of the hub; `body` is what io.ReadAll gives
pub record Response : Type 0 where
  pub status : ℕ
  pub body : Option Bytes

-- `NewClient`
abbrev pub new_client : Bytes → Client
new_client base_url = record { base_url = base_url; available = true }

-- `SetAvailable`
abbrev pub set_available : Bool → Client → Client
set_available b u = record u { available = b }

-- `IsDown`
unfoldable pub is_down : ℕ → Bool
is_down status = eqb status 502 || eqb status 503 || eqb status 504 || eqb status 429

pub data ClientError : Type 0 where
  unavailable unreachable : ClientError

-- `Do`; the response is what the transport gives if it is asked, `none` for an error
unfoldable pub do_request : Option Response → Client → Result ClientError Response × Client
do_request response u =
    if not u.available
    then (err unavailable, u)
    else option_else response (err unreachable, set_available false u)
        λ r. (ok r, set_available (not (is_down r.status)) u)

pub data HealthError : Type 0 where
  not_built no_answer gateway_down : HealthError

-- `HealthCheck`, of whether the request is well formed and of the status that comes back
unfoldable pub health_check : Bool → Option ℕ → Client → Option HealthError × Client
health_check built status u =
    if not built
    then (some not_built, u)
    else option_else status (some no_answer, set_available false u)
        λ st.
          if is_down st
          then (some gateway_down, set_available false u)
          else (none, set_available true u)
