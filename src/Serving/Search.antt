-- ===== src/Serving/Search.antt =====
-- serving/handlers.go: `handleListObjects` and `handleGetInbound`, but for the bytes of the items and
-- the encoding of the next cursor.
pub mod Bounded
use dataverse_hub.Base.{
  ℕ, Bool, true, false, ◌||◌, not, Option, none, some, [], Bytes, bytes, ◌==◌, ℤ, pos, negsuc, ltb,
  eqb, if◌then◌else◌, option_else, Result, ok, err,
}
use dataverse_hub.External.{Library}
use dataverse_hub.Object.Ref.{is_valid_ref}
use dataverse_hub.Object.Types.{Cursor}
use dataverse_hub.Serving.Paginate.{Page, paginate_and_load}
use dataverse_hub.Storage.Index.{Index}
use dataverse_hub.Storage.Index.Queries.{InboundFilters, get_all, get_inbound}
use dataverse_hub.Storage.Store.{Store}

-- `parseLimit` after the conversion
abbrev pub clamp_limit : ℤ → ℕ → ℕ → ℕ
clamp_limit (pos n) default_val max_val =
    if ltb n 1 then default_val else if ltb max_val n then max_val else n
clamp_limit (negsuc n) default_val max_val = default_val

-- `parseLimit`
unfoldable pub parse_limit : Library → Bytes → ℕ → ℕ → ℕ
parse_limit lib s default_val max_val =
    if s == []
    then default_val
    else option_else (lib.atoi s) default_val λ n. clamp_limit n default_val max_val

-- `parseCursor`
unfoldable pub parse_cursor : Library → Bytes → Option Cursor
parse_cursor lib s =
    if s == []
    then none
    else option_else (lib.decode_base64url s) none λ content. lib.cursor_json content

-- the parameters of the query, "" for a missing one, and the key of the session
pub record SearchQuery : Type 0 where
  pub by : Bytes
  pub kind : Bytes
  pub relation : Bytes
  pub from : Bytes
  pub limit : Bytes
  pub cursor : Bytes
  pub members_only : Bytes
  pub auth_pubkey : Bytes

-- true unless the query says "false"
abbrev pub asks_members_only : SearchQuery → Bool
asks_members_only q = not (q.members_only == bytes "false")

-- `handleListObjects`
unfoldable pub handle_list_objects : Library → SearchQuery → Index → Store → Page
handle_list_objects lib q idx s =
    paginate_and_load s (get_all idx q.by q.kind q.auth_pubkey (asks_members_only q))
      (parse_cursor lib q.cursor) (parse_limit lib q.limit 50 200)

-- `handleGetInbound`; `none` is the 404
unfoldable pub handle_get_inbound : Library → Bytes → SearchQuery → Index → Store → Option Page
handle_get_inbound lib ref q idx s =
    let filters : InboundFilters = record { relation = q.relation; from = q.from; kind = q.kind } in
    if not (is_valid_ref ref)
    then none
    else some (
        paginate_and_load s (get_inbound idx ref filters q.auth_pubkey (asks_members_only q))
          (parse_cursor lib q.cursor) (parse_limit lib q.limit 50 200))
