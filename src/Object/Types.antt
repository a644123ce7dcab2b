-- ===== src/Object/Types.antt =====
-- object/types.go: the envelope, the item and what the index keeps of them. A time.Time is a number
-- of nanoseconds on a clock that starts before every instant the program meets.
use dataverse_hub.Base.{ℕ, Bool, List, [], ◌++◌, Bytes, bytes, ◌==◌, if◌then◌else◌, ℤ, ltb, length}
use dataverse_hub.Base.Dict.{Dict}

abbrev pub InField : Type 0
InField = List Bytes

-- `Signature` and `Item` are "" where the JSON lacks them.
pub record Envelope : Type 0 where
  pub «is» : Bytes
  pub realms : InField
  pub signature : Bytes
  pub item : Bytes

-- The relations and the content are raw JSON; a missing content is [].
pub record Item : Type 0 where
  pub realms : InField
  pub id : Bytes
  pub pubkey : Bytes
  pub created_at : Bytes
  pub updated_at : Bytes
  pub revision : ℤ
  pub kind : Bytes
  pub instruction : Bytes
  pub relations : Dict (List Bytes)
  pub content : Bytes

-- `ResolveIn`
unfoldable pub resolve_in : Envelope → Item → InField
resolve_in env item =
    if ltb 0 (length item.realms)
    then item.realms
    else if ltb 0 (length env.realms)
    then env.realms
    else []

-- `Item.Ref`
unfoldable pub ref_of : Item → Bytes
ref_of item = item.pubkey ++ (bytes "." ++ item.id)

-- the text that `Item.Timestamp` parses
unfoldable pub timestamp_text : Item → Bytes
timestamp_text item = if item.updated_at == [] then item.created_at else item.updated_at

-- `ObjectMeta`
pub record ObjectMeta : Type 0 where
  pub ref : Bytes
  pub pubkey : Bytes
  pub kind : Bytes
  pub revision : ℤ
  pub has_page_relation : Bool
  pub page_ref : Bytes
  pub mime_type : Bytes
  pub is_public : Bool
  pub realms : List Bytes
  pub updated_at : ℕ

-- `RelationEntry`
pub record RelationEntry : Type 0 where
  pub source_ref : Bytes
  pub relation_type : Bytes

-- `Cursor`
pub record Cursor : Type 0 where
  pub t : ℕ
  pub ref : Bytes
