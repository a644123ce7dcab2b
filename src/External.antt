-- ===== src/External.antt =====
-- What the program takes from packages that are not in the repository: encoding/json, base64,
-- crypto and the calls that read the clock. Their results are parameters.
use dataverse_hub.Base.{ℕ, ℤ, Bool, Option, List, Bytes}
use dataverse_hub.Object.Types.{Envelope, Item, InField, Cursor}

pub record Library : Type 1 where
  -- a decoded JSON value, a curve point, an ASN.1 pair (r, s)
  pub Value : Type 0
  pub Point : Type 0
  pub Signature : Type 0
  -- json.Unmarshal into []string and into string
  pub unmarshal_strings : Bytes → Option (List Bytes)
  pub unmarshal_string : Bytes → Option Bytes
  -- json.Unmarshal into Envelope and into Item; it calls `InField.UnmarshalJSON`, the first argument
  pub unmarshal_envelope : (Bytes → Option InField) → Bytes → Option Envelope
  pub unmarshal_item : (Bytes → Option InField) → Bytes → Option Item
  -- json.Unmarshal into any, and Encoder.Encode with sorted keys and no HTML escapes
  pub unmarshal_any : Bytes → Option Value
  pub encode_any : Value → Option Bytes
  -- json.Unmarshal into RelationRef: its Ref; into sharedRealmContent: its Realm
  pub relation_ref : Bytes → Option Bytes
  pub realm_content : Bytes → Option Bytes
  -- json.Unmarshal into a struct with mime_type, whose error the program drops: the field after it
  pub mime_type : Bytes → Bytes
  -- json.Unmarshal into a struct with html, and into one with mime_type, data and text
  pub html_content : Bytes → Option Bytes
  pub blob_fields : Bytes → Option (Bytes × Bytes × Bytes)
  -- json.Unmarshal into Cursor; strconv.Atoi
  pub cursor_json : Bytes → Option Cursor
  pub atoi : Bytes → Option ℤ
  -- time.ParseDuration, in nanoseconds
  pub parse_duration : Bytes → Option ℤ
  -- time.Parse(time.RFC3339, ·), and the zero time.Time
  pub parse_time : Bytes → Option ℕ
  pub zero_time : ℕ
  -- base64.RawURLEncoding and base64.StdEncoding
  pub encode_base64url : Bytes → Bytes
  pub decode_base64url : Bytes → Option Bytes
  pub decode_base64 : Bytes → Option Bytes
  -- elliptic.UnmarshalCompressed on P-256, asn1.Unmarshal, ecdsa.Verify, sha256.Sum256, sha1
  pub unmarshal_compressed : Bytes → Option Point
  pub unmarshal_signature : Bytes → Option Signature
  pub ecdsa_verify : Point → Bytes → Signature → Bool
  pub sha256 : Bytes → Bytes
  pub sha1 : Bytes → Bytes
