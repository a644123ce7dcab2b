-- ===== src/Tests/Fixture.antt =====
-- A small stand-in for the packages outside the repository, and objects to run the code on.
use dataverse_hub.Base.{
  ℕ, zero, suc, refl, true, Option, none, some, [], ◌∷◌, ◌++◌, Bytes, bytes, length, arith,
  if◌then◌else◌, ℤ, pos,
}
use dataverse_hub.External.{Library}
use dataverse_hub.Object.Ref.{is_base64url_chars}
use dataverse_hub.Object.Types.{Envelope, Item}
use dataverse_hub.Realm.Access.{dataverse001}
use dataverse_hub.Realm.RealmId.{realm_id}
use dataverse_hub.Realm.RealmId.Uuid.{IsSha1}
use dataverse_hub.Realm.RealmId.Address.{IsBase64url}

abbrev pub repeat : ℕ → ℕ → Bytes
repeat zero c = []
repeat (suc n) c = c ∷ repeat n c

abbrev pub alice : Bytes
alice = repeat 44 b'A'

abbrev pub bob : Bytes
bob = repeat 44 b'B'

abbrev pub note_id : Bytes
note_id = bytes "b3f5a7c9-2d4e-4f60-9b8a-0c1d2e3f4a5b"

abbrev pub note_ref : Bytes
note_ref = alice ++ (bytes "." ++ note_id)

abbrev pub note : Item
note = record {
  realms = dataverse001 ∷ [];
  id = note_id;
  pubkey = alice;
  created_at = bytes "now";
  updated_at = [];
  revision = pos 1;
  kind = bytes "NOTE";
  instruction = [];
  relations = [];
  content = [];
}

abbrev pub note_envelope : Envelope
note_envelope = record { «is» = []; realms = []; signature = bytes "sig"; item = bytes "item" }

abbrev decode_key : Bytes → Option Bytes
decode_key s = if is_base64url_chars s then some (2 ∷ repeat 32 0) else none

-- Every body is the note's envelope; every signature is good.
abbrev pub toy : Library
toy = record {
  Value = Bytes;
  Point = Bytes;
  Signature = Bytes;
  unmarshal_strings = λ raw. none;
  unmarshal_string = λ raw. some raw;
  unmarshal_envelope = λ decode raw. some note_envelope;
  unmarshal_item = λ decode raw. some note;
  unmarshal_any = λ raw. some raw;
  encode_any = λ v. some v;
  relation_ref = λ raw. some raw;
  realm_content = λ raw. some raw;
  mime_type = λ raw. [];
  cursor_json = λ raw. none;
  atoi = λ text. some (pos (length text));
  parse_duration = λ text. none;
  html_content = λ raw. some raw;
  blob_fields = λ raw. none;
  parse_time = λ text. some (length text);
  zero_time = 0;
  encode_base64url = λ b. b;
  decode_base64url = decode_key;
  decode_base64 = λ s. some s;
  unmarshal_compressed = λ key. some key;
  unmarshal_signature = λ sig. some sig;
  ecdsa_verify = λ point hash sig. true;
  sha256 = λ s. s;
  sha1 = λ s. repeat 20 7;
}

pub toy-IsSha1 : IsSha1 toy
toy-IsSha1 = record { bytes = λ s. refl }

pub toy-IsBase64url : IsBase64url toy
toy-IsBase64url = record { alphabet = λ s raw h n m. ground arith }

abbrev pub team : Bytes
team = alice ++ bytes ".Team"

-- alice's declaration of her realm, with bob as a member
abbrev pub team_object : ℤ → Item
team_object revision = record note {
  kind = bytes "SHARED_REALM";
  id = realm_id toy team;
  revision = revision;
  relations = (bytes "member", (bob ++ bytes ".x") ∷ []) ∷ [];
  content = team;
}
