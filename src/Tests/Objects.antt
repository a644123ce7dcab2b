-- ===== src/Tests/Objects.antt =====
-- object/ at concrete inputs.
use dataverse_hub.Base.{◌≡◌, refl, ◌↔◌, true, false, none, bytes, ◌==◌}
use dataverse_hub.Object.Ref.{is_valid_ref, is_base64url_chars}
use dataverse_hub.Object.Ref.Shape.{IsRef, is_valid_ref_iff}
use dataverse_hub.Object.Types.{ref_of, resolve_in}
use dataverse_hub.Object.Verify.{verify_envelope, canonical_json, decode_envelope, decode_item}
use dataverse_hub.Object.Verify.Signed.{IsAccepted, verify_envelope_iff}
use dataverse_hub.Tests.Fixture.{note, note_ref, toy}

accepts_note_ref : is_valid_ref note_ref ≡ true
unfolding is_valid_ref
accepts_note_ref = refl

rejects_scanner : is_valid_ref (bytes "wp-config.php") ≡ false
unfolding is_valid_ref
rejects_scanner = refl

is_valid_ref_iff_example : (is_valid_ref note_ref ≡ true) ↔ IsRef note_ref
is_valid_ref_iff_example = is_valid_ref_iff note_ref

note_ref_of : ref_of note ≡ note_ref
unfolding ref_of
note_ref_of = refl

accepts_note : verify_envelope toy (bytes "body") ≡ none
unfolding verify_envelope decode_envelope decode_item resolve_in canonical_json ◌==◌
    is_base64url_chars
accepts_note = refl

verify_envelope_iff_example :
    (verify_envelope toy (bytes "body") ≡ none) ↔ IsAccepted toy (bytes "body")
verify_envelope_iff_example = verify_envelope_iff toy (bytes "body")
