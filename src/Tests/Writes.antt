-- ===== src/Tests/Writes.antt =====
-- serving/ and storage/store.go at concrete inputs.
use dataverse_hub.Base.{
  ◌↔◌, ◌≡◌, refl, ap, sym, ◌∙◌, subst, option_else, ◌≢◌, true, false, not, is_some, Option, none,
  some, [], ◌∷◌, bytes, ◌==◌, pos, ◌<ℤ◌, arith, Result, ok, err,
}
use dataverse_hub.Base.Dict.{lookup}
use dataverse_hub.Object.Types.{ObjectMeta, resolve_in, ref_of, timestamp_text}
use dataverse_hub.Object.Ref.{is_valid_ref, is_base64url_chars, is_canonical_uuid, uuid_from}
use dataverse_hub.Object.Verify.{
  parse_envelope, decode_envelope, decode_item, unmarshal_in, is_pubkey_realm, verify_envelope,
  verify_signature, canonical_json, trim_newline, timestamp,
}
use dataverse_hub.Realm.Access.{validate_realms_for_put, accepts_realm}
use dataverse_hub.Base.Trim.{trim_space}
use dataverse_hub.Storage.Index.{new_index, meta_of, resolved_realms}
use dataverse_hub.Storage.Index.Queries.{get_meta}
use dataverse_hub.Storage.Store.{Store, File, rename_temp, read, write, backup_name}
use dataverse_hub.Serving.Precondition.{
  evaluate_if_match, revision_etag, precondition_failed, check_conditional_write,
}
use dataverse_hub.Serving.Precondition.Laws.{
  evaluate_if_match-revision_etag, check_conditional_write_iff, check_conditional_write-once,
}
use dataverse_hub.Serving.Put.{
  Hub, PutRequest, PutEnv, PutError, PutReply, Admitted, write_failed, not_found, admit, commit,
  commit_hub, commit_reply, handle_put_object, admit_realms, admit_item, shared_realm_error,
  commit_admitted, backed_up,
}
use dataverse_hub.Serving.Put.Admissible.{IsAdmissible}
use dataverse_hub.Serving.Put.Admit.{admit-IsAdmissible}
use dataverse_hub.Serving.Put.Stored.{commit-stored}
use dataverse_hub.Serving.Put.Frame.{handle_put_object-keeps_others}
use dataverse_hub.Serving.Put.Backed.{IsBacked, commit-loses_file, handle_put_object-IsBacked}
use dataverse_hub.Tests.Fixture.{note, note_ref, toy}

abbrev stored_meta : ObjectMeta
stored_meta = meta_of toy note_ref note 3 note.realms

abbrev rewritten_meta : ObjectMeta
rewritten_meta = record stored_meta { revision = pos 2 }

first-passes : check_conditional_write (revision_etag (pos 1)) (some stored_meta) (pos 2) ≡ none
unfolding meta_of
first-passes = (check_conditional_write_iff (revision_etag (pos 1)) (some stored_meta) (pos 2)).1 (
  λ e.
      absurd (ground (arith, sym (evaluate_if_match-revision_etag (pos 1) (some stored_meta)) ∙ e)),
  λ m e.
      subst (λ (o : Option ObjectMeta). option_else o Unit λ x. x.revision <ℤ pos 2) e
        (omega arith),
)

check_conditional_write-once_example :
    (stored_meta.revision ≡ pos 1)
    × (check_conditional_write (revision_etag (pos 1)) (some rewritten_meta) (pos 9)
        ≡ some precondition_failed)
check_conditional_write-once_example =
    check_conditional_write-once (pos 1) (pos 2) (pos 9) stored_meta rewritten_meta first-passes
      refl

abbrev empty_store : Store
empty_store = record { backup_enabled = true; objects = []; backups = [] }

abbrev pub empty_hub : Hub
empty_hub = record { index = new_index none; store = empty_store; pages = none }

abbrev pub fine : PutEnv
fine = record { backup_failing = none; write_failing = none; now = 8 }

abbrev pub put_note : PutRequest
put_note = record { ref = note_ref; body = some (bytes "body"); if_match = [] }

abbrev put_junk : PutRequest
put_junk = record { ref = []; body = none; if_match = [] }

abbrev pub admitted_note : Admitted
admitted_note = record { item = note; realms = note.realms; canonical = bytes "body"; ts = 3 }

put_note-admitted : admit toy empty_hub.index put_note ≡ ok admitted_note
unfolding admit admit_realms admit_item shared_realm_error is_valid_ref is_base64url_chars
    is_canonical_uuid uuid_from parse_envelope decode_envelope decode_item unmarshal_in resolve_in
    is_pubkey_realm validate_realms_for_put accepts_realm ◌==◌ ref_of verify_envelope
    verify_signature canonical_json trim_newline timestamp timestamp_text
put_note-admitted = refl

admit-IsAdmissible_example :
    (admit toy empty_hub.index put_note ≡ ok admitted_note)
    ↔ IsAdmissible toy empty_hub.index put_note admitted_note
admit-IsAdmissible_example = admit-IsAdmissible toy empty_hub.index put_note admitted_note

pub put_note-commits : commit toy fine put_note admitted_note empty_hub ≡ (
  ok (commit_reply toy empty_hub note_ref admitted_note),
  commit_hub toy fine note_ref admitted_note empty_hub,
)
unfolding commit check_conditional_write evaluate_if_match trim_space get_meta lookup write
    backed_up ◌==◌
put_note-commits = refl

put_junk-rejected : (handle_put_object toy fine put_junk empty_hub).0 ≡ err not_found
unfolding handle_put_object commit_admitted admit is_valid_ref
put_junk-rejected = refl

commit-stored_example :
    (read false note_ref (commit_hub toy fine note_ref admitted_note empty_hub).store
      ≡ ok (some (bytes "body")))
    × (bytes "body" ≡ bytes "body")
    × (get_meta (commit_hub toy fine note_ref admitted_note empty_hub).index note_ref
        ≡ some (meta_of toy note_ref note 3 (resolved_realms note (note.realms ∷ []))))
    × ((m : ObjectMeta) → get_meta empty_hub.index note_ref ≡ some m → m.revision <ℤ pos 1)
    × ((commit_reply toy empty_hub note_ref admitted_note).created
        ≡ not (is_some (get_meta empty_hub.index note_ref)))
unfolding commit_reply
commit-stored_example =
    commit-stored toy fine put_note admitted_note empty_hub
      (commit_hub toy fine note_ref admitted_note empty_hub)
      (commit_reply toy empty_hub note_ref admitted_note) put_note-commits

note_ref-not_empty : note_ref ≢ []
note_ref-not_empty e = cc

handle_put_object-keeps_others_example :
    (lookup [] (handle_put_object toy fine put_note empty_hub).1.store.objects
      ≡ lookup [] empty_store.objects)
    × (get_meta (handle_put_object toy fine put_note empty_hub).1.index []
        ≡ get_meta empty_hub.index [])
handle_put_object-keeps_others_example =
    handle_put_object-keeps_others toy fine put_note empty_hub [] note_ref-not_empty

empty_hub-IsBacked : IsBacked empty_hub
unfolding get_meta lookup
empty_hub-IsBacked = record { backed = λ ref k. cc }

put_note-handled :
    (handle_put_object toy fine put_note empty_hub).0
    ≡ ok (commit_reply toy empty_hub note_ref admitted_note)
unfolding handle_put_object commit_admitted
put_note-handled =
    ap (λ (x : Result PutError Admitted). (commit_admitted toy fine put_note empty_hub x).0)
      put_note-admitted
    ∙ ap (λ (p : Result PutError PutReply × Hub). p.0) put_note-commits

handle_put_object-IsBacked_example : IsBacked (handle_put_object toy fine put_note empty_hub).1
handle_put_object-IsBacked_example =
    handle_put_object-IsBacked toy fine put_note empty_hub empty_hub-IsBacked
      (λ e. absurd (ground (arith, sym put_note-handled ∙ e)))

abbrev note_file : File
note_file = record { content = bytes "body"; mtime = 3 }

abbrev note_hub : Hub
note_hub = record {
  index = record (new_index none) { meta = (note_ref, stored_meta) ∷ [] };
  store = record empty_store { objects = (note_ref, note_file) ∷ [] };
  pages = none;
}

abbrev full_disk : PutEnv
full_disk = record fine { write_failing = some rename_temp }

abbrev admitted_edit : Admitted
admitted_edit = record admitted_note { item = record note { revision = pos 2 } }

note_hub-indexed : get_meta note_hub.index note_ref ≡ some stored_meta
unfolding get_meta lookup ◌==◌
note_hub-indexed = refl

note_hub-stored : lookup note_ref note_hub.store.objects ≡ some note_file
unfolding lookup ◌==◌
note_hub-stored = refl

edit-passes : check_conditional_write [] (get_meta note_hub.index note_ref) (pos 2) ≡ none
unfolding check_conditional_write evaluate_if_match trim_space get_meta lookup ◌==◌ meta_of
edit-passes = refl

commit-loses_file_example :
    ((commit toy full_disk put_note admitted_edit note_hub).0 ≡ err write_failed)
    × (get_meta (commit toy full_disk put_note admitted_edit note_hub).1.index note_ref
        ≡ some stored_meta)
    × (read false note_ref (commit toy full_disk put_note admitted_edit note_hub).1.store ≡ ok none)
    × (lookup
          (backup_name note_ref (pos 1))
          (commit toy full_disk put_note admitted_edit note_hub).1.store.backups
        ≡ some note_file)
unfolding meta_of
commit-loses_file_example =
    commit-loses_file toy full_disk put_note admitted_edit note_hub stored_meta note_file
      rename_temp edit-passes note_hub-indexed note_hub-stored refl refl refl (λ e. cc)
