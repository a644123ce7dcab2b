-- ===== src/Tests/Viewers.antt =====
-- serving/viewer.go, serving/projection.go and the way from a PUT to a GET at concrete inputs.
use dataverse_hub.Base.{◌≡◌, ◌⊎◌, refl, true, false, none, some, [], bytes, ◌==◌, contains, pos}
use dataverse_hub.Base.Affix.{before_first}
use dataverse_hub.Base.Trim.{trim_space, split_commas}
use dataverse_hub.External.{Library}
use dataverse_hub.Object.Types.{Item, ref_of, resolve_in}
use dataverse_hub.Object.Verify.{parse_envelope, decode_envelope, decode_item}
use dataverse_hub.Realm.Access.{can_read, is_public_object}
use dataverse_hub.Serving.Get.{GetRequest, answered, handle_get_object, viewer_resolver}
use dataverse_hub.Serving.Get.Stored.{meta_after, handle_get_object-commit}
use dataverse_hub.Serving.Representation.{accepts_html, extract_html, blob_content}
use dataverse_hub.Serving.Viewer.{ViewerResolution, viewer_inline, primary}
use dataverse_hub.Serving.Selection.{select_negotiated, as_json, as_html}
use dataverse_hub.Serving.Viewer.Readable.{IsInline, IsShown}
use dataverse_hub.Serving.Viewer.Selected.{select_negotiated-IsShown}
use dataverse_hub.Serving.Put.{commit_hub, commit_reply}
use dataverse_hub.Storage.Index.{meta_of, resolver, resolved_realms}
use dataverse_hub.Tests.Fixture.{note, note_ref, note_envelope, toy}
use dataverse_hub.Tests.Gets.{get_env, get_request, front, no_index, body, is_plain}
use dataverse_hub.Tests.Writes.{empty_hub, fine, put_note, admitted_note, put_note-commits}

note-readable :
    can_read
      (meta_after toy put_note admitted_note).realms
      []
      (some (resolver (commit_hub toy fine note_ref admitted_note empty_hub).index))
    ≡ true
unfolding can_read meta_of resolved_realms contains ◌==◌
note-readable = refl

canonical-parsed : parse_envelope toy (bytes "body") ≡ some (note_envelope, note)
unfolding parse_envelope decode_envelope decode_item
canonical-parsed = refl

canonical-no_blob : blob_content toy (bytes "body") ≡ none
unfolding blob_content parse_envelope decode_envelope decode_item ◌==◌
canonical-no_blob = refl

handle_get_object-commit_example :
    (handle_get_object toy get_env
      (get_request [])
      (record (front (commit_hub toy fine note_ref admitted_note empty_hub).index) {
        store = (commit_hub toy fine note_ref admitted_note empty_hub).store;
      })).0
    ≡ answered
        (some (commit_reply toy empty_hub note_ref admitted_note).etag)
        false
        as_json
        (commit_reply toy empty_hub note_ref admitted_note).body
handle_get_object-commit_example =
    handle_get_object-commit toy fine put_note admitted_note empty_hub
      (commit_hub toy fine note_ref admitted_note empty_hub)
      (commit_reply toy empty_hub note_ref admitted_note) get_env (get_request []) [] [] none
      note_envelope put_note-commits is_plain refl note-readable canonical-parsed canonical-no_blob

-- every body is a page with this HTML
abbrev page : Item
page = record note { kind = bytes "PAGE"; content = bytes "<p>" }

abbrev page_toy : Library
page_toy = record toy { unmarshal_item = λ decode raw. some page }

abbrev html_request : GetRequest
html_request = record (get_request []) { accept = bytes "text/html" }

abbrev page_viewer : ViewerResolution
page_viewer = record {
  source = viewer_inline;
  page_ref = note_ref;
  html = bytes "<p>";
  type_rev = pos 0;
  page_rev = pos 1;
  default_rev = pos 0;
  requires_auth = false;
}

page-selected :
    select_negotiated page_toy
      (viewer_resolver page_toy get_env html_request (front no_index) body)
      []
      (bytes "text/html")
    ≡ as_html page_viewer
unfolding select_negotiated primary parse_envelope accepts_html split_commas ◌==◌ trim_space
    before_first decode_envelope decode_item ref_of extract_html is_public_object contains
    resolve_in
page-selected = refl

select_negotiated-IsShown_example :
    IsInline page_toy
      (viewer_resolver page_toy get_env html_request (front no_index) body)
      page_viewer
    ⊎ IsShown page_toy
        (viewer_resolver page_toy get_env html_request (front no_index) body)
        page_viewer
select_negotiated-IsShown_example =
    select_negotiated-IsShown page_toy
      (viewer_resolver page_toy get_env html_request (front no_index) body) refl []
      (bytes "text/html") page_viewer page-selected
