-- ===== src/Tests/Gets.antt =====
-- vhost/, GET, the projections and the search at concrete inputs.
use mathlib.Core.List.{Memᴰ}
use dataverse_hub.Base.{
  arith, ◌≡◌, ◌≢◌, ◌≤◌, refl, true, false, none, some, [], ◌∷◌, ◌++◌, Bytes, bytes, ◌==◌, contains,
  pos, length,
}
use dataverse_hub.Base.Dict.{lookup}
use dataverse_hub.Base.Affix.{before_first}
use dataverse_hub.Base.Trim.{trim_space, split_commas}
use dataverse_hub.Object.Ref.{is_valid_ref, is_base64url_chars, is_canonical_uuid, uuid_from}
use dataverse_hub.Object.Types.{ObjectMeta}
use dataverse_hub.Object.Verify.{parse_envelope, decode_envelope, decode_item}
use dataverse_hub.Realm.Access.{can_read}
use dataverse_hub.Realm.RealmId.{hex_text}
use dataverse_hub.Serving.Get.{
  Frontend, GetEnv, GetRequest, failed, object_not_found, handle_get_object,
}
use dataverse_hub.Serving.Get.Hidden.{shows, handle_get_object-hides}
use dataverse_hub.Serving.Get.Unindexed.{IsPlain, json_answer, handle_get_object-unindexed}
use dataverse_hub.Serving.Projection.{serve_json_for_ref, serve_raw_for_ref, serve_page_for_ref}
use dataverse_hub.Serving.Projection.FailClosed.{projections-refused}
use dataverse_hub.Serving.Representation.{accepts_html, blob_content}
use dataverse_hub.Serving.Search.{SearchQuery, handle_list_objects, asks_members_only}
use dataverse_hub.Serving.Search.Bounded.{handle_list_objects-IsVisible}
use dataverse_hub.Storage.Index.{Index, new_index, meta_of, resolver}
use dataverse_hub.Realm.Access.Laws.{MayRead, can_read_iff}
use dataverse_hub.Storage.Index.Queries.{get_meta}
use dataverse_hub.Storage.Index.Indexed.{IsIndexed}
use dataverse_hub.Storage.Index.Visible.{IsVisible, Allows}
use dataverse_hub.Storage.Store.{Store, write}
use dataverse_hub.Vhost.{page_hash, add_page}
use dataverse_hub.Vhost.Resolver.{
  Resolver, DnsLookup, new_resolver, update_hash_map, fresh_entry, lookup_cached_txt, resolve,
}
use dataverse_hub.Vhost.Resolver.Cached.{resolve-add_page}
use dataverse_hub.Vhost.Mode.{canonical_page_host, target_host}
use dataverse_hub.Vhost.Mode.Canonical.{canonical_page_host-target}
use dataverse_hub.Tests.Fixture.{note, note_ref, note_envelope, bob, toy}

abbrev hosts : Resolver
hosts = new_resolver (bytes "hub.net") 100

abbrev silent : DnsLookup
silent host = none

canonical_page_host-target_example :
    (canonical_page_host toy silent 1
      (bytes "isolate")
      (target_host toy (bytes "isolate") (bytes "evil.org:8080") note_ref hosts)
      note_ref
      hosts).0
    ≡ true
canonical_page_host-target_example =
    canonical_page_host-target toy silent 1 (bytes "isolate") (bytes "evil.org:8080") note_ref hosts
      refl

nothing-cached : fresh_entry 1 (bytes "blog.org") hosts ≡ none
unfolding fresh_entry lookup
nothing-cached = refl

hash-nonempty : page_hash toy note_ref ≢ []
unfolding page_hash hex_text
hash-nonempty h = cc

no_txt :
    (lookup_cached_txt silent 1
      (page_hash toy note_ref ++ (bytes "." ++ hosts.base_domain))
      (update_hash_map (add_page toy note_ref hosts.hash_map) hosts)).0
    ≡ []
unfolding lookup_cached_txt fresh_entry lookup
no_txt = refl

resolve-add_page_example :
    (resolve silent 1
      (page_hash toy note_ref ++ (bytes "." ++ hosts.base_domain))
      (update_hash_map (add_page toy note_ref hosts.hash_map) hosts)).0
    ≡ note_ref
resolve-add_page_example = resolve-add_page toy silent 1 note_ref hosts refl hash-nonempty no_txt

abbrev empty_store : Store
empty_store = record { backup_enabled = false; objects = []; backups = [] }

abbrev pub body : Bytes
body = bytes "{}"

abbrev pub note_store : Store
note_store = (write none 1 note_ref body 1 empty_store).1

abbrev pub no_index : Index
no_index = new_index none

abbrev pub private_meta : ObjectMeta
private_meta = record (meta_of toy note_ref note 3 (bob ∷ [])) {
  is_public = false;
  kind = bytes "PAGE";
}

abbrev pub private_index : Index
private_index = record no_index { meta = (note_ref, private_meta) ∷ [] }

abbrev pub front : Index → Frontend
front idx = record {
  store = note_store;
  index = idx;
  default_viewer_ref = [];
  vhost = none;
  vhost_mode = [];
}

abbrev pub get_env : GetEnv
get_env = record { read_fails = λ ref. false; dns = silent; now = 1 }

abbrev pub get_request : Bytes → GetRequest
get_request pubkey = record {
  ref = note_ref;
  accept = bytes "application/json";
  if_none_match = [];
  auth_pubkey = pubkey;
  host = record { host = bytes "hub.net"; forwarded_proto = []; tls = true; raw_query = [] };
}

pub is_indexed : get_meta private_index note_ref ≡ some private_meta
unfolding get_meta lookup ◌==◌
is_indexed = refl

not_readable : can_read private_meta.realms [] (some (resolver private_index)) ≡ false
unfolding can_read contains meta_of ◌==◌
not_readable = refl

handle_get_object-hides_example :
    shows (handle_get_object toy get_env (get_request []) (front private_index)).0 ≡ false
handle_get_object-hides_example =
    handle_get_object-hides toy get_env (get_request []) (front private_index) private_meta
      is_indexed refl not_readable

pub is_plain : IsPlain get_env (get_request [])
unfolding is_valid_ref is_base64url_chars is_canonical_uuid uuid_from accepts_html trim_space
    split_commas before_first ◌==◌
is_plain = record { valid = refl; no_html = refl; no_copy = refl; reads = refl }

not_indexed : get_meta no_index note_ref ≡ none
unfolding get_meta lookup
not_indexed = refl

note-parsed : parse_envelope toy body ≡ some (note_envelope, note)
unfolding parse_envelope decode_envelope decode_item
note-parsed = refl

no_blob : blob_content toy body ≡ none
unfolding blob_content parse_envelope decode_envelope decode_item ◌==◌
no_blob = refl

handle_get_object-unindexed_example :
    (handle_get_object toy get_env (get_request []) (front no_index)).0 ≡ json_answer (pos 1) body
handle_get_object-unindexed_example =
    handle_get_object-unindexed toy get_env (get_request []) (front no_index) (note_envelope, note)
      1 body 1 empty_store is_plain not_indexed refl note-parsed no_blob

barred : ¬ MayRead private_meta.realms [] (some (resolver private_index))
barred may = absurd (
    ground (
      arith,
      (can_read_iff private_meta.realms [] (some (resolver private_index))).1 may,
      not_readable,
    ))

projections-refused_example :
    (serve_json_for_ref toy get_env (get_request []) (front private_index)
      ≡ (failed object_not_found, none))
    × (serve_raw_for_ref toy get_env (get_request []) (front private_index)
        ≡ (failed object_not_found, none))
    × (serve_page_for_ref toy get_env (get_request []) (front private_index)
        ≡ (failed object_not_found, none))
projections-refused_example =
    projections-refused toy get_env (get_request []) (front private_index) private_meta is_indexed
      refl barred

abbrev query : SearchQuery
query = record {
  by = [];
  kind = bytes "PAGE";
  relation = [];
  from = [];
  limit = bytes "1000";
  cursor = [];
  members_only = [];
  auth_pubkey = bob;
}

handle_list_objects-IsVisible_example :
    (length (handle_list_objects toy query private_index note_store).refs ≤ 200)
    × ((ref : Bytes)
        → Memᴰ ref (handle_list_objects toy query private_index note_store).refs
        → (m : ObjectMeta) × (m.ref ≡ ref)
          × IsIndexed private_index m
          × IsVisible private_index bob (asks_members_only query) m
          × Allows (bytes "PAGE") m.kind)
handle_list_objects-IsVisible_example =
    handle_list_objects-IsVisible toy query private_index note_store
