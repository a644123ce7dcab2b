-- ===== src/Tests/Realms.antt =====
-- realm/ at concrete inputs.
use mathlib.Core.List.{Memᴰ}
use dataverse_hub.Base.{
  ◌≡◌, refl, ◌↔◌, true, none, some, List, [], ◌∷◌, Bytes, ◌==◌, contains, ok, pos, is_some,
}
use dataverse_hub.Base.Dict.{lookup}
use dataverse_hub.Object.Ref.{is_valid_ref, is_base64url_chars}
use dataverse_hub.Object.Types.{ref_of}
use dataverse_hub.Object.Verify.{is_pubkey_realm}
use dataverse_hub.Realm.Access.{can_read, validate_realms_for_put}
use dataverse_hub.Realm.Access.Laws.{MayRead, MayStore, can_read_iff, validate_realms_for_put_iff}
use dataverse_hub.Realm.RealmId.{realm_id, realm_id_bytes, format_uuid, split_realm_owner, hex_text}
use dataverse_hub.Realm.RealmId.Address.{realm_ref-valid}
use dataverse_hub.Realm.Contract.{parse_item, extract_member_pubkeys}
use dataverse_hub.Realm.Contract.Laws.{IsRealmObject, parse_item_iff, parse_item-realm_ref}
use dataverse_hub.Realm.Resolver.{IsLawful}
use dataverse_hub.Realm.Shared.Laws.{shared_resolver-IsLawful}
use dataverse_hub.Realm.Graph.{RealmEntry, GraphSharedRealms, new_graph, add, load}
use dataverse_hub.Realm.Graph.Index.{IsIndexed, add-IsIndexed, load-IsIndexed}
use dataverse_hub.Realm.Graph.Queries.{graph_resolver-IsLawful}
use dataverse_hub.Realm.Graph.Newest.{IsNewest, load-IsNewest}
use dataverse_hub.Realm.Merged.{merged_resolver, new_merged}
use dataverse_hub.Realm.Merged.Laws.{merged_resolver-IsLawful}
use dataverse_hub.Tests.Fixture.{alice, bob, team, team_object, toy, toy-IsSha1, toy-IsBase64url}

can_read_iff_example : (can_read (team ∷ []) bob none ≡ true) ↔ MayRead (team ∷ []) bob none
can_read_iff_example = can_read_iff (team ∷ []) bob none

validate_realms_for_put_iff_example :
    (validate_realms_for_put toy (alice ∷ []) alice none ≡ true)
    ↔ MayStore toy (alice ∷ []) alice none
validate_realms_for_put_iff_example = validate_realms_for_put_iff toy (alice ∷ []) alice none

abbrev team_graph : GraphSharedRealms
team_graph = load toy (team_object (pos 3) ∷ team_object (pos 5) ∷ []) new_graph

team_parses : parse_item toy (team_object (pos 3)) ≡ ok (team, bob ∷ [])
unfolding parse_item extract_member_pubkeys split_realm_owner is_pubkey_realm realm_id contains ◌==◌
    lookup is_base64url_chars format_uuid hex_text realm_id_bytes
team_parses = refl

parse_item_iff_example :
    (parse_item toy (team_object (pos 3)) ≡ ok (team, bob ∷ []))
    ↔ IsRealmObject toy (team_object (pos 3)) team (bob ∷ [])
parse_item_iff_example = parse_item_iff toy (team_object (pos 3)) team (bob ∷ [])

realm_ref-valid_example : is_valid_ref (ref_of (team_object (pos 3))) ≡ true
realm_ref-valid_example =
    realm_ref-valid toy toy-IsSha1 toy-IsBase64url team (ref_of (team_object (pos 3)))
      (parse_item-realm_ref toy (team_object (pos 3)) team (bob ∷ []) team_parses)

team_graph-IsIndexed : IsIndexed team_graph
team_graph-IsIndexed = load-IsIndexed toy (team_object (pos 3) ∷ team_object (pos 5) ∷ []) new_graph

add-IsIndexed_example : IsIndexed (add toy (team_object (pos 7)) team_graph)
add-IsIndexed_example = add-IsIndexed toy (team_object (pos 7)) team_graph team_graph-IsIndexed

merged_resolver-IsLawful_example :
    IsLawful (merged_resolver (new_merged (some team_graph) (some (record { realms = [] }))))
merged_resolver-IsLawful_example =
    merged_resolver-IsLawful (new_merged (some team_graph) (some (record { realms = [] })))
      (shared_resolver-IsLawful (record { realms = [] }) tt)
      (graph_resolver-IsLawful team_graph team_graph-IsIndexed)

load-IsNewest_example :
    ((e : RealmEntry)
      → lookup team team_graph.realms ≡ some e
      → IsNewest toy (team_object (pos 3) ∷ team_object (pos 5) ∷ []) team e)
    × ((item : _) (members : List Bytes)
        → Memᴰ item (team_object (pos 3) ∷ team_object (pos 5) ∷ [])
        → parse_item toy item ≡ ok (team, members)
        → is_some (lookup team team_graph.realms) ≡ true)
load-IsNewest_example =
    load-IsNewest toy (team_object (pos 3) ∷ team_object (pos 5) ∷ []) new_graph team
