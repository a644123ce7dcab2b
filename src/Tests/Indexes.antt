-- ===== src/Tests/Indexes.antt =====
-- storage/index.go at concrete inputs.
use mathlib.Core.List.{Memᴰ}
use dataverse_hub.Base.{◌≡◌, ◌++◌, Bytes, refl, ◌↔◌, false, none, [], ◌==◌, contains}
use dataverse_hub.Base.Dict.{lookup, insert, erase}
use dataverse_hub.Object.Types.{ObjectMeta}
use dataverse_hub.Realm.Access.{can_read, is_public_object}
use dataverse_hub.Storage.Index.{
  Index, new_index, update, add_locked, remove_locked, meta_of, resolved_realms, slice_of,
}
use dataverse_hub.Storage.Index.Queries.{
  InboundFilters, get_inbound, get_all, collect, any_hit, is_visible, sort_meta_desc,
}
use dataverse_hub.Storage.Index.Owners.{IsOwners, new_index-IsOwners, update-IsOwners}
use dataverse_hub.Storage.Index.Relations.{IsInboundIndex, all_mentions}
use dataverse_hub.Storage.Index.Sources.{
  from_others, new_index-IsInboundIndex, update-IsInboundIndex,
}
use dataverse_hub.Storage.Index.Visible.{IsInbound, get_inbound_iff}
use dataverse_hub.Tests.Fixture.{alice, note, note_ref, toy}

abbrev empty_index : Index
empty_index = new_index none

abbrev note_index : Index
note_index = update toy note_ref note 3 [] empty_index

abbrev note_meta : ObjectMeta
note_meta = meta_of toy note_ref note 3 note.realms

abbrev any_inbound : InboundFilters
any_inbound = record { relation = []; from = []; kind = [] }

update-IsOwners_example : IsOwners note_index
update-IsOwners_example =
    update-IsOwners toy note_ref note 3 [] empty_index (new_index-IsOwners none)

update-IsInboundIndex_example :
    IsInboundIndex note_index
    × ((target : Bytes)
        → slice_of note_index.inbound target
          ≡ from_others note_ref (slice_of empty_index.inbound target)
            ++ all_mentions toy note_ref target note.relations)
update-IsInboundIndex_example =
    update-IsInboundIndex toy note_ref note 3 [] empty_index (new_index-IsInboundIndex none)

get_inbound_iff_example :
    Memᴰ note_meta (get_inbound note_index alice any_inbound alice false)
    ↔ IsInbound note_index alice any_inbound alice false note_meta
get_inbound_iff_example = get_inbound_iff note_index alice false note_meta alice any_inbound

note_index-IsOwners : IsOwners note_index
note_index-IsOwners = update-IsOwners toy note_ref note 3 [] empty_index (new_index-IsOwners none)

note-listed : Memᴰ note_meta (get_all note_index [] [] [] false)
unfolding get_all collect any_hit is_visible sort_meta_desc can_read is_public_object update
    add_locked remove_locked meta_of resolved_realms ◌==◌ contains lookup insert erase
note-listed = Memᴰ.head refl
