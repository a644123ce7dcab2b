-- ===== src/Tests/Pages.antt =====
-- serving/paginate.go at a concrete input: two objects, in pages of one.
use mathlib.Core.List.{Perm}
use dataverse_hub.Base.{◌≡◌, refl, false, none, List, [], ◌∷◌, bytes, ◌==◌, arith}
use dataverse_hub.Base.Dict.{lookup}
use dataverse_hub.Object.Types.{ObjectMeta}
use dataverse_hub.Storage.Index.{meta_of}
use dataverse_hub.Storage.Index.Queries.{comes_before, sort_meta_desc}
use dataverse_hub.Storage.Store.{Store, exists}
use dataverse_hub.Serving.Paginate.{loaded_refs}
use dataverse_hub.Serving.Paginate.Follow.{IsStrict, follow, follow-all}
use dataverse_hub.Serving.Paginate.Sorted.{IsDistinct, sort_meta_desc-IsNewestFirst, IsNewestFirst}
use dataverse_hub.Tests.Fixture.{note, note_ref, toy}

abbrev newer : ObjectMeta
newer = meta_of toy note_ref note 3 note.realms

abbrev older : ObjectMeta
older = record newer { ref = bytes "older"; updated_at = 2 }

abbrev found : List ObjectMeta
found = newer ∷ older ∷ []

abbrev disk : Store
disk = record {
  backup_enabled = false;
  objects =
      (note_ref, record { content = []; mtime = 3 })
      ∷ (bytes "older", record { content = []; mtime = 2 })
      ∷ [];
  backups = [];
}

found-IsStrict : IsStrict found
unfolding comes_before meta_of
found-IsStrict = (refl, (refl, tt))

found-loaded : loaded_refs disk found ≡ note_ref ∷ bytes "older" ∷ []
unfolding loaded_refs exists lookup ◌==◌ meta_of
found-loaded = refl

follow-all_example : follow 3 disk found 1 none ≡ loaded_refs disk found
follow-all_example = follow-all disk found 1 found-IsStrict (omega arith)

found-IsDistinct : IsDistinct found
unfolding ◌==◌ meta_of
found-IsDistinct = (refl, (refl, tt))

sort_meta_desc-IsNewestFirst_example :
    Perm (sort_meta_desc found) found × IsNewestFirst (sort_meta_desc found)
sort_meta_desc-IsNewestFirst_example = sort_meta_desc-IsNewestFirst found found-IsDistinct
