-- ===== src/Vhost.antt =====
-- vhost/hash.go and vhost/resolver.go: the host names of pages and the map that finds them.
pub mod Resolver
pub mod Mode
use dataverse_hub.Base.{Bytes, take}
use dataverse_hub.Base.Dict.{Dict, insert}
use dataverse_hub.External.{Library}
use dataverse_hub.Realm.RealmId.{hex_text}

-- `PageHash`
unfoldable pub page_hash : Library → Bytes → Bytes
page_hash lib ref = hex_text (take 8 (lib.sha256 ref))

-- `AddPage`, on `hashMap`
unfoldable pub add_page : Library → Bytes → Dict Bytes → Dict Bytes
add_page lib ref hash_map = insert (page_hash lib ref) ref hash_map
