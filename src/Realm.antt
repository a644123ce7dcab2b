-- ===== src/Realm.antt =====
-- realm/: who may read and write an object.
pub mod Resolver
pub mod Access
pub mod RealmId
pub mod Shared
pub mod Contract
pub mod Graph
pub mod Merged
