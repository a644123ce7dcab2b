-- ===== src/Serving.antt =====
-- serving/: the lock per ref, the precondition of a write, the handler of PUT and the pages of a search.
pub mod KeyedMutex
pub mod Precondition
pub mod Put
pub mod Paginate
pub mod Representation
pub mod Viewer
pub mod Selection
pub mod Get
pub mod Projection
pub mod Search
pub mod Root
