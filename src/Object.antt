-- ===== src/Object.antt =====
-- object/: refs, the signed envelope and its verification.
pub mod Ref
pub mod Types
pub mod Verify
