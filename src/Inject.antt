-- ===== src/Inject.antt =====
-- pkg/inject/inject.go: what ties the search for a page, the remote mmap, the payload and the
-- patched vDSO entries together, and the handle that updates the state struct afterwards.
pub mod Gap
pub mod Jump
pub mod Mmap
pub mod Handle
pub mod Sequence
