-- ===== src/TagTree.antt =====
-- src/tagtree.c and include/tagtree.h: the tree of tags, its locks, its start-up and the metatag.
-- The state is explicit, and an operation returns how it ends and the state that it leaves. One
-- thread calls: a lock that is held already is held by the caller itself, which waits for ever.
pub mod State
pub mod Metatag
pub mod Ops
pub mod Lookup
pub mod Order
pub mod Sound
pub mod Same
pub mod Listing
pub mod Readback
pub mod Metanode
pub mod Nodes
pub mod Startup
pub mod Create
pub mod Remove
