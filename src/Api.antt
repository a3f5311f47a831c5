-- ===== src/Api.antt =====
-- src/plcstub.c: the calls of the library's interface, over the tree of tags.
pub mod Access
pub mod RoundTrip
pub mod Refusal
pub mod Bounds
pub mod Stale
pub mod Size
pub mod Unknown
pub mod Create
pub mod Lifetime
pub mod Locking
pub mod Callbacks
pub mod Attrib
pub mod Calls
