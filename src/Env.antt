-- ===== src/Env.antt =====
-- What the library is built on and does not implement: the red-black tree of include/sys/tree.h
-- and the allocator and mutexes of the C library.
pub mod Rb
pub mod Heap
pub mod Libc
