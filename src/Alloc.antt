-- ===== src/Alloc.antt =====
-- tasks/lockfree-memory-allocator-hazard: the allocator with its cache for each thread, the
-- hazard pointers and the stacks that threads share.
pub mod Cache
pub mod Hazard
pub mod Arena
