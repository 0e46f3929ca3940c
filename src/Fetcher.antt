-- ===== src/Fetcher.antt =====
-- src/common.c: the fetcher thread, and the parent, the child and the kernel that it runs beside.
pub mod Worker
pub mod World
pub mod Steps
pub mod State
pub mod Sound
pub mod Resume
