-- ===== src/Buffer.antt =====
-- src/common.c: the trace buffer and the ksight buffer, allocated, filled, grown, exported and freed.
pub mod Memory
pub mod Laws
pub mod Trace
pub mod Ksight
