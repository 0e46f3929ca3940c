-- ===== src/Tests.antt =====
-- The theorems at concrete inputs.
mod Sample
mod Buffers
mod Threads
mod Components
mod Launch
mod Records
