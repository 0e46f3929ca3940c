-- ===== src/Utils.antt =====
-- src/utils.c: what the tracer reads from and writes to /proc and /sys.
pub mod Scan
pub mod Sysfs
pub mod Cpu
pub mod Maps
pub mod Dump
