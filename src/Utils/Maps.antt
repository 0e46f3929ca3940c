-- ===== src/Utils/Maps.antt =====
-- src/utils.c: `setup_map_info` over /proc/<pid>/maps.
pub mod Parse
pub mod Setup
pub mod Bounds
pub mod Hex
pub mod Line
