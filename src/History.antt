-- ===== src/History.antt =====
-- src/up-history.c
pub mod Item
pub mod File
pub mod Resolution
pub mod Recorder
pub mod Graph
pub mod Profile
