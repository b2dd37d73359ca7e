-- ===== src/MediaMtx.antt =====
-- internal/mediamtx/config_file.go: the settings file of MediaMTX and its section of paths.
pub mod Lines
pub mod Sections
pub mod ConfigFile
pub mod Removing
pub mod Bounds
pub mod Rewriting
mod Tests
