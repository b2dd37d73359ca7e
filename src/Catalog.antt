-- ===== src/Catalog.antt =====
-- stream_sources.go, with internal/deviceconfig/store.go and validDeviceConfig of main.go: the cameras
-- that can be streamed.
pub mod Devices
pub mod Sources
pub mod Available
pub mod Supported
pub mod Saving
mod Tests
