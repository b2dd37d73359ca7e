-- ===== src/CameraProxy.antt =====
-- internal/cameraproxy/manager.go: HTTP proxies to the web pages of cameras.
pub mod Target
pub mod Manager
pub mod Held
pub mod Ownership
pub mod Renewal
pub mod Checks
mod Tests
