-- ===== src/Updater.antt =====
-- internal/updater/client.go and internal/buildinfo/buildinfo.go: updates of the application.
pub mod Version
pub mod Client
pub mod Order
pub mod Safety
pub mod Setup
mod Tests
