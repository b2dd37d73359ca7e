-- ===== src/IpCamera.antt =====
-- internal/ipcamera: the cameras of the network, with the store of their settings.
pub mod Types
pub mod Library
pub mod Urls
pub mod Prepare
pub mod Devices
pub mod Store
pub mod Service
pub mod Status
pub mod Update
pub mod Sources
pub mod Keeping
pub mod Listing
pub mod History
pub mod Owners
pub mod Updating
pub mod Secrets
pub mod Streaming
pub mod Prepared
pub mod Checked
pub mod Moving
mod Tests
