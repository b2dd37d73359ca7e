-- ===== src/Mavlink.antt =====
-- internal/mavlink: the settings of the MAVLink service, its sessions and its snapshot.
pub mod Config
pub mod Store
pub mod State
pub mod Messages
pub mod Session
pub mod Targeting
pub mod Linking
pub mod Merging
pub mod Saving
mod Tests
