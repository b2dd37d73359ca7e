-- ===== src/Starlink.antt =====
-- internal/starlink: the state of the Starlink terminal, its connection history and its events.
pub mod Types
pub mod History
pub mod Hourly
pub mod Retention
pub mod Minutes
pub mod Events
pub mod Coalescing
pub mod Alerts
pub mod Status
pub mod Caching
pub mod Loading
mod Tests
