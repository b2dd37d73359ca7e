-- ===== src/Stream.antt =====
-- internal/stream/service.go: the sources of streams, the names of paths, and the service.
pub mod Types
pub mod Names
pub mod Update
pub mod Service
pub mod Previews
pub mod Shell
mod Tests
