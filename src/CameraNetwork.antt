-- ===== src/CameraNetwork.antt =====
-- internal/cameranetwork/network.go: a temporary address in the network of a camera. A client asks
-- for it through a file, and a privileged helper checks the request and sets the address.
pub mod Address
pub mod Selection
pub mod Request
pub mod Client
pub mod Helper
pub mod Commands
pub mod Checked
pub mod Leases
pub mod Ledger
pub mod Failures
pub mod Ranges
pub mod Subnet
pub mod Admissible
pub mod Handshake
mod Tests
