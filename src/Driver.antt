-- ===== src/Driver.antt =====
-- pkg/driver: the handlers of the CSI services, and the start of the driver.
pub mod Types
pub mod Client
pub mod Controller
pub mod Node
pub mod Identity
pub mod Cleanup
pub mod Version
pub mod Server
pub mod Rejects
pub mod Volumes
mod Tests
