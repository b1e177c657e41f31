-- ===== src/Clientset.antt =====
-- pkg/client/clientset: the typed client of the records of mounts, and the clients for a config.
pub mod Request
pub mod PublishedVolumes
pub mod ClientGo
pub mod Typed
pub mod Config
pub mod Server
pub mod Connect
pub mod Fake
pub mod Mounts
mod Tests
