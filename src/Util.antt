-- ===== src/Util.antt =====
-- pkg/util/common.go
pub mod Crc
pub mod BucketName
pub mod Capacity
pub mod Keys
pub mod Cluster
pub mod Limits
pub mod Endpoint
mod Tests
