-- ===== src/Testing.antt =====
-- pkg/testing: helpers of the tests over a cluster.
pub mod Pods
pub mod Retries
pub mod Files
