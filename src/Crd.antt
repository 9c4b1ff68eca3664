-- ===== src/Crd.antt =====
-- pkg/platform/kube/crd: the configuration store on Kubernetes custom resources.
pub mod Names
pub mod Objects
pub mod Conversion
pub mod Client
pub mod Registration
pub mod Connection
pub mod Api
pub mod Cluster
