-- ===== src/Config.antt =====
-- pkg/model/config: configuration entries, their schemas, and the views of the broker's store.
pub mod Resource
pub mod Label
pub mod Codec
pub mod Schema
pub mod Descriptor
pub mod Store
pub mod BrokerStore
