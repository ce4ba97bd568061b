-- ===== src/Store.antt =====
-- The entity stores: include/entity_store.h, src/entity_store_in_memory.cc,
-- src/entity_store_persistent.cc, src/entity_store_validation.cc.
pub mod Interface
pub mod Validation
pub mod Json
pub mod InMemory
pub mod Persistent
pub mod Objects
pub mod Memory
pub mod Identifiers
pub mod Contract
pub mod Calls
pub mod History
pub mod Lasting
pub mod FileCount
pub mod DiskHistory
pub mod Names
pub mod Disk
pub mod Writes
pub mod Allocation
pub mod Durable
pub mod Removes
pub mod DiskContract
pub mod Race
pub mod Partial
pub mod Ascending
pub mod Order
mod Tests
