-- ===== src/Store.antt =====
-- internal/store/memory.go: the in-memory store. Each method runs under the store's lock, so a
-- method is one step: a function from the store to its result and the next store.
pub mod State
pub mod Rebuild
pub mod Members
pub mod Access
pub mod Groups
pub mod Grants
pub mod Bootstrap
pub mod Nodes
pub mod Sessions
pub mod Usage
pub mod Pending
pub mod Paging
pub mod Tiers
pub mod CloudFront
pub mod Calls
