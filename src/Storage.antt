-- ===== src/Storage.antt =====
-- The package storage: the interface of a store, and the store on Redis.
pub mod Types
pub mod Keys
pub mod Client
pub mod RedisStore
pub mod Spec
pub mod Refinement
pub mod Due
pub mod Moved
pub mod Requeue
pub mod Listed
pub mod Laws
pub mod Instance
pub mod Heartbeats
pub mod Sent
