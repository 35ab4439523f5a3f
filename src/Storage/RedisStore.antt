-- ===== src/Storage/RedisStore.antt =====
-- storage/redis.go: the struct redisStore and its operations, in the children.
pub mod Queues
pub mod Sorted
pub mod Counters
pub mod Beats
