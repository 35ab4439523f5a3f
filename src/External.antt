-- ===== src/External.antt =====
-- What the program relies on and does not implement: Go's float64, the JSON values of
-- bitly/go-simplejson, and the Redis server behind go-redis.
pub mod Platform
pub mod Keyspace
pub mod Redis
pub mod Structs
