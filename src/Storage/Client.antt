-- ===== src/Storage/Client.antt =====
-- The struct redisStore of storage/redis.go. Its logger is left out.
use go_workers.Prelude.{ℕ, String}
use go_workers.Storage.Types.{WorkerHeartbeat}
use go_workers.Prelude.{List}
use go_workers.Effect.{Outcome}
use go_workers.External.Platform.{Platform}
use go_workers.External.Redis.{Redis}

pub record RedisStore (p : Platform) : Type 1 where
  pub namespace : String
  pub client : Redis p
  -- The rounds that the loop of RequeueMessagesFromInProgressQueue is followed for.
  pub fuel : ℕ
  -- json.Marshal and json.Unmarshal of a []WorkerHeartbeat
  pub marshal_workers : List WorkerHeartbeat → String
  pub unmarshal_workers : String → Outcome (List WorkerHeartbeat)
