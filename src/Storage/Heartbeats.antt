-- ===== src/Storage/Heartbeats.antt =====
-- What the heartbeats in Redis say to their readers (storage/redis.go).
use go_workers.Prelude.{String, ◌≡◌, [], arith}
use go_workers.Effect.{Error, Outcome, ok, err}
use go_workers.External.Platform.{Platform}
use go_workers.External.Redis.{Documented}
use go_workers.Storage.Keys.{get_manager_key}
use go_workers.Storage.Client.{RedisStore}
use go_workers.Storage.RedisStore.Beats.{heartbeat_properties, get_heartbeat}

-- The outcome carries a result.
abbrev IsOk {ℓ} : {A : Type ℓ} → Outcome A → Type 0
IsOk (ok a) = Unit {0}
IsOk _ = ⊥

module _ {p : Platform} (s : RedisStore p) (d : Documented s.client) where
  -- A heartbeat with no hash is no missing heartbeat to its reader but an error.
  get_heartbeat_missing :
      (id : String) (w : s.client.Db) (x : Error)
      → s.unmarshal_workers "<nil>" ≡ err x
      → (d.view w).hashes (get_manager_key s.namespace id) ≡ []
      → ¬ IsOk (get_heartbeat s id w).0
  unfolding get_heartbeat
  get_heartbeat_missing id w x bad e h =
      ground (arith, d.hmget_doc (get_manager_key s.namespace id) heartbeat_properties w)
