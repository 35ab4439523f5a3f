-- ===== src/Tests/StorageTests.antt =====
-- The theorems on storage/redis.go at a server in memory with one job that is in progress.
use go_workers.Prelude.{
  ◌<◌, ◌≡◌, ◌≢◌, refl, String, true, false, ◌⊎◌, some, none, List, [], ◌∷◌, str_eq, length,
  if◌then◌else◌, arith,
}
use go_workers.Prelude.Int.{ℤ, pos}
use go_workers.Effect.{Error, error, err, ok}
use go_workers.Storage.Types.{Heartbeat}
use go_workers.Storage.Sent.Hash.{read_back}
use go_workers.Storage.Sent.{get_heartbeat-send_heartbeat}
use go_workers.Storage.Keys.{get_queue_name, get_manager_key}
use go_workers.Storage.Client.{RedisStore}
use go_workers.Storage.Instance.{JobLaws, redis_store-StoreLaws}
use go_workers.Storage.Refinement.{jobs}
use go_workers.Storage.Requeue.{EndsWith, requeue_messages_from_in_progress_queue_lem}
use go_workers.Storage.RedisStore.Queues.{requeue_messages_from_in_progress_queue}
use go_workers.Storage.RedisStore.Beats.{
  heartbeat_properties, get_heartbeat, send_heartbeat, check_rtt,
}
use go_workers.Tests.Instances.{tiny, tiny-Lawful, Memory, in_memory, in_memory-Documented}

abbrev pub stored : RedisStore tiny
stored = record {
  namespace = "app:";
  client = in_memory;
  fuel = 5;
  marshal_workers = λ ws. "null";
  unmarshal_workers = λ s. if str_eq s "null" then ok [] else err (error "invalid character '<'");
}

abbrev one_job : List String
one_job = "job" ∷ []

abbrev pub busy_memory : Memory
busy_memory = record {
  lists = λ k. if str_eq k "app:queue:running" then one_job else [];
  zsets = λ k. [];
  sets = λ k. [];
  counters = λ k. none;
  hashes = λ k. [];
}

redis_store-StoreLaws_example : JobLaws stored in_memory-Documented
redis_store-StoreLaws_example = redis_store-StoreLaws stored in_memory-Documented

abbrev running : String
running = "running"

apart : running ≢ "q"
apart e = cc e

short : length ((jobs stored in_memory-Documented busy_memory).queues "running") < stored.fuel
unfolding get_queue_name
short = omega arith

requeue_example :
    EndsWith stored in_memory-Documented "running" "q" [] busy_memory
      (requeue_messages_from_in_progress_queue stored "running" "q" busy_memory)
requeue_example =
    requeue_messages_from_in_progress_queue_lem stored in_memory-Documented "running" "q" apart
      busy_memory short

-- A heartbeat of a process without workers
abbrev beating : Heartbeat
beating = record {
  identity = "host:1:nonce";
  beat = pos 9;
  quiet = false;
  busy = pos 2;
  rtt_us = pos 0;
  rss = pos 0;
  info = "info";
  pid = pos 1;
  manager_priority = pos 3;
  active_manager = true;
  ttl = pos 5;
  worker_heartbeats = [];
}

abbrev sent_memory : Memory
sent_memory = (send_heartbeat stored beating busy_memory).1

is_sent : send_heartbeat stored beating busy_memory ≡ (ok tt, sent_memory)
unfolding send_heartbeat check_rtt
is_sent = refl

get_heartbeat-send_heartbeat_example :
    (rtt : ℤ) × (((get_heartbeat stored "host:1:nonce" sent_memory).0
        ≡ ok (some (read_back rtt beating)))
      ⊎ ((e : Error) × ((stored.client.hmget
              (get_manager_key stored.namespace "host:1:nonce")
              heartbeat_properties
              sent_memory).0
            ≡ err e)
          × ((get_heartbeat stored "host:1:nonce" sent_memory).0 ≡ err e)))
get_heartbeat-send_heartbeat_example =
    get_heartbeat-send_heartbeat stored in_memory-Documented tiny-Lawful beating busy_memory
      sent_memory refl is_sent
