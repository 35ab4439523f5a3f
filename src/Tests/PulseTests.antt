-- ===== src/Tests/PulseTests.antt =====
-- The theorem on the heartbeats of a manager, at a server that is lost after the first of them.
use go_workers.Prelude.{◌+◌, suc, ◌≡◌, refl, true, false, none, [], ◌∷◌}
use go_workers.Prelude.Int.{ℤ, pos, ◌-ℤ◌}
use go_workers.Effect.{error, text, ok, err, Io}
use go_workers.Storage.Instance.{redis_store}
use go_workers.Storage.Keys.{get_processes_key, get_manager_key}
use go_workers.Storage.RedisStore.Beats.{
  send_heartbeat, check_rtt, get_all_heartbeats, heartbeats_of, get_heartbeat,
}
use go_workers.Job.{Env}
use go_workers.Manager.State.{Manager}
use go_workers.Manager.Beat.{Host}
use go_workers.Manager.Pulse.{Beating, tick, start_heartbeat}
use go_workers.Manager.Pulse.Stops.{one_error_ends}
use go_workers.Tests.Instances.{tiny, Memory}
use go_workers.Tests.StorageTests.{stored, busy_memory}

abbrev lost : Io Memory ℤ
lost w = elim (w.sets "app:processes") [ [] ↦ (ok (pos 100), w) | p ∷ ps ↦ (err (error "EOF"), w) ]

abbrev flaky : Env tiny
flaky = record {
  World = Memory;
  store = record (redis_store stored) { get_time = lost };
  now = λ w. (pos 7, w);
  intn = λ n w. (3, w);
  println = λ words w. w;
}

abbrev on_host : Host
on_host = record {
  hostname = ok "host";
  pid = pos 1;
  format_int = λ n. "1";
  marshal_info = λ name started pid tag concurrency queues identity. ok "info";
}

abbrev every_beat : Beating
every_beat = record {
  host = on_host;
  tag_of = λ s. s;
  started_at = pos 3;
  heartbeat_ttl = pos 60;
  before = λ t. t -ℤ pos 60;
}

abbrev idle_manager : Manager flaky
idle_manager = record {
  opts = record {
    namespace = "app:";
    manager_display_name = "";
    manager_start_inactive = false;
    manager_priority = none;
  };
  workers = [];
  running = true;
  active = true;
  process_nonce = "nonce";
  retries_exhausted_handlers = [];
}

abbrev after_one : Memory
after_one = (tick flaky every_beat (λ w. idle_manager) [] busy_memory).1

beats_once : tick flaky every_beat (λ w. idle_manager) [] busy_memory ≡ (ok true, after_one)
unfolding tick send_heartbeat check_rtt get_all_heartbeats heartbeats_of get_processes_key
    get_heartbeat get_manager_key ◌-ℤ◌
beats_once = refl

is_lost : (lost after_one).0 ≡ err (error "EOF")
unfolding tick send_heartbeat check_rtt get_all_heartbeats heartbeats_of get_processes_key
    get_heartbeat get_manager_key ◌-ℤ◌
is_lost = refl

one_error_ends_example :
    start_heartbeat flaky every_beat (λ w. idle_manager) [] (1 + suc 8) busy_memory ≡ (
      ok tt,
      flaky.println
          ("ERR: Failed to get heartbeat time" ∷ text (error "EOF") ∷ [])
          (lost after_one).1,
    )
one_error_ends_example =
    one_error_ends flaky every_beat (λ w. idle_manager) [] 1 8 busy_memory after_one (error "EOF")
      (after_one, beats_once, refl) is_lost
