-- ===== src/Storage/RedisStore/Beats.antt =====
-- storage/redis.go: the heartbeats of the managers, a hash for each and the set of their names.
use go_workers.Prelude.{
  String, Bool, true, false, Option, none, some, List, [], ◌∷◌, str_eq, if◌then◌else◌, ◌/◌, not,
}
use go_workers.Prelude.Int.{ℤ, pos, ◌-ℤ◌, pos_part}
use go_workers.Effect.{
  redis_nil, Outcome, ok, err, Io, pure, fail, ◌>>=◌, ◌>>◌, value, failed, try, lift,
}
use go_workers.External.Platform.{Platform}
use go_workers.External.Keyspace.{number, boolean, words, field}
use go_workers.External.Redis.{first_error, error_of, report_unless_nil}
use go_workers.Storage.Types.{Heartbeat, WorkerHeartbeat}
use go_workers.Storage.Keys.{get_manager_key, get_workers_key, get_processes_key}
use go_workers.Storage.Client.{RedisStore}

abbrev pub heartbeat_properties : List String
heartbeat_properties =
    "beat" ∷ "quiet" ∷ "busy" ∷ "rtt_us" ∷ "rss" ∷ "info" ∷ "manager_priority" ∷ "active_manager"
    ∷ "worker_heartbeats" ∷ []

-- The loop that fills `heartbeatMap`: the properties that are there.
unfoldable pub present : List String → List (Option String) → List (String × String)
present (k ∷ ks) (some v ∷ vs) = (k, v) ∷ present ks vs
present (k ∷ ks) (none ∷ vs) = present ks vs
present _ _ = []

abbrev has_property_value : List (String × String) → Bool
has_property_value [] = false
has_property_value (f ∷ fs) = true

-- Redis keeps a boolean as 1 or 0.
abbrev pub boolean_text : Option String → String
boolean_text (some v) = if str_eq v "1" then "true" else "false"
boolean_text none = "false"

-- fmt.Sprintf("%v", v)
abbrev pub printed : Option String → String
printed (some v) = v
printed none = "<nil>"

-- json.Unmarshal of a member with the tag `,string`; a member that is missing leaves the zero value.
unfoldable pub int_member : (p : Platform) → Option String → Outcome ℤ
int_member p none = ok (pos 0)
int_member p (some s) = elim (p.parse_int s).1 [ none ↦ ok (p.parse_int s).0 | some e ↦ err e ]

abbrev pub text_member : Option String → String
text_member none = ""
text_member (some s) = s

module _ {p : Platform} (s : RedisStore p) where
  open s use {namespace, client}

  -- time.Since(start).Microseconds()
  unfoldable pub check_rtt : Io s.client.Db ℤ
  check_rtt = do
    start ← client.now
    try client.ping
    stop ← client.now
    pure (pos (pos_part (stop -ℤ start) / 1000))

  -- From the map to the record, by way of its JSON.
  unfoldable pub read_heartbeat :
      (heartbeat_id : String)
      → List (String × String)
      → List WorkerHeartbeat
      → Io s.client.Db Heartbeat
  unfolding int_member
  read_heartbeat heartbeat_id m workers = do
    beat ← lift (int_member p (field "beat" m))
    busy ← lift (int_member p (field "busy" m))
    rtt_us ← lift (int_member p (field "rtt_us" m))
    rss ← lift (int_member p (field "rss" m))
    manager_priority ← lift (int_member p (field "manager_priority" m))
    pure (record {
      identity = heartbeat_id;
      beat = beat;
      quiet = str_eq (boolean_text (field "quiet" m)) "true";
      busy = busy;
      rtt_us = rtt_us;
      rss = rss;
      info = text_member (field "info" m);
      pid = pos 0;
      manager_priority = manager_priority;
      active_manager = str_eq (boolean_text (field "active_manager" m)) "true";
      ttl = pos 0;
      worker_heartbeats = workers;
    })

  -- `nil` without an error is `none`.
  unfoldable pub get_heartbeat : (heartbeat_id : String) → Io s.client.Db (Option Heartbeat)
  unfolding read_heartbeat present
  get_heartbeat heartbeat_id = do
    values ← client.hmget (get_manager_key namespace heartbeat_id) heartbeat_properties
    let m = present heartbeat_properties values
    workers ← lift (s.unmarshal_workers (printed (field "worker_heartbeats" m)))
    (if not (has_property_value m)
        then pure none
        else (do h ← read_heartbeat heartbeat_id m workers; pure (some h)))

  unfoldable pub get_heartbeat_ids : Io s.client.Db (List String)
  get_heartbeat_ids = do
    r ← try (client.smembers (get_processes_key namespace))
    elim r [ value ids ↦ pure ids | failed redis_nil ↦ pure [] | failed e ↦ fail e ]

  add_present : Option Heartbeat → List Heartbeat → List Heartbeat
  add_present none hs = hs
  add_present (some h) hs = h ∷ hs

  -- The loop of GetAllHeartbeats.
  unfoldable pub heartbeats_of : List String → Io s.client.Db (List Heartbeat)
  unfolding add_present
  heartbeats_of [] = pure []
  heartbeats_of (id ∷ ids) = do
    h ← get_heartbeat id
    rest ← heartbeats_of ids
    pure (add_present h rest)

  unfoldable pub get_all_heartbeats : Io s.client.Db (List Heartbeat)
  unfolding get_heartbeat_ids
  get_all_heartbeats = do ids ← get_heartbeat_ids; heartbeats_of ids

  unfoldable pub send_heartbeat : Heartbeat → Io s.client.Db (Unit {0})
  send_heartbeat h = do
    rtt ← check_rtt
    added ← try (client.sadd (get_processes_key namespace) h.identity)
    written ← try (
        client.hmset (get_manager_key namespace h.identity) (
          ("beat", number h.beat)
          ∷ ("quiet", boolean h.quiet)
          ∷ ("busy", number h.busy)
          ∷ ("rtt_us", number rtt)
          ∷ ("rss", number h.rss)
          ∷ ("info", words h.info)
          ∷ ("manager_priority", number h.manager_priority)
          ∷ ("active_manager", boolean h.active_manager)
          ∷ ("worker_heartbeats", words (s.marshal_workers h.worker_heartbeats))
          ∷ []))
    report_unless_nil (first_error (error_of added ∷ error_of written ∷ []))

  unfoldable pub remove_heartbeat : (heartbeat_id : String) → Io s.client.Db (Unit {0})
  remove_heartbeat heartbeat_id = do
    let manager_key = get_manager_key namespace heartbeat_id
    deleted ← try (client.del manager_key)
    workers ← try (client.del (get_workers_key manager_key))
    removed ← try (client.srem (get_processes_key namespace) heartbeat_id)
    report_unless_nil (first_error (error_of deleted ∷ error_of workers ∷ error_of removed ∷ []))
