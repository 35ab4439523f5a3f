-- ===== src/Options.antt =====
-- options.go: the options of a manager or a producer, checked and completed.
pub mod Checked
use go_workers.Prelude.{
  ℕ, ◌*◌, ◌^◌, String, ◌<>◌, Bool, true, false, not, ◌&&◌, Option, none, some, if◌then◌else◌,
  str_eq,
}
use go_workers.Prelude.Int.{ℤ, pos, negsuc, leb_ℤ, ltb_ℤ}
use go_workers.Effect.{Error, error, Outcome, ok, err, panic, spin}

-- Durations are in nanoseconds.
abbrev pub seconds : ℕ → ℤ
seconds n = pos (n * 10 ^ 9)

abbrev pub default_heartbeat_interval : ℤ
default_heartbeat_interval = seconds 5

abbrev pub default_heartbeat_ttl : ℤ
default_heartbeat_ttl = seconds 60

pub record PrioritizedManagerOptions : Type 0 where
  pub manager_priority : ℤ
  pub total_active_managers : ℤ

pub record HeartbeatOptions : Type 0 where
  pub interval : ℤ
  pub heartbeat_ttl : ℤ
  pub prioritized_manager : Option PrioritizedManagerOptions

-- The options without the TLS configuration, the logger, and what is built from the options.
pub record Options : Type 0 where
  pub process_id : String
  pub namespace : String
  pub poll_interval : ℤ
  pub database : ℤ
  pub password : String
  pub pool_size : ℤ
  pub server_addr : String
  pub sentinel_addrs : String
  pub redis_master_name : String
  pub manager_display_name : String
  pub manager_start_inactive : Bool
  pub heartbeat : Option HeartbeatOptions

abbrev pub no_process_id : Error
no_process_id = error "options requires a ProcessID, which uniquely identifies this instance"

abbrev pub bad_heartbeat : Error
bad_heartbeat =
    error
      "invalid heartbeat configuration, heartbeat interval longer than or equal to heartbeat tll"

abbrev pub no_server : Error
no_server = error "Options requires either the Server or Sentinels option"

abbrev pub no_master : Error
no_master = error "Sentinel configuration requires a master name"

abbrev pub no_client : Error
no_client = error "redis client is nil; Redis client is not configured"

-- `options.Heartbeat != nil && Interval >= HeartbeatTTL`
unfoldable pub beats_too_slowly : Option HeartbeatOptions → Bool
beats_too_slowly none = false
beats_too_slowly (some h) = leb_ℤ h.heartbeat_ttl h.interval

unfoldable pub validate_general_options : Options → Outcome Options
unfolding beats_too_slowly
validate_general_options o =
    if str_eq o.process_id ""
    then err no_process_id
    else if beats_too_slowly o.heartbeat
    then err bad_heartbeat
    else ok (record o {
      namespace = if str_eq o.namespace "" then o.namespace else o.namespace <> ":";
      poll_interval = if leb_ℤ o.poll_interval (pos 0) then seconds 15 else o.poll_interval;
    })

unfoldable pub complete_heartbeat : HeartbeatOptions → HeartbeatOptions
complete_heartbeat h = record h {
  interval = if leb_ℤ h.interval (pos 0) then default_heartbeat_interval else h.interval;
  heartbeat_ttl = if leb_ℤ h.heartbeat_ttl (pos 0) then default_heartbeat_ttl else h.heartbeat_ttl;
}

-- What follows the choice of a client.
unfoldable pub complete : Options → Options
unfolding complete_heartbeat
complete o = record o {
  pool_size = if leb_ℤ o.pool_size (pos 0) && leb_ℤ (pos 0) o.pool_size then pos 1 else o.pool_size;
  heartbeat = elim o.heartbeat [ none ↦ none | some h ↦ some (complete_heartbeat h) ];
}

-- The client is that of a server, or of sentinels.
unfoldable pub connect : Options → Outcome Options
unfolding complete
connect o =
    if not (str_eq o.server_addr "")
    then ok (complete o)
    else if not (str_eq o.sentinel_addrs "")
    then (if str_eq o.redis_master_name "" then err no_master else ok (complete o))
    else err no_server

unfoldable pub process_options : Options → Outcome Options
unfolding validate_general_options connect
process_options o = elim (validate_general_options o) [
  | ok v ↦ connect v
  | err e ↦ err e
  | panic q ↦ panic q
  | spin ↦ spin
]

-- `client` tells whether there is one.
unfoldable pub process_options_with_redis_client : (client : Bool) → Options → Outcome Options
unfolding validate_general_options
process_options_with_redis_client client o = elim (validate_general_options o) [
  | ok v ↦ if client then ok v else err no_client
  | err e ↦ err e
  | panic q ↦ panic q
  | spin ↦ spin
]
