-- ===== src/Options/Checked.antt =====
-- What holds of options that have been processed (options.go).
use go_workers.Prelude.{◌≡◌, ◌≢◌, refl, true, false, Option, none, some, str_eq, arith, ◌⊎◌}
use go_workers.Prelude.Int.{pos, leb_ℤ, ltb_ℤ}
use go_workers.Effect.{Outcome, ok, err, panic, spin}
use go_workers.Options.{
  Options, HeartbeatOptions, default_heartbeat_interval, process_options, validate_general_options,
  connect, complete, complete_heartbeat, beats_too_slowly,
}

-- A heartbeat beats, and lives for some time.
abbrev pub Beats : Option HeartbeatOptions → Type 0
Beats none = Unit
Beats (some h) = (ltb_ℤ (pos 0) h.interval ≡ true) × (ltb_ℤ (pos 0) h.heartbeat_ttl ≡ true)

complete_heartbeat-Beats : (h : HeartbeatOptions) → Beats (some (complete_heartbeat h))
unfolding complete_heartbeat
complete_heartbeat-Beats h = (ground arith, ground arith)

validated :
    (o v : Options)
    → validate_general_options o ≡ ok v
    → (str_eq v.process_id "" ≡ false) × (ltb_ℤ (pos 0) v.poll_interval ≡ true)
unfolding validate_general_options
validated o v h = (ground arith, ground arith)

validated_heartbeat :
    (o v : Options) (g : HeartbeatOptions)
    → o.heartbeat ≡ some g
    → validate_general_options o ≡ ok v
    → (v.heartbeat ≡ some g) × (leb_ℤ g.heartbeat_ttl g.interval ≡ false)
unfolding validate_general_options beats_too_slowly
validated_heartbeat o v g e h = ground arith

short :
    (g : HeartbeatOptions)
    → g.interval ≡ pos 0
    → leb_ℤ g.heartbeat_ttl default_heartbeat_interval ≡ true
    → leb_ℤ g.heartbeat_ttl g.interval ≡ false
    → leb_ℤ (complete_heartbeat g).heartbeat_ttl (complete_heartbeat g).interval ≡ true
unfolding complete_heartbeat
short g i t k = ground arith

-- There is a server, or there are sentinels with a master.
abbrev pub Reaches : Options → Type 0
Reaches o =
    (str_eq o.server_addr "" ≡ false)
    ⊎ ((str_eq o.sentinel_addrs "" ≡ false) × (str_eq o.redis_master_name "" ≡ false))

connected : (o v : Options) → connect o ≡ ok v → (v ≡ complete o) × Reaches o
unfolding connect
connected o v h = ground arith

completed :
    (o : Options)
    → ((complete o).process_id ≡ o.process_id)
      × ((complete o).poll_interval ≡ o.poll_interval)
      × ((complete o).pool_size ≢ pos 0)
      × ((complete o).heartbeat
          ≡ elim o.heartbeat [ none ↦ none | some h ↦ some (complete_heartbeat h) ])
unfolding complete
completed o = (refl, refl, ground arith, refl)

then_ok :
    (r : Outcome Options) (v : Options)
    → elim r [ ok u ↦ connect u | err e ↦ err e | panic q ↦ panic q | spin ↦ spin ] ≡ ok v
    → (u : Options) × (r ≡ ok u) × (connect u ≡ ok v)
then_ok (ok u) v h = (u, refl, h)
then_ok (err e) v h = cc
then_ok (panic q) v h = cc
then_ok spin v h = cc

-- Where options come from that have been processed.
processed :
    (o v : Options)
    → process_options o ≡ ok v
    → (u : Options) × (validate_general_options o ≡ ok u) × (connect u ≡ ok v)
unfolding process_options
processed o v h = then_ok (validate_general_options o) v h

beats :
    (h : Option HeartbeatOptions)
    → Beats (elim h [ none ↦ none | some g ↦ some (complete_heartbeat g) ])
beats none = tt
beats (some h) = complete_heartbeat-Beats h

completed-Reaches : (o : Options) → Reaches o → Reaches (complete o)
unfolding complete
completed-Reaches o r = r

completed-Beats : (o : Options) → Beats (complete o).heartbeat
unfolding complete
completed-Beats o = beats o.heartbeat

-- Options that have been processed have a process, a server or sentinels with a master, a poll
-- that waits, connections, and a heartbeat, if any, with an interval and a lifetime.
pub processed_options :
    (o v : Options)
    → process_options o ≡ ok v
    → (str_eq v.process_id "" ≡ false)
      × (ltb_ℤ (pos 0) v.poll_interval ≡ true)
      × (v.pool_size ≢ pos 0)
      × ((str_eq v.server_addr "" ≡ false)
          ⊎ ((str_eq v.sentinel_addrs "" ≡ false) × (str_eq v.redis_master_name "" ≡ false)))
      × Beats v.heartbeat
processed_options o v h =
    let (u, valid, joined) = processed o v h in
    let (same, reaches) = connected u v joined in
    let (process, poll) = validated o u valid in
    let (p, q, pool, _) = completed u in
    rw same (rw p process, rw q poll, pool, completed-Reaches u reaches, completed-Beats u)

-- The lifetime is compared with the interval before either has its default: where the interval is
-- left out and the lifetime is at most five seconds, options that have been processed have a
-- heartbeat that lives no longer than its interval.
interval_default_unchecked :
    (o v : Options) (g : HeartbeatOptions)
    → o.heartbeat ≡ some g
    → g.interval ≡ pos 0
    → leb_ℤ g.heartbeat_ttl default_heartbeat_interval ≡ true
    → process_options o ≡ ok v
    → (h : HeartbeatOptions) × (v.heartbeat ≡ some h) × (leb_ℤ h.heartbeat_ttl h.interval ≡ true)
interval_default_unchecked o v g e i t h =
    let (u, valid, joined) = processed o v h in
    let (same, reaches) = connected u v joined in
    let kept = validated_heartbeat o u g e valid in
    let (_, _, _, done) = completed u in
    (complete_heartbeat g, rw (same, done, kept.0) refl, short g i t kept.1)
