-- ===== src/Manager/Pulse.antt =====
-- manager.go: `startHeartbeat`, what a manager does at each tick of its heartbeat.
pub mod Stops
use go_workers.Prelude.{ℕ, zero, suc, String, Bool, true, false, List, [], ◌∷◌, if◌then◌else◌}
use go_workers.Prelude.Int.{ℤ}
use go_workers.Effect.{
  Error, text, Outcome, ok, Io, pure, ◌>>=◌, ◌>>◌, Seen, value, failed, try, lift,
}
use go_workers.External.Platform.{Platform}
use go_workers.Storage.Types.{Heartbeat}
use go_workers.Job.{Env}
use go_workers.Manager.State.{Manager}
use go_workers.Manager.Beat.{Host, build_heartbeat}
use go_workers.Manager.Expired.{StaleMessageUpdate, handle_all_expired_heartbeats}

-- What the heartbeat of a manager takes from its options and from the packages time and strings:
-- `before` is the time in seconds that lies the lifetime before a time.
pub record Beating : Type 0 where
  pub host : Host
  pub tag_of : String → String
  pub started_at : ℤ
  pub heartbeat_ttl : ℤ
  pub before : ℤ → ℤ

module _ {p : Platform} (env : Env p) (beating : Beating) (manager : env.World → Manager env) where
  -- func(heartbeat, manager, staleMessageUpdates) error
  abbrev pub AfterHeartbeatFunc : Type 0
  AfterHeartbeatFunc = Heartbeat → List StaleMessageUpdate → Io env.World (Unit {0})

  -- `sendHeartbeat`, of the manager as it is in the world
  unfoldable pub send_heartbeat : (heartbeat_time : ℤ) → Io env.World Heartbeat
  unfolding build_heartbeat
  send_heartbeat heartbeat_time w =
      (do
        heartbeat ← lift (
            build_heartbeat beating.host beating.tag_of beating.started_at heartbeat_time
              beating.heartbeat_ttl (manager w))
        env.store.send_heartbeat heartbeat
        pure heartbeat)
        w

  -- `if err != nil { m.logger.Println(words, err); return }`
  unfoldable pub or_return :
      {A : Type 0} → String → Io env.World A → (A → Io env.World Bool) → Io env.World Bool
  or_return words m k = do
    r ← try m
    elim r [ value a ↦ k a | failed e ↦ (λ w. (ok false, env.println (words ∷ text e ∷ []) w)) ]

  unfoldable pub after_heartbeat : List AfterHeartbeatFunc → AfterHeartbeatFunc
  after_heartbeat [] heartbeat updates = pure tt
  after_heartbeat (h ∷ hs) heartbeat updates =
      h heartbeat updates >> after_heartbeat hs heartbeat updates

  -- One tick: whether the loop goes on.
  unfoldable pub tick : List AfterHeartbeatFunc → Io env.World Bool
  unfolding or_return send_heartbeat after_heartbeat handle_all_expired_heartbeats
  tick hooks = or_return "ERR: Failed to get heartbeat time" env.store.get_time λ heartbeat_time.
      or_return "ERR: Failed to send heartbeat" (send_heartbeat heartbeat_time) λ heartbeat.
        or_return "ERR: error expiring heartbeat identities"
          (handle_all_expired_heartbeats env.store (beating.before heartbeat_time))
          λ updates.
            or_return "ERR: Failed to execute after heartbeat hook"
              (after_heartbeat hooks heartbeat updates) λ u. pure true

  -- The loop, where the context is cancelled after this many ticks.
  unfoldable pub start_heartbeat : List AfterHeartbeatFunc → (ticks : ℕ) → Io env.World (Unit {0})
  unfolding tick
  start_heartbeat hooks zero = pure tt
  start_heartbeat hooks (suc n) =
      let rest = start_heartbeat hooks n in
      do goes_on ← tick hooks; (if goes_on then rest else pure tt)
