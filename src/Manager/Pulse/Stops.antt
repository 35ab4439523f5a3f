-- ===== src/Manager/Pulse/Stops.antt =====
-- How the heartbeats of a manager end (startHeartbeat of manager.go).
use go_workers.Prelude.{
  ℕ, zero, suc, ◌+◌, ◌≡◌, ap, ◌∙◌, Bool, true, false, List, [], ◌∷◌, arith, if◌then◌else◌,
}
use go_workers.Prelude.Int.{ℤ}
use go_workers.Effect.{Error, text, Outcome, ok, err, pure, ◌>>=◌, Seen}
use go_workers.External.Platform.{Platform}
use go_workers.Effect.Inverse.{bind_ok, try_err}
use go_workers.Job.{Env}
use go_workers.Manager.State.{Manager}
use go_workers.Manager.Pulse.{Beating, AfterHeartbeatFunc, tick, start_heartbeat}

module _ {p : Platform} (env : Env p) (beating : Beating) (manager : env.World → Manager env)
    (hooks : List (AfterHeartbeatFunc env beating manager)) where
  -- This many ticks go well, one after the other.
  abbrev pub Beats : ℕ → env.World → env.World → Type 0
  Beats zero w v = w ≡ v
  Beats (suc k) w v =
      (u : env.World) × (tick env beating manager hooks w ≡ (ok true, u)) × Beats k u v

  first_goes_on :
      (n : ℕ) (w u : env.World)
      → tick env beating manager hooks w ≡ (ok true, u)
      → start_heartbeat env beating manager hooks (suc n) w
        ≡ start_heartbeat env beating manager hooks n u
  unfolding start_heartbeat
  first_goes_on n w u e =
      bind_ok (tick env beating manager hooks)
        (λ b. if b then start_heartbeat env beating manager hooks n else pure tt) w u true e

  first_ends :
      (n : ℕ) (w u : env.World)
      → tick env beating manager hooks w ≡ (ok false, u)
      → start_heartbeat env beating manager hooks (suc n) w ≡ (ok tt, u)
  unfolding start_heartbeat
  first_ends n w u e =
      bind_ok (tick env beating manager hooks)
        (λ b. if b then start_heartbeat env beating manager hooks n else pure tt) w u false e

  after_beats :
      (k n : ℕ) (w v : env.World)
      → Beats k w v
      → start_heartbeat env beating manager hooks (k + n) w
        ≡ start_heartbeat env beating manager hooks n v
  after_beats zero n w v h =
      let none : zero + n ≡ n = omega arith in
      ap (λ j. start_heartbeat env beating manager hooks j w) none
      ∙ ap (start_heartbeat env beating manager hooks n) h
  after_beats (suc k) n w v (u, e, h) =
      let one : suc k + n ≡ suc (k + n) = omega arith in
      ap (λ j. start_heartbeat env beating manager hooks j w) one
      ∙ first_goes_on (k + n) w u e
      ∙ after_beats k n u v h

  -- A server that does not answer
  unanswered :
      (w : env.World) (x : Error)
      → (env.store.get_time w).0 ≡ err x
      → tick env beating manager hooks w ≡ (
        ok false,
        env.println ("ERR: Failed to get heartbeat time" ∷ text x ∷ []) (env.store.get_time w).1,
      )
  unfolding tick
  unanswered w x e =
      let end : Outcome (Seen ℤ) × env.World → Outcome Bool × env.World =
        λ r. (ok false, env.println ("ERR: Failed to get heartbeat time" ∷ text x ∷ []) r.1) in
      rw (e, ◌>>=◌) (ap end (try_err env.store.get_time w x e))

  -- A single error ends the heartbeats of a manager: if after some ticks that go well the store once
  -- does not tell the time, all ticks that are still to come do nothing, however many they are. The
  -- world is left as the failed call left it, with a line in the log.
  pub one_error_ends :
      (k n : ℕ) (w v : env.World) (x : Error)
      → Beats k w v
      → (env.store.get_time v).0 ≡ err x
      → start_heartbeat env beating manager hooks (k + suc n) w ≡ (
        ok tt,
        env.println ("ERR: Failed to get heartbeat time" ∷ text x ∷ []) (env.store.get_time v).1,
      )
  one_error_ends k n w v x h e = after_beats k (suc n) w v h ∙ first_ends n v _ (unanswered v x e)
