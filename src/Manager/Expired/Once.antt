-- ===== src/Manager/Expired/Once.antt =====
-- Each queue in progress of an expired process is requeued once (manager.go).
use go_workers.Prelude.{◌≡◌, refl, String, List, [], ◌∷◌, ◌++◌, if◌then◌else◌, Bool-cases, inl, inr}
use go_workers.Prelude.Int.{ℤ, ltb_ℤ}
use go_workers.Effect.{Io, pure, ◌>>=◌, ◌>>◌}
use go_workers.External.Keyspace.{contains}
use go_workers.Storage.Types.{Store, Heartbeat, WorkerHeartbeat}
use go_workers.Manager.Expired.{
  StaleMessageUpdate, add_update, requeue, expire_workers, expire_heartbeats,
}

-- The workers, the first of each queue in progress.
abbrev pub distinct : List WorkerHeartbeat → (seen : List String) → List WorkerHeartbeat
distinct [] seen = []
distinct (h ∷ hs) seen =
    if contains h.in_progress_queue seen
    then distinct hs seen
    else h ∷ distinct hs (h.in_progress_queue ∷ seen)

-- The heartbeats that are not after a time.
abbrev pub expired : List Heartbeat → ℤ → List Heartbeat
expired [] t = []
expired (h ∷ hs) t = let rest = expired hs t in if ltb_ℤ t h.beat then rest else h ∷ rest

module _ {Score W : Type 0} (store : Store Score W) where
  -- Every worker's queue in progress is requeued, in order.
  abbrev pub requeue_each : List WorkerHeartbeat → Io W (List StaleMessageUpdate)
  requeue_each [] = pure []
  requeue_each (h ∷ hs) = do
    msgs ← requeue store h
    rest ← requeue_each hs
    pure (add_update h msgs rest)

  -- Every heartbeat's process is dead.
  abbrev pub bury_each : List Heartbeat → Io W (List StaleMessageUpdate)
  bury_each [] = pure []
  bury_each (h ∷ hs) = do
    updates ← requeue_each (distinct h.worker_heartbeats [])
    store.remove_heartbeat h.identity
    rest ← bury_each hs
    pure (updates ++ rest)

  pub workers_once :
      (hs : List WorkerHeartbeat) (seen : List String)
      → expire_workers store hs seen ≡ requeue_each (distinct hs seen)
  unfolding expire_workers
  workers_once [] seen = refl
  workers_once (h ∷ hs) seen = elim (Bool-cases (contains h.in_progress_queue seen)) [
    | inl e ↦ rw (e, workers_once hs seen)
    | inr e ↦ rw (e, workers_once hs (h.in_progress_queue ∷ seen))
  ]

  -- Expiring heartbeats is requeueing, for those that are not after the time and for no other,
  -- every queue in progress of theirs once, and then removing the heartbeat, one after the other.
  pub expires_once :
      (hs : List Heartbeat) (t : ℤ) → expire_heartbeats store hs t ≡ bury_each (expired hs t)
  unfolding expire_heartbeats
  expires_once [] t = refl
  expires_once (h ∷ hs) t = elim (Bool-cases (ltb_ℤ t h.beat)) [
    | inl e ↦ rw (e, expires_once hs t)
    | inr e ↦ rw (e, expires_once hs t, workers_once h.worker_heartbeats [])
  ]
