-- ===== src/Manager/Priority.antt =====
-- manager.go: activateManagerByPriority. Which of the managers with a heartbeat are active.
pub mod Rank
use go_workers.Prelude.{
  ℕ, zero, suc, String, Bool, true, false, List, [], ◌∷◌, if◌then◌else◌, str_eq,
}
use go_workers.Prelude.Int.{ℤ, pos_part}
use go_workers.Effect.{Panic, of_error, error, Outcome, ok, panic, Io, pure, ◌>>=◌, lift}
use go_workers.Storage.Types.{Store, Heartbeat}

abbrev pub index_out_of_range : Panic
index_out_of_range = of_error (error "runtime error: index out of range")

-- The loop over `heartbeats[i]` for `i` below the number of active managers.
unfoldable pub among : ℕ → List Heartbeat → (identity : String) → Outcome Bool
among zero hs identity = ok false
among (suc n) [] identity = panic index_out_of_range
among (suc n) (h ∷ hs) identity =
    let rest = among n hs identity in if str_eq h.identity identity then ok true else rest

-- `sort` is sort.Slice by descending priority; `activate` is `manager.Active`.
unfoldable pub activate_manager_by_priority :
    {Score W : Type 0} (store : Store Score W) (sort : List Heartbeat → List Heartbeat)
    (activate : Bool → Io W (Unit {0})) (total_active_managers : ℤ)
    → Heartbeat
    → Io W (Unit {0})
unfolding among
activate_manager_by_priority store sort activate total_active_managers heartbeat = do
  heartbeats ← store.get_all_heartbeats
  elim heartbeats [
    | [] ↦ pure tt
    | h ∷ hs ↦ (do
      active ← lift (among (pos_part total_active_managers) (sort (h ∷ hs)) heartbeat.identity)
      activate active)
  ]
