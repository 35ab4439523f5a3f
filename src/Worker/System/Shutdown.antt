-- ===== src/Worker/System/Shutdown.antt =====
-- Once its runners are told to stop, a worker can end (start of worker.go).
use go_workers.Prelude.{◌≡◌, ◌≢◌, refl, true, false, List, [], ◌∷◌, All, map}
use go_workers.Effect.{spin}
use go_workers.External.Platform.{Platform}
use go_workers.Msg.{Msg}
use go_workers.Job.{Env, Frame, JobFunc}
use go_workers.Worker.{SimpleFetcher, begin, process_message, logged}
use go_workers.Worker.System.{Runner, Fetching, Looping, System, Swap, Move}

module _ {p : Platform} {env : Env p} (handler : JobFunc env) (f : SimpleFetcher) where
  -- Moves of the worker alone, one after the other.
  pub data Moves : System env → System env → Type 0 where
    done : {s : System env} → Moves s s
    more : {s t u : System env} → Move env handler f s t → Moves t u → Moves s u

  pub Moves-trans : {s t u : System env} → Moves s t → Moves t u → Moves s u
  Moves-trans done k = k
  Moves-trans (more m l) k = more m (Moves-trans l k)

  -- The worker has told its runners to stop, and nobody is in `quit`.
  pub record Stopping (s : System env) : Type 0 where
    pub loop : s.loop ≡ Looping.selecting
    pub told : s.told ≡ true
    pub free : s.quitting ≡ false

  module _ (returns : (fr : Frame env) → (process_message env handler fr).0 ≢ spin) where
    -- The state with other runners in another world.
    abbrev at : System env → List (Runner p) → env.World → System env
    at s rs w = record s { runners = rs; world = w }

    -- A place in the list of runners.
    abbrev Place : (List (Runner p) → List (Runner p)) → Type 0
    Place c = (a b : Runner p) (xs ys : List (Runner p)) → Swap a b xs ys → Swap a b (c xs) (c ys)

    module _ (s : System env) (stopping : Stopping s) (c : List (Runner p) → List (Runner p))
        (place : Place c) (rs : List (Runner p)) where
      step_exit :
          (w : env.World) → Moves (at s (c (Runner.idle ∷ rs)) w) (at s (c (Runner.exited ∷ rs)) w)
      step_exit w = more (Move.exits _ stopping.told (place _ _ _ _ Swap.here) refl) done

      step_finish :
          (m : Msg p) (w : env.World)
          → (v : env.World) × Moves
              (at s (c (Runner.finishing m ∷ rs)) w)
              (at s (c (Runner.exited ∷ rs)) v)
      step_finish m w =
          (_, more (Move.finishes m _ stopping.loop (place _ _ _ _ Swap.here) refl) (step_exit _))

      step_work :
          (m : Msg p) (w : env.World)
          → (v : env.World) × Moves
              (at s (c (Runner.working m ∷ rs)) w)
              (at s (c (Runner.exited ∷ rs)) v)
      step_work m w =
          let rest = step_finish (process_message env handler (begin env m w)).1.message (
            logged env (process_message env handler (begin env m w)).0
              (process_message env handler (begin env m w)).1.world) in
          (
            rest.0,
            more (Move.works m _ _ _ refl (returns (begin env m w)) (place _ _ _ _ Swap.here) refl)
                rest.1,
          )

      step_any :
          (r : Runner p) (w : env.World)
          → (v : env.World) × Moves (at s (c (r ∷ rs)) w) (at s (c (Runner.exited ∷ rs)) v)
      step_any Runner.idle w = (w, step_exit w)
      step_any (Runner.working m) w = step_work m w
      step_any (Runner.finishing m) w = step_finish m w
      step_any Runner.exited w = (w, done)

    abbrev all_exited : List (Runner p) → List (Runner p)
    all_exited rs = map (λ _. Runner.exited) rs

    step_all :
        (s : System env) (stopping : Stopping s) (rs : List (Runner p))
        (c : List (Runner p) → List (Runner p)) (place : Place c) (w : env.World)
        → (v : env.World) × Moves (at s (c rs) w) (at s (c (all_exited rs)) v)
    step_all s stopping [] c place w = (w, done)
    step_all s stopping (r ∷ rs) c place w =
        let one = step_any s stopping c place rs r w in
        let rest =
          step_all s stopping rs (λ xs. c (Runner.exited ∷ xs))
            (λ a b xs ys sw. place a b _ _ (Swap.there sw)) one.0 in
        (rest.0, Moves-trans one.1 rest.1)

    exited-all_exited : (rs : List (Runner p)) → All (λ r. r ≡ Runner.exited) (all_exited rs)
    exited-all_exited [] = tt
    exited-all_exited (r ∷ rs) = (refl, exited-all_exited rs)

    -- A worker that has told its runners to stop, with no caller in `quit` and jobs that return,
    -- can come to its end by moves of its own: every message that a runner has is worked on, and
    -- acknowledged if it still is to be, before the runner exits and the loop is left.
    pub shutdown_completes :
        (s : System env) → Stopping s → (t : System env) × Moves s t × (t.loop ≡ Looping.gone)
    shutdown_completes s stopping =
        let all = step_all s stopping s.runners (λ xs. xs) (λ a b xs ys sw. sw) s.world in
        (
          _,
          Moves-trans all.1 (
              more (Move.leaves stopping.loop (exited-all_exited s.runners) refl)
                (more (Move.goes refl stopping.free refl) done)),
          refl,
        )

    -- A worker whose fetcher serves, and that a caller of `quit` asks to stop, can come to its end
    -- by moves of its own, if its jobs return.
    pub stop_completes :
        (s : System env)
        → s.loop ≡ Looping.selecting
        → s.quitting ≡ true
        → s.closed ≡ false
        → s.fetch ≡ Fetching.serving
        → (t : System env) × Moves s t × (t.loop ≡ Looping.gone)
    stop_completes s l q c e =
        let closing : System env = record s { loop = Looping.closing; quitting = false } in
        let telling : System env = record closing { loop = Looping.telling; closed = true } in
        let told : System env = record telling { loop = Looping.selecting; told = true } in
        let rest = shutdown_completes told (record { loop = refl; told = refl; free = refl }) in
        let first : Move env handler f s closing = Move.is_stopped l q (rw c refl) in
        let second : Move env handler f closing telling = Move.closes refl e refl in
        let third : Move env handler f telling told = Move.tells refl refl refl in
        (rest.0, more first (more second (more third rest.1)), rest.2)
