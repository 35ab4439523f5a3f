-- ===== src/Worker/System/Delivery.antt =====
-- A worker that serves works off its queue (worker.go, fetcher.go, task_runner.go).
use go_workers.Prelude.{
  ℕ, zero, suc, ◌≡◌, All, refl, sym, ap, subst, ◌∙◌, String, true, false, some, List, [], ◌∷◌,
  length, length-append, inl, inr, arith, Option-cases,
}
use go_workers.Effect.{ok}
use go_workers.External.Platform.{Platform}
use go_workers.External.Keyspace.{split_last}
use go_workers.Storage.Laws.{StoreLaws}
use go_workers.Storage.Moved.{split_last-none, split_last-append}
use go_workers.Storage.Spec.{Jobs}
use go_workers.Msg.{Msg}
use go_workers.Job.{Env, JobFunc}
use go_workers.Worker.{SimpleFetcher, try_fetch_message, begin, logged}
use go_workers.Worker.System.{Runner, Polling, Looping, System, Swap, Move}
use go_workers.Worker.System.Shutdown.{Moves, done, more, Moves-trans}
use go_workers.Worker.System.Waiting.{
  All-append, Cooperative, ran, settled, settled-waiting, Parses, fetched,
}

module _ {p : Platform} where
  -- A runner in a list, and the list with another in its place
  record Place (a : Runner p) (rs : List (Runner p)) : Type 0 where
    with : Runner p → List (Runner p)
    swaps : (b c : Runner p) → Swap b c (with b) (with c)
    whole : with a ≡ rs

  place : {a b : Runner p} {rs rs' : List (Runner p)} → Swap a b rs rs' → Place a rs
  place (Swap.here {rs}) = record { with = λ r. r ∷ rs; swaps = λ b c. Swap.here; whole = refl }
  place (Swap.there {r} w) =
      let rest = place w in
      record {
        with = λ x. r ∷ rest.with x;
        swaps = λ b c. Swap.there (rest.swaps b c);
        whole = ap (λ (xs : List (Runner p)). r ∷ xs) rest.whole;
      }

module _ {p : Platform} (env : Env p) (handler : JobFunc env) (f : SimpleFetcher)
    (jobs : env.World → Jobs p.Float) (laws : StoreLaws p.ltf env.store jobs)
    (c : Cooperative env handler f jobs) where
  abbrev left : env.World → List String
  left w = (jobs w).queues f.queue

  abbrev after_one : Msg p → env.World → env.World
  after_one m w = settled env handler f jobs laws c m w

  module _ (s : System env) (selecting : s.loop ≡ Looping.selecting) (not_closed : s.closed ≡ false)
      (active : s.active ≡ true) (pl : Place {p = p} Runner.idle s.runners) where
    -- The worker between two messages, in a world
    abbrev between : env.World → System env
    between w = record s { poll = Polling.checking; runners = pl.with Runner.idle; world = w }

    one_message :
        (w v : env.World) (m : Msg p)
        → try_fetch_message env f w ≡ (ok (some m), v)
        → Moves handler f (between w) (between (after_one m v))
    one_message w v m e =
        let waits : System env = record (between w) { poll = Polling.waiting } in
        let hears : System env = record (between w) { poll = Polling.fetching } in
        let sends : System env = record (between v) { poll = Polling.sending m } in
        let works : System env = record (between v) { runners = pl.with (Runner.working m) } in
        let after = (ran env handler f jobs laws c m v).1 in
        let ended : System env = record s {
          poll = Polling.checking;
          runners = pl.with (Runner.finishing after.message);
          world = logged env (ran env handler f jobs laws c m v).0 after.world;
        } in
        let first : Move env handler f (between w) waits = Move.checks refl (rw not_closed refl) in
        let second : Move env handler f waits hears =
          Move.hears (pl.with Runner.idle) refl (pl.swaps Runner.idle Runner.idle)
            (rw active refl) in
        let third : Move env handler f hears sends = Move.fetches m v refl e refl in
        let fourth : Move env handler f sends works =
          Move.hands m (pl.with (Runner.working m)) refl (pl.swaps Runner.idle (Runner.working m))
            refl in
        let fifth : Move env handler f works ended =
          Move.works m (ran env handler f jobs laws c m v).0 after
            (pl.with (Runner.finishing after.message)) refl (c.returns (begin env m v))
            (pl.swaps (Runner.working m) (Runner.finishing after.message)) refl in
        let sixth : Move env handler f ended (between (after_one m v)) =
          Move.finishes after.message (pl.with Runner.idle) selecting
            (pl.swaps (Runner.finishing after.message) Runner.idle) refl in
        more first (more second (more third (more fourth (more fifth (more sixth done)))))

    -- One message fewer is waiting.
    shorter :
        (w v : env.World) (m : Msg p) (rest : List String) (raw : String)
        → split_last (left w) ≡ some (rest, raw)
        → left v ≡ rest
        → length (left w) ≡ suc (length (left (after_one m v)))
    shorter w v m rest raw last e = omega (
      arith,
      ap length (split_last-append (left w) last),
      length-append rest (raw ∷ []),
      ap length (settled-waiting env handler f jobs laws c m v ∙ e),
    )

    parsed :
        (w : env.World) (rest : List String) (raw : String)
        → split_last (left w) ≡ some (rest, raw)
        → All (Parses p) (left w)
        → All (Parses p) rest × Parses p raw
    parsed w rest raw last a =
        let both =
          All-append (Parses p) rest (raw ∷ [])
            (subst (All (Parses p)) (split_last-append (left w) last) a) in
        (both.0, both.1.0)

    all_messages :
        (n : ℕ) (w : env.World)
        → length (left w) ≡ n
        → All (Parses p) (left w)
        → (v : env.World) × Moves handler f (between w) (between v) × (left v ≡ [])
    all_messages zero w e a = elim (Option-cases (split_last (left w))) [
      | inl empty ↦ (w, done, split_last-none (left w) empty)
      | inr ((rest, raw), last) ↦
          let each = parsed w rest raw last a in
          let got = fetched env handler f jobs laws c w raw rest each.1 last in
          absurd (omega (arith, e, shorter w got.1 got.0 rest raw last got.3))
    ]
    all_messages (suc n) w e a = elim (Option-cases (split_last (left w))) [
      | inl empty ↦ (w, done, split_last-none (left w) empty)
      | inr ((rest, raw), last) ↦
          let each = parsed w rest raw last a in
          let got = fetched env handler f jobs laws c w raw rest each.1 last in
          let less = shorter w got.1 got.0 rest raw last got.3 in
          let others = all_messages n (after_one got.0 got.1) (omega (arith, e, less)) (
            subst (All (Parses p))
              (sym (settled-waiting env handler f jobs laws c got.0 got.1 ∙ got.3)) each.0) in
          (others.0, Moves-trans handler f (one_message w got.1 got.0 got.2) others.1, others.2)
    ]

  -- A worker in its loop that is active and not stopped, whose poll of Redis is at its start and
  -- that has an idle runner, can empty its queue by moves of its own, with its runners left as they
  -- were. The messages of the queue can be read, the store does what a dequeue asks for and keeps its
  -- contract, jobs return and leave the queue alone, and the clock and the log leave the jobs alone.
  pub empties_queue :
      (s : System env) (rs : List (Runner p))
      → s.loop ≡ Looping.selecting
      → s.poll ≡ Polling.checking
      → s.closed ≡ false
      → s.active ≡ true
      → All (Parses p) ((jobs s.world).queues f.queue)
      → Swap Runner.idle Runner.idle s.runners rs
      → (t : System env) × Moves handler f s t
        × (t.runners ≡ s.runners)
        × ((jobs t.world).queues f.queue ≡ [])
  empties_queue s rs l q o a each sw =
      let pl = place sw in
      let all = all_messages s l o a pl (length (left s.world)) s.world refl each in
      let same : record s { poll = Polling.checking; runners = pl.with Runner.idle } ≡ s =
        λ i. record s { poll = sym q i; runners = pl.whole i } in
      (
        record s { poll = Polling.checking; runners = pl.with Runner.idle; world = all.0 },
        subst
            (λ z.
              Moves handler f z (record s {
                poll = Polling.checking;
                runners = pl.with Runner.idle;
                world = all.0;
              }))
            same all.1,
        pl.whole,
        all.2,
      )
