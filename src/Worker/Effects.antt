-- ===== src/Worker/Effects.antt =====
-- What the calls of a fetcher and a runner do to the queue in progress (fetcher.go, task_runner.go).
pub mod Fetched
use package.text.Mathlib.TextLemmas.{append_cancel_left, append-nil, length-append}
use Prim.Native.String.{count as size}
use go_workers.Prelude.{
  ℕ, zero, suc, ◌+◌, ◌≤◌, ◌≡◌, ◌≢◌, refl, sym, ap, ◌∙◌, String, ◌<>◌, Bool, true, false, Option,
  none, some, List, [], ◌∷◌, ◌++◌, if◌then◌else◌, arith, Option-cases, inl, inr, ◌⊎◌, eq_iff,
  eq_refl, str_eq,
}
use go_workers.Effect.{Error, text, no_message, Outcome, ok, err, panic, spin, Acts, recovered}
use go_workers.External.Platform.{Platform}
use go_workers.External.Keyspace.{at, split_last, remove_last}
use go_workers.Storage.Laws.{StoreLaws}
use go_workers.Storage.Moved.{pop_none, pop_some}
use go_workers.Storage.Spec.{Jobs, acknowledged, listed}
use go_workers.Msg.{Msg, new_msg, new_data, original_json}
use go_workers.Job.{Env, Frame, JobFunc}
use go_workers.Worker.{
  SimpleFetcher, in_progress_queue, send_message, try_fetch_message, acknowledge,
  inprogress_messages, begin, process_message, logged,
}
use go_workers.Worker.Held.{deq, fetch_value, fetch_failed, send_some}
use go_workers.Worker.System.Counts.{one, count, count-remove_last-some}

pub queue-ne-in_progress : (f : SimpleFetcher) → f.queue ≢ in_progress_queue f
unfolding in_progress_queue
queue-ne-in_progress f e =
    let h : "" ≡ ":" <> (f.process_id <> ":inprogress") =
      append_cancel_left f.queue "" (":" <> (f.process_id <> ":inprogress"))
        (append-nil f.queue ∙ e) in
    absurd (omega (arith, ap size h ∙ length-append ":" (f.process_id <> ":inprogress")))

acknowledged-count :
    {Score : Type 0} (q m x : String) (j : Jobs Score)
    → count x (j.queues q) ≤ count x ((acknowledged q m j).1.queues q) + one x m
acknowledged-count q m x j = elim (Option-cases (remove_last m (j.queues q))) [
  | inl n ↦ rw (n, acknowledged) (omega arith)
  | inr (rest, n) ↦
      rw (n, acknowledged, eq_refl q) (omega (arith, count-remove_last-some x m (j.queues q) n))
]

-- The queue in progress of the fetcher, in a world.
module _ {p : Platform} (env : Env p) (f : SimpleFetcher) (jobs : env.World → Jobs p.Float) where
  abbrev pub in_progress : env.World → List String
  in_progress w = (jobs w).queues (in_progress_queue f)

  abbrev listing : env.World → Outcome (List String) × env.World
  listing w = env.store.list_messages (in_progress_queue f) w

  list_ok :
      (w : env.World) (ms : List String)
      → (listing w).0 ≡ ok ms
      → inprogress_messages env f w ≡ (ok ms, (listing w).1)
  unfolding inprogress_messages
  list_ok w ms e = ground arith

  list_err :
      (w : env.World) (x : Error)
      → (listing w).0 ≡ err x
      → inprogress_messages env f w ≡ (ok [], env.println ("ERR: " ∷ text x ∷ []) (listing w).1)
  unfolding inprogress_messages
  list_err w x e = ground arith

  send_none_of :
      (raw : String) (w : env.World) (r : Outcome p.Json)
      → p.new_json raw ≡ r
      → (send_message env raw w).0 ≡ ok none
      → (words : List String) × ((send_message env raw w).1 ≡ env.println words w)
  unfolding send_message new_msg new_data
  send_none_of raw w (ok j) h o = absurd (ground arith)
  send_none_of raw w (err e) h o =
      ("ERR: Couldn't create message from" ∷ raw ∷ ":" ∷ text e ∷ [], ground arith)
  send_none_of raw w (panic q) h o = absurd (ground arith)
  send_none_of raw w spin h o = absurd (ground arith)

  pub send_none :
      (raw : String) (w : env.World)
      → (send_message env raw w).0 ≡ ok none
      → (words : List String) × ((send_message env raw w).1 ≡ env.println words w)
  send_none raw w o = send_none_of raw w (p.new_json raw) refl o

  abbrev pub acknowledging : Msg p → env.World → Outcome (Unit {0}) × env.World
  acknowledging m w = env.store.acknowledge_message (in_progress_queue f) m.original w

  pub acknowledge_world :
      (m : Msg p) (w : env.World)
      → (acknowledging m w).0 ≢ spin
      → (acknowledge env f m w).1 ≡ (acknowledging m w).1
  unfolding acknowledge original_json
  acknowledge_world m w h = ground arith

  pub process_frame :
      (handler : JobFunc env) (fr : Frame env) → (process_message env handler fr).1 ≡ (handler fr).1
  unfolding process_message
  process_frame handler fr = ground arith

  module _ (laws : StoreLaws p.ltf env.store jobs)
      (quiet : (words : List String) (w : env.World) → jobs (env.println words w) ≡ jobs w) where
    pub same : {w v : env.World} → jobs v ≡ jobs w → in_progress v ≡ in_progress w
    same e = ap (λ (j : Jobs p.Float). j.queues (in_progress_queue f)) e

    ok_list :
        {ms ns : List String} {w v : env.World}
        → ◌≡◌ {A = Outcome (List String) × env.World} (ok ms, w) (ok ns, v)
        → ms ≡ ns
    ok_list q = cc (ap (λ z. z.0) q)

    unlisted :
        (w v : env.World) (ms : List String) (x : String) (e : Error)
        → ◌≡◌ {A = Outcome (List String) × env.World}
            (ok ms, v)
            (ok [], env.println ("ERR: " ∷ text e ∷ []) (listing w).1)
        → jobs (listing w).1 ≡ jobs w
        → (count x ms ≤ count x (in_progress v)) × (in_progress v ≡ in_progress w)
    unlisted w v ms x e q k =
        let kept = same (ap (λ z. jobs z.1) q ∙ quiet _ _ ∙ k) in
        (omega (arith, ap (count x) (ok_list q)), kept)

    -- The messages that are listed are in the queue in progress, which stays as it is.
    pub listed_held :
        (w v : env.World) (ms : List String) (x : String)
        → inprogress_messages env f w ≡ (ok ms, v)
        → (count x ms ≤ count x (in_progress v)) × (in_progress v ≡ in_progress w)
    listed_held w v ms x h = elim (laws.list (in_progress_queue f) w) [
      | inl (o, k) ↦
          let q = sym h ∙ list_ok w _ o in
          let kept = same (ap (λ z. jobs z.1) q ∙ k) in
          (omega (arith, ap (count x) (ok_list q), ap (count x) kept), kept)
      | inr (e, o, _, inl k) ↦ unlisted w v ms x e (sym h ∙ list_err w e o) k
      | inr (e, o, _, inr k) ↦ unlisted w v ms x e (sym h ∙ list_err w e o) k
    ]

    pub not_spin :
        (m : Msg p) (w : env.World)
        → (acknowledged (in_progress_queue f) m.original (jobs w)).0 ≢ spin
    not_spin m w h = elim (Option-cases (remove_last m.original (in_progress w))) [
      | inl n ↦ ground (arith, n)
      | inr (rest, n) ↦ ground (arith, n)
    ]

    removed :
        (m : Msg p) (w : env.World) (x : String)
        → jobs (acknowledging m w).1 ≡ (acknowledged (in_progress_queue f) m.original (jobs w)).1
        → count x (in_progress w) ≤ count x (in_progress (acknowledging m w).1) + one x m.original
    removed m w x v = omega (
      arith,
      acknowledged-count (in_progress_queue f) m.original x (jobs w),
      ap (λ (j : Jobs p.Float). count x (j.queues (in_progress_queue f))) v,
    )

    -- Acknowledging takes at most one message out, the one that is acknowledged.
    pub acknowledge_takes :
        (m : Msg p) (w : env.World) (x : String)
        → count x (in_progress w)
          ≤ count x (in_progress (acknowledge env f m w).1) + one x m.original
    acknowledge_takes m w x = elim (laws.acknowledge (in_progress_queue f) m.original w) [
      | inl (o, v) ↦ rw (acknowledge_world m w (λ h. not_spin m w (sym o ∙ h))) (removed m w x v)
      | inr (e, o, _, inl v) ↦
          rw (acknowledge_world m w (λ h. cc (o, h))) (omega (arith, ap (count x) (same v)))
      | inr (e, o, _, inr v) ↦ rw (acknowledge_world m w (λ h. cc (o, h))) (removed m w x v)
    ]
