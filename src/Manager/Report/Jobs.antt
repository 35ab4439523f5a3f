-- ===== src/Manager/Report/Jobs.antt =====
-- The messages in progress of a queue, over all its workers (manager.go).
use mathlib.Core.List.{append-nil, append_assoc}
use go_workers.Prelude.{
  ◌≡◌, refl, sym, ap, ◌∙◌, String, true, false, List, [], ◌∷◌, ◌++◌, if◌then◌else◌, str_eq, eq_iff,
  arith, Bool-cases, inl, inr,
}
use go_workers.External.Platform.{Platform}
use go_workers.Msg.{Msg}
use go_workers.Job.{Env}
use go_workers.Worker.{Worker, worker_messages}
use go_workers.Manager.State.{Manager}
use go_workers.Manager.Report.{append_at, collect_messages, in_progress_messages}

-- The value of a key, empty if it is missing.
abbrev pub messages_of : {A : Type 0} → String → List (String × List A) → List A
messages_of q [] = []
messages_of q ((r, ms) ∷ rest) = if str_eq r q then ms else messages_of q rest

str_eq-meet : (r q k : String) → str_eq r q ≡ true → str_eq r k ≡ true → str_eq q k ≡ true
str_eq-meet r q k e d = ground (arith, eq_iff r q, eq_iff r k, eq_iff q k)

str_eq-part : (r q k : String) → str_eq r q ≡ true → str_eq r k ≡ false → str_eq q k ≡ false
str_eq-part r q k e d = ground (arith, eq_iff r q, eq_iff r k, eq_iff q k)

str_eq-apart : (r q k : String) → str_eq r q ≡ false → str_eq r k ≡ true → str_eq q k ≡ false
str_eq-apart r q k e d = ground (arith, eq_iff r q, eq_iff r k, eq_iff q k)

messages_of-append_at :
    {A : Type 0} (k : String) (ms : List A) (q : String) (res : List (String × List A))
    → messages_of k (append_at q ms res) ≡ messages_of k res ++ (if str_eq q k then ms else [])
unfolding append_at
messages_of-append_at k ms q [] = ground arith
messages_of-append_at k ms q ((r, ns) ∷ rest) = elim (Bool-cases (str_eq r q)) [
  | inl e ↦ elim (Bool-cases (str_eq r k)) [
    | inl d ↦ rw (e, d, str_eq-meet r q k e d) refl
    | inr d ↦ rw (e, d, str_eq-part r q k e d) (sym (append-nil (messages_of k rest)))
  ]
  | inr e ↦ elim (Bool-cases (str_eq r k)) [
    | inl d ↦ rw (e, d, str_eq-apart r q k e d) (sym (append-nil ns))
    | inr d ↦ rw (e, d) (messages_of-append_at k ms q rest)
  ]
]

module _ {p : Platform} (env : Env p) where
  -- The messages of every worker of the queue, one worker after the other.
  abbrev pub held_by : String → List (Worker env) → List (Msg p)
  held_by k [] = []
  held_by k (w ∷ ws) = (if str_eq w.queue k then worker_messages env w else []) ++ held_by k ws

  messages_of-collect :
      (k : String) (res : List (String × List (Msg p))) (ws : List (Worker env))
      → messages_of k (collect_messages env res ws) ≡ messages_of k res ++ held_by k ws
  unfolding collect_messages
  messages_of-collect k res [] = sym (append-nil (messages_of k res))
  messages_of-collect k res (w ∷ ws) =
      messages_of-collect k (append_at w.queue (worker_messages env w) res) ws
      ∙ ap (λ (ms : List (Msg p)). ms ++ held_by k ws)
          (messages_of-append_at k (worker_messages env w) w.queue res)
      ∙ append_assoc (messages_of k res) _ (held_by k ws)

  -- A manager reports for each queue the messages that its workers hold, of all the workers with
  -- that queue, each with all of its runners, and nothing else.
  in_progress_messages_lem :
      (k : String) (m : Manager env)
      → messages_of k (in_progress_messages env m) ≡ held_by k m.workers
  unfolding in_progress_messages
  in_progress_messages_lem k m = messages_of-collect k [] m.workers
