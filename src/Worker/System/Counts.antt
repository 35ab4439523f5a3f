-- ===== src/Worker/System/Counts.antt =====
-- How often a text is with the goroutines of a worker, and in a list.
use go_workers.Prelude.{
  ℕ, ◌+◌, ◌≡◌, String, some, List, [], ◌∷◌, str_eq, if◌then◌else◌, arith, Option-cases, inl, inr,
  eq_iff,
}
use go_workers.External.Platform.{Platform}
use go_workers.External.Keyspace.{remove_last}
use go_workers.Job.{Env}
use go_workers.Worker.System.{Runner, Fetching, Polling, System, Swap}

abbrev pub one : String → String → ℕ
one x y = if str_eq y x then 1 else 0

abbrev pub count : String → List String → ℕ
count x [] = 0
count x (y ∷ ys) = one x y + count x ys

pub count-remove_last-some :
    (x m : String) (ys : List String) {rest : List String}
    → remove_last m ys ≡ some rest
    → count x ys ≡ one x m + count x rest
count-remove_last-some x m [] e = cc
count-remove_last-some x m (y ∷ ys) e = elim (Option-cases (remove_last m ys)) [
  | inl n ↦ ground (arith, eq_iff y m)
  | inr (zs, n) ↦ ground (arith, count-remove_last-some x m ys n)
]

module _ {p : Platform} (x : String) where
  abbrev pub runner_weight : Runner p → ℕ
  runner_weight (Runner.working m) = one x m.original
  runner_weight (Runner.finishing m) = one x m.original
  runner_weight _ = 0

  abbrev pub runners_weight : List (Runner p) → ℕ
  runners_weight [] = 0
  runners_weight (r ∷ rs) = runner_weight r + runners_weight rs

  abbrev pub fetch_weight : Fetching p → ℕ
  fetch_weight (Fetching.old ms) = count x ms
  fetch_weight (Fetching.old_sending m ms) = one x m.original + count x ms
  fetch_weight _ = 0

  abbrev pub poll_weight : Polling p → ℕ
  poll_weight (Polling.sending m) = one x m.original
  poll_weight _ = 0

  pub Swap-weight :
      {a b : Runner p} {rs rs' : List (Runner p)}
      → Swap a b rs rs'
      → runners_weight rs' + runner_weight a ≡ runners_weight rs + runner_weight b
  Swap-weight Swap.here = omega arith
  Swap-weight (Swap.there w) = omega (arith, Swap-weight w)

  -- How many of the messages that the worker holds have the text `x`: those of an earlier run that
  -- it still has to send, one that it fetched, and those of its runners.
  abbrev pub held : {env : Env p} → System env → ℕ
  held s = fetch_weight s.fetch + poll_weight s.poll + runners_weight s.runners
