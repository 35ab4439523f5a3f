-- ===== src/Storage/Moved.antt =====
-- Messages that moved from one queue to another, in the order in which RequeueMessagesFromInProgressQueue
-- of storage/redis.go takes them.
use mathlib.Core.List.{append-nil, append_assoc}
use go_workers.Prelude.{
  String, ◌≡◌, ◌≢◌, refl, ap, sym, ◌∙◌, inl, inr, none, some, List, [], ◌∷◌, ◌++◌, eq_iff, eq_refl,
  arith, Option-cases,
}
use go_workers.Effect.{Error, ok, err}
use go_workers.External.Keyspace.{at, split_last}
use go_workers.Storage.Spec.{Jobs, pop_oldest}

pub split_last-none : (xs : List String) → split_last xs ≡ none → xs ≡ []
split_last-none [] e = refl
split_last-none (x ∷ xs) e = ground arith

pub split_last-append :
    (xs : List String) {ys : List String} {y : String}
    → split_last xs ≡ some (ys, y)
    → xs ≡ ys ++ y ∷ []
split_last-append [] e = cc
split_last-append (x ∷ xs) e = elim (Option-cases (split_last xs)) [
  | inl n ↦ ground (arith, split_last-none xs n)
  | inr ((zs, z), n) ↦ ground (arith, split_last-append xs n)
]

-- Messages from the back of one queue went to the front of another, in their order.
pub record Moved {Score : Type 0} (from to : String) (j k : Jobs Score) : Type 0 where
  pub kept : List String
  pub gone : List String
  pub before : j.queues from ≡ kept ++ gone
  pub after : k.queues from ≡ kept
  pub arrived : k.queues to ≡ gone ++ j.queues to
  pub others : (q : String) → q ≢ from → q ≢ to → k.queues q ≡ j.queues q

module _ {Score : Type 0} where
  -- The jobs after one message has moved.
  abbrev pub popped : (from to : String) → Jobs Score → List String → String → Jobs Score
  popped from to j rest m =
      let left = at j.queues from rest in record j { queues = at left to (m ∷ left to) }

module _ {Score : Type 0} {from to : String} where
  unfoldable pub Moved-refl : (j : Jobs Score) → Moved from to j j
  Moved-refl j = record {
    kept = j.queues from;
    gone = [];
    before = sym (append-nil (j.queues from));
    after = refl;
    arrived = refl;
    others = λ q _ _. refl;
  }

  unfoldable pub Moved-trans :
      {j k l : Jobs Score} → Moved from to j k → Moved from to k l → Moved from to j l
  Moved-trans {j} m n = record {
    kept = n.kept;
    gone = n.gone ++ m.gone;
    before =
        m.before
        ∙ ap (λ (z : List String). z ++ m.gone) (sym m.after ∙ n.before)
        ∙ append_assoc n.kept n.gone m.gone;
    after = n.after;
    arrived =
        n.arrived ∙ ap (◌++◌ n.gone) m.arrived ∙ sym (append_assoc n.gone m.gone (j.queues to));
    others = λ q a b. n.others q a b ∙ m.others q a b;
  }

  -- What one message that moves leaves behind, brings, and does not touch.
  pub left-popped :
      (j : Jobs Score) (rest : List String) (m : String)
      → from ≢ to
      → (popped from to j rest m).queues from ≡ rest
  left-popped j rest m apart = ground (arith, eq_iff to from, eq_refl from)

  pub arrived-popped :
      (j : Jobs Score) (rest : List String) (m : String)
      → from ≢ to
      → (popped from to j rest m).queues to ≡ m ∷ j.queues to
  arrived-popped j rest m apart = ground (arith, eq_iff from to, eq_refl to)

  pub others-popped :
      (j : Jobs Score) (rest : List String) (m q : String)
      → q ≢ from
      → q ≢ to
      → (popped from to j rest m).queues q ≡ j.queues q
  others-popped j rest m q a b = ground (arith, eq_iff from q, eq_iff to q)

  unfoldable pub Moved-one :
      (j : Jobs Score) (rest : List String) (m : String)
      → from ≢ to
      → j.queues from ≡ rest ++ m ∷ []
      → Moved from to j (popped from to j rest m)
  Moved-one j rest m apart e = record {
    kept = rest;
    gone = m ∷ [];
    before = e;
    after = left-popped j rest m apart;
    arrived = arrived-popped j rest m apart;
    others = others-popped j rest m;
  }

module _ {Score : Type 0} (from to : String) where
  pub pop_none :
      (j : Jobs Score) (e : Error)
      → split_last (j.queues from) ≡ none
      → pop_oldest e from to j ≡ (err e, j)
  pop_none j e n = rw (n, pop_oldest)

  pub pop_some :
      (j : Jobs Score) (e : Error) {rest : List String} {m : String}
      → split_last (j.queues from) ≡ some (rest, m)
      → pop_oldest e from to j ≡ (ok m, popped from to j rest m)
  pop_some j e n = rw (n, pop_oldest)
