-- ===== src/Tests/RankTests.antt =====
-- The theorems on activateManagerByPriority of manager.go at two managers, of which one may be active.
use go_workers.Prelude.{
  inl, inr, All, Bool-cases, if◌then◌else◌, ◌≡◌, refl, Bool, true, false, List, [], ◌∷◌, arith,
}
use go_workers.Prelude.Int.{ℤ, pos, leb_ℤ}
use go_workers.Effect.{ok, Io}
use go_workers.Storage.Types.{Store, Heartbeat}
use go_workers.Storage.Instance.{redis_store}
use go_workers.Manager.Priority.{activate_manager_by_priority}
use go_workers.Manager.Priority.Rank.{count, Descending, Sorts, outranked_inactive, leading_active}
use go_workers.Tests.Instances.{Memory}
use go_workers.Tests.StorageTests.{stored, busy_memory}
use go_workers.Tests.ManagerTests.{beat_of}

abbrev put : Heartbeat → List Heartbeat → List Heartbeat
put h [] = h ∷ []
put h (k ∷ ks) =
    let rest = put h ks in
    if leb_ℤ k.manager_priority h.manager_priority then h ∷ k ∷ ks else k ∷ rest

abbrev sorted : List Heartbeat → List Heartbeat
sorted [] = []
sorted (h ∷ hs) = put h (sorted hs)

count-put :
    (f : Heartbeat → Bool) (h : Heartbeat) (hs : List Heartbeat)
    → count f (put h hs) ≡ count f (h ∷ hs)
count-put f h [] = refl
count-put f h (k ∷ ks) = ground (arith, count-put f h ks)

count-sorted : (f : Heartbeat → Bool) (hs : List Heartbeat) → count f (sorted hs) ≡ count f hs
count-sorted f [] = refl
count-sorted f (h ∷ hs) = ground (arith, count-put f h (sorted hs), count-sorted f hs)

abbrev NotOver : ℤ → List Heartbeat → Type 0
NotOver p hs = All (λ k. leb_ℤ k.manager_priority p ≡ true) hs

put-NotOver :
    (p : ℤ) (h : Heartbeat) (hs : List Heartbeat)
    → leb_ℤ h.manager_priority p ≡ true
    → NotOver p hs
    → NotOver p (put h hs)
put-NotOver p h [] a b = (a, tt)
put-NotOver p h (k ∷ ks) a (b, c) =
    elim (Bool-cases (leb_ℤ k.manager_priority h.manager_priority)) [
      | inl e ↦ rw e (a, (b, c))
      | inr e ↦ rw e (b, put-NotOver p h ks a c)
    ]

NotOver-trans : (p q : ℤ) (hs : List Heartbeat) → leb_ℤ p q ≡ true → NotOver p hs → NotOver q hs
NotOver-trans p q [] a b = tt
NotOver-trans p q (k ∷ ks) a (b, c) = (ground (arith, a, b), NotOver-trans p q ks a c)

put-Descending : (h : Heartbeat) (hs : List Heartbeat) → Descending hs → Descending (put h hs)
put-Descending h [] d = (tt, tt)
put-Descending h (k ∷ ks) (a, d) = elim (Bool-cases (leb_ℤ k.manager_priority h.manager_priority)) [
  | inl e ↦ rw e ((e, NotOver-trans k.manager_priority h.manager_priority ks e a), (a, d))
  | inr e ↦ rw e (put-NotOver k.manager_priority h ks (ground (arith, e)) a, put-Descending h ks d)
]

sorted-Descending : (hs : List Heartbeat) → Descending (sorted hs)
sorted-Descending [] = tt
sorted-Descending (h ∷ hs) = put-Descending h (sorted hs) (sorted-Descending hs)

sorted-Sorts : Sorts sorted
sorted-Sorts = record { same = count-sorted; descending = sorted-Descending }

abbrev high : Heartbeat
high = beat_of "a" (pos 3) (pos 10)

abbrev low : Heartbeat
low = beat_of "b" (pos 1) (pos 90)

abbrev beating : Store ℤ Memory
beating = record (redis_store stored) { get_all_heartbeats = λ w. (ok (low ∷ high ∷ []), w) }

abbrev note : Bool → Io Memory (Unit {0})
note b w = (ok tt, record w { lists = λ k. if b then "active" ∷ [] else [] })

outranked_inactive_example :
    activate_manager_by_priority beating sorted note (pos 1) low busy_memory
    ≡ note false busy_memory
outranked_inactive_example =
    outranked_inactive beating sorted-Sorts note (pos 1) low busy_memory busy_memory low (high ∷ [])
      refl (pos 1) refl (omega arith)

leading_active_example :
    activate_manager_by_priority beating sorted note (pos 1) high busy_memory
    ≡ note true busy_memory
leading_active_example =
    leading_active beating sorted-Sorts note (pos 1) high busy_memory busy_memory low (high ∷ [])
      refl (pos 3) (omega arith) (omega arith)
