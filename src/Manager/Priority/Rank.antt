-- ===== src/Manager/Priority/Rank.antt =====
-- Who is active: the rank of a manager by its priority (activateManagerByPriority of manager.go).
use go_workers.Prelude.{
  ℕ, zero, suc, ◌≤◌, ◌<◌, ◌≡◌, refl, ap, ◌∙◌, String, Bool, true, false, not, ◌&&◌, List, [], ◌∷◌,
  All, length, if◌then◌else◌, str_eq, arith, inl, inr, Bool-cases,
}
use go_workers.Prelude.Int.{ℤ, pos_part, ltb_ℤ, leb_ℤ}
use go_workers.Effect.{ok, panic, Io}
use go_workers.Storage.Types.{Store, Heartbeat}
use go_workers.Manager.Priority.{among, index_out_of_range, activate_manager_by_priority}

abbrev pub count : (Heartbeat → Bool) → List Heartbeat → ℕ
count f [] = 0
count f (h ∷ hs) = let rest = count f hs in if f h then suc rest else rest

abbrev pub above : ℤ → Heartbeat → Bool
above p h = ltb_ℤ p h.manager_priority

abbrev pub called : String → Heartbeat → Bool
called identity h = str_eq h.identity identity

abbrev pub called_above : String → ℤ → Heartbeat → Bool
called_above identity p h = called identity h && above p h

-- Another manager's heartbeat of that priority or a higher one.
abbrev pub rival : String → ℤ → Heartbeat → Bool
rival identity p h = not (called identity h) && leb_ℤ p h.manager_priority

abbrev pub own : String → ℤ → Heartbeat → Bool
own identity p h = called identity h && leb_ℤ p h.manager_priority

abbrev pub Descending : List Heartbeat → Type 0
Descending [] = Unit
Descending (h ∷ hs) =
    All (λ k. leb_ℤ k.manager_priority h.manager_priority ≡ true) hs × Descending hs

-- What sort.Slice with the program's `less` promises: the same heartbeats, by descending priority.
pub record Sorts (sort : List Heartbeat → List Heartbeat) : Type 0 where
  pub same : (f : Heartbeat → Bool) (hs : List Heartbeat) → count f (sort hs) ≡ count f hs
  pub descending : (hs : List Heartbeat) → Descending (sort hs)

count-length : (hs : List Heartbeat) → count (λ h. true) hs ≡ length hs
count-length [] = refl
count-length (h ∷ hs) = ap suc (count-length hs)

none_above :
    (p : ℤ) (h : Heartbeat) (hs : List Heartbeat)
    → All (λ k. leb_ℤ k.manager_priority h.manager_priority ≡ true) hs
    → above p h ≡ false
    → count (above p) hs ≡ 0
none_above p h [] a e = refl
none_above p h (k ∷ hs) (a, b) e = ground (arith, none_above p h hs b e)

not_below :
    (identity : String) (p : ℤ) (h : Heartbeat) (hs : List Heartbeat)
    → All (λ k. leb_ℤ k.manager_priority h.manager_priority ≡ true) hs
    → leb_ℤ p h.manager_priority ≡ false
    → count (own identity p) hs ≡ 0
not_below identity p h [] a e = refl
not_below identity p h (k ∷ hs) (a, b) e = ground (arith, not_below identity p h hs b e)

outranked-sorted :
    (n : ℕ) (hs : List Heartbeat) (identity : String) (p : ℤ)
    → Descending hs
    → count (called_above identity p) hs ≡ 0
    → n ≤ count (above p) hs
    → among n hs identity ≡ ok false
unfolding among
outranked-sorted zero hs identity p d low h = refl
outranked-sorted (suc n) [] identity p d low h = absurd (omega arith)
outranked-sorted (suc n) (k ∷ hs) identity p (a, d) none h = elim (Bool-cases (above p k)) [
  | inl e ↦ ground (arith, outranked-sorted n hs identity p d)
  | inr e ↦ absurd (ground (arith, none_above p k hs a e))
]

leading-sorted :
    (n : ℕ) (hs : List Heartbeat) (identity : String) (p : ℤ)
    → Descending hs
    → 1 ≤ count (own identity p) hs
    → count (rival identity p) hs < n
    → among n hs identity ≡ ok true
unfolding among
leading-sorted zero hs identity p d c h = absurd (omega arith)
leading-sorted (suc n) [] identity p d c h = absurd (omega arith)
leading-sorted (suc n) (k ∷ hs) identity p (a, d) c h =
    elim (Bool-cases (leb_ℤ p k.manager_priority)) [
      | inl e ↦ ground (arith, leading-sorted n hs identity p d)
      | inr e ↦ ground (arith, not_below identity p k hs a e)
    ]

absent-sorted :
    (n : ℕ) (hs : List Heartbeat) (identity : String)
    → count (called identity) hs ≡ 0
    → count (λ h. true) hs < n
    → among n hs identity ≡ panic index_out_of_range
unfolding among
absent-sorted zero hs identity c h = absurd (omega arith)
absent-sorted (suc n) [] identity c h = refl
absent-sorted (suc n) (k ∷ hs) identity c h = ground (arith, absent-sorted n hs identity)

module _ {Score W : Type 0} (store : Store Score W) {sort : List Heartbeat → List Heartbeat}
    (s : Sorts sort) (activate : Bool → Io W (Unit {0})) (total : ℤ) (beat : Heartbeat) (w v : W)
    (h : Heartbeat) (hs : List Heartbeat)
    (read : store.get_all_heartbeats w ≡ (ok (h ∷ hs), v)) where
  abbrev pub identity : String
  identity = beat.identity

  abbrev n : ℕ
  n = pos_part total

  decided :
      (b : Bool)
      → among n (sort (h ∷ hs)) identity ≡ ok b
      → activate_manager_by_priority store sort activate total beat w ≡ activate b v
  unfolding activate_manager_by_priority
  decided b e = ground (arith, read, e)

  -- Where there are heartbeats, and they are sorted by descending priority, a manager is made
  -- inactive if as many heartbeats as there may be active managers have a priority above `p`, and
  -- none of its own has.
  pub outranked_inactive :
      (p : ℤ)
      → count (called_above identity p) (h ∷ hs) ≡ 0
      → pos_part total ≤ count (above p) (h ∷ hs)
      → activate_manager_by_priority store sort activate total beat w ≡ activate false v
  outranked_inactive p a b =
      let e = s.same (called_above identity p) (h ∷ hs) ∙ a in
      let k = s.same (above p) (h ∷ hs) in
      decided false (
        outranked-sorted n (sort (h ∷ hs)) identity p (s.descending (h ∷ hs)) e
          (omega (arith, k, b)))

  -- Where there are heartbeats, and they are sorted by descending priority, a manager is made
  -- active if it has a heartbeat of priority `p` or more, and fewer heartbeats of other managers
  -- than there may be active ones have.
  pub leading_active :
      (p : ℤ)
      → 1 ≤ count (own identity p) (h ∷ hs)
      → count (rival identity p) (h ∷ hs) < pos_part total
      → activate_manager_by_priority store sort activate total beat w ≡ activate true v
  leading_active p a b =
      let j = s.same (own identity p) (h ∷ hs) in
      let k = s.same (rival identity p) (h ∷ hs) in
      decided true (
        leading-sorted n (sort (h ∷ hs)) identity p (s.descending (h ∷ hs)) (omega (arith, j, a))
          (omega (arith, k, b)))

  -- If there are heartbeats, but none of the manager and fewer than there may be active managers,
  -- the hook panics with an index out of range.
  absent_panics :
      count (called identity) (h ∷ hs) ≡ 0
      → length (h ∷ hs) < pos_part total
      → activate_manager_by_priority store sort activate total beat w
        ≡ (panic index_out_of_range, v)
  unfolding activate_manager_by_priority
  absent_panics a b =
      let j = s.same (called identity) (h ∷ hs) ∙ a in
      let k = s.same (λ x. true) (h ∷ hs) in
      let e =
        absent-sorted n (sort (h ∷ hs)) identity j (omega (arith, k, b, count-length (h ∷ hs))) in
      ground (arith, read, e)
