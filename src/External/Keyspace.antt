-- ===== src/External/Keyspace.antt =====
-- A Redis database as its documentation shows it: five kinds of value under keys, and what each
-- command does to them. A missing list, set or hash is an empty one.
use go_workers.Prelude.{
  ℕ, suc, String, Bool, true, false, not, ◌&&◌, ◌||◌, Option, none, some, List, [], ◌∷◌, ◌++◌, map,
  reverse, length, str_eq, if◌then◌else◌,
}
use Prim.Native.String.{compare}
use text.Mathlib.Text.{is_lt}
use go_workers.Prelude.Int.{ℤ, pos, ◌+ℤ◌}
use go_workers.Effect.{redis_nil, Outcome, ok, err}

pub record Keyspace (Score : Type 0) : Type 0 where
  pub lists : String → List String
  -- members with their scores, in Redis's order
  pub zsets : String → List (Score × String)
  pub sets : String → List String
  pub hashes : String → List (String × String)
  pub counters : String → Option ℤ

abbrev pub at {ℓ} : {A : Type ℓ} → (String → A) → String → A → String → A
at f k v j = if str_eq k j then v else f j

-- The list without its last element, and that element.
abbrev pub split_last : List String → Option (List String × String)
split_last [] = none
split_last (x ∷ xs) = elim (split_last xs) [ none ↦ some ([], x) | some (ys, y) ↦ some (x ∷ ys, y) ]

-- The list without the last occurrence of a value; `none` if there is none.
abbrev pub remove_last : String → List String → Option (List String)
remove_last m [] = none
remove_last m (x ∷ xs) = elim (remove_last m xs) [
  | some ys ↦ some (x ∷ ys)
  | none ↦ if str_eq x m then some xs else none
]

abbrev pub contains : String → List String → Bool
contains m [] = false
contains m (x ∷ xs) = if str_eq x m then true else contains m xs

abbrev pub without : String → List String → List String
without m [] = []
without m (x ∷ xs) = let rest = without m xs in if str_eq x m then rest else x ∷ rest

-- go-redis writes an argument of a command as text: a number in decimal, `true` as 1.
pub data Argument : Type 0 where
  number : ℤ → Argument
  boolean : Bool → Argument
  words : String → Argument

abbrev pub format_argument : (ℤ → String) → Argument → String
format_argument format (number n) = format n
format_argument format (boolean true) = "1"
format_argument format (boolean false) = "0"
format_argument format (words s) = s

abbrev pub field : String → List (String × String) → Option String
field k [] = none
field k ((j, v) ∷ h) = if str_eq j k then some v else field k h

-- A counter that is missing counts from 0.
abbrev one_more : Option ℤ → ℤ
one_more none = pos 1
one_more (some n) = n +ℤ pos 1

module _ {Score : Type 0} where
  abbrev pub members : List (Score × String) → List String
  members = map (λ z. z.1)

  abbrev pub without_member : String → List (Score × String) → List (Score × String)
  without_member m [] = []
  without_member m ((s, x) ∷ zs) =
      let rest = without_member m zs in if str_eq x m then rest else (s, x) ∷ rest

  -- The first member whose score is not above the bound.
  abbrev pub first_due : (Score → Score → Bool) → Score → List (Score × String) → Option String
  first_due above max [] = none
  first_due above max ((s, x) ∷ zs) = if above s max then first_due above max zs else some x

  -- The commands.
  abbrev pub push : String → String → Keyspace Score → Outcome ℕ × Keyspace Score
  push k m d = (ok (suc (length (d.lists k))), record d { lists = at d.lists k (m ∷ d.lists k) })

  abbrev pub move : String → String → Keyspace Score → Outcome String × Keyspace Score
  move src dst d = elim (split_last (d.lists src)) [
    | none ↦ (err redis_nil, d)
    | some (rest, m) ↦ (
      ok m,
      let popped = at d.lists src rest in record d { lists = at popped dst (m ∷ popped dst) },
    )
  ]

  abbrev pub drop_last : String → String → Keyspace Score → Outcome ℕ × Keyspace Score
  drop_last k m d = elim (remove_last m (d.lists k)) [
    | none ↦ (ok 0, d)
    | some rest ↦ (ok 1, record d { lists = at d.lists k rest })
  ]

  abbrev pub items : String → Keyspace Score → Outcome (List String) × Keyspace Score
  items k d = (ok (d.lists k), d)

  abbrev pub count_items : String → Keyspace Score → Outcome ℕ × Keyspace Score
  count_items k d = (ok (length (d.lists k)), d)

  -- Scores ascend, and members of one score stand in the order of their bytes.
  abbrev pub insert_member :
      (Score → Score → Bool) → Score → String → List (Score × String) → List (Score × String)
  insert_member lt s m [] = (s, m) ∷ []
  insert_member lt s m ((t, x) ∷ zs) =
      if lt s t || (not (lt t s) && is_lt (compare m x))
      then (s, m) ∷ (t, x) ∷ zs
      else (t, x) ∷ insert_member lt s m zs

  abbrev pub add_member :
      (Score → Score → Bool) → String → Score → String → Keyspace Score → Outcome ℕ × Keyspace Score
  add_member lt k s m d =
      let zs = d.zsets k in
      (
        ok (if contains m (members zs) then 0 else 1),
        record d { zsets = at d.zsets k (insert_member lt s m (without_member m zs)) },
      )

  abbrev pub find_due :
      (Score → Score → Bool)
      → String
      → Score
      → Keyspace Score
      → Outcome (List String) × Keyspace Score
  find_due lt k max d = elim (first_due (λ s t. lt t s) max (d.zsets k)) [
    | none ↦ (ok [], d)
    | some m ↦ (ok (m ∷ []), d)
  ]

  abbrev pub drop_member : String → String → Keyspace Score → Outcome ℕ × Keyspace Score
  drop_member k m d =
      if contains m (members (d.zsets k))
      then (ok 1, record d { zsets = at d.zsets k (without_member m (d.zsets k)) })
      else (ok 0, d)

  abbrev pub count_members : String → Keyspace Score → Outcome ℕ × Keyspace Score
  count_members k d = (ok (length (d.zsets k)), d)

  abbrev pub all_members : String → Keyspace Score → Outcome (List String) × Keyspace Score
  all_members k d = (ok (members (d.zsets k)), d)

  abbrev pub set_add : String → String → Keyspace Score → Outcome ℕ × Keyspace Score
  set_add k m d =
      if contains m (d.sets k)
      then (ok 0, d)
      else (ok 1, record d { sets = at d.sets k (m ∷ d.sets k) })

  abbrev pub set_remove : String → String → Keyspace Score → Outcome ℕ × Keyspace Score
  set_remove k m d =
      if contains m (d.sets k)
      then (ok 1, record d { sets = at d.sets k (without m (d.sets k)) })
      else (ok 0, d)

  abbrev pub set_items : String → Keyspace Score → Outcome (List String) × Keyspace Score
  set_items k d = (ok (d.sets k), d)

  abbrev pub increment : String → Keyspace Score → Outcome ℤ × Keyspace Score
  increment k d =
      let n = one_more (d.counters k) in (ok n, record d { counters = at d.counters k (some n) })

  abbrev pub counter : (ℤ → String) → String → Keyspace Score → Outcome String × Keyspace Score
  counter format k d = elim (d.counters k) [
    | none ↦ (err redis_nil, d)
    | some n ↦ (ok (format n), d)
  ]

  -- The fields written last are found first.
  abbrev pub set_fields :
      (ℤ → String)
      → String
      → List (String × Argument)
      → Keyspace Score
      → Outcome (Unit {0}) × Keyspace Score
  set_fields format k fs d = (
    ok tt,
    record d {
      hashes =
          at d.hashes k (map (λ f. (f.0, format_argument format f.1)) (reverse fs) ++ d.hashes k);
    },
  )

  abbrev pub get_fields :
      String → List String → Keyspace Score → Outcome (List (Option String)) × Keyspace Score
  get_fields k fs d = (ok (map (λ f. field f (d.hashes k)) fs), d)

  abbrev pub delete : String → Keyspace Score → Outcome (Unit {0}) × Keyspace Score
  delete k d = (
    ok tt,
    record {
      lists = at d.lists k [];
      zsets = at d.zsets k [];
      sets = at d.sets k [];
      hashes = at d.hashes k [];
      counters = at d.counters k none;
    },
  )
