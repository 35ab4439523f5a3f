-- ===== src/Effect/Calls.antt =====
-- How a call ends: storage/storage.go (`StorageError`) and the `recover` of the middlewares.
use go_workers.Prelude.{String}

-- `redis_nil` is redis.Nil of go-redis, `no_message` is storage.NoMessage, and any other error is
-- known by its text.
pub data Error : Type 0 where
  redis_nil : Error
  no_message : Error
  error : String → Error

-- fmt.Sprintf("%v", err)
unfoldable pub text : Error → String
text redis_nil = "redis: nil"
text no_message = "no message"
text (error s) = s

-- A panic carries an error, or another value, known by its text.
pub data Panic : Type 0 where
  of_error : Error → Panic
  of_value : String → Panic

-- `if err, ok = e.(error); !ok { err = fmt.Errorf("%v", e) }`
unfoldable pub recovered : Panic → Error
recovered (of_error e) = e
recovered (of_value s) = error s

-- `spin` is a loop that has used up the fuel of the model: it has not returned.
pub data Outcome {ℓ} (A : Type ℓ) : Type ℓ where
  ok : A → Outcome A
  err : Error → Outcome A
  panic : Panic → Outcome A
  spin : Outcome A

-- A call over a world `W` that it reads and changes.
abbrev pub Io {ℓ} : Type 0 → Type ℓ → Type ℓ
Io W A = W → Outcome A × W

module _ {ℓ} {W : Type 0} {A : Type ℓ} where
  abbrev pub pure : A → Io W A
  pure a w = (ok a, w)

  abbrev pub fail : Error → Io W A
  fail e w = (err e, w)

  abbrev pub throw : Panic → Io W A
  throw p w = (panic p, w)

  -- A loop out of fuel.
  abbrev pub unfinished : Io W A
  unfinished w = (spin, w)

infixl 5 ◌>>=◌ ◌>>◌
-- `x, err := m(); if err != nil { return err }; …`
abbrev pub ◌>>=◌ {ℓ κ} : {W : Type 0} {A : Type ℓ} {B : Type κ} → Io W A → (A → Io W B) → Io W B
◌>>=◌ m f w =
    let (r, w') = m w in
    elim r [ ok a ↦ f a w' | err e ↦ (err e, w') | panic p ↦ (panic p, w') | spin ↦ (spin, w') ]

abbrev pub ◌>>◌ {ℓ κ} : {W : Type 0} {A : Type ℓ} {B : Type κ} → Io W A → Io W B → Io W B
m >> k = m >>= λ _. k

-- What a caller that looks at `err` itself sees: the value, or the error.
pub data Seen {ℓ} (A : Type ℓ) : Type ℓ where
  value : A → Seen A
  failed : Error → Seen A

abbrev pub try {ℓ} : {W : Type 0} {A : Type ℓ} → Io W A → Io W (Seen A)
try m w =
    let (r, w') = m w in
    elim r [
      | ok a ↦ (ok (value a), w')
      | err e ↦ (ok (failed e), w')
      | panic p ↦ (panic p, w')
      | spin ↦ (spin, w')
    ]

-- A deferred `recover`: `handler` runs on the error of a panic, in the world that it left.
abbrev pub recover {ℓ} : {W : Type 0} {A : Type ℓ} → Io W A → (Error → Io W A) → Io W A
recover m handler w =
    let (r, w') = m w in
    elim r [
      | ok a ↦ (ok a, w')
      | err e ↦ (err e, w')
      | panic p ↦ handler (recovered p) w'
      | spin ↦ (spin, w')
    ]

-- `if err = m(); err != nil { … }`: `handler` runs on an error that was returned.
abbrev pub on_error {ℓ} : {W : Type 0} {A : Type ℓ} → Io W A → (Error → Io W A) → Io W A
on_error m handler w =
    let (r, w') = m w in
    elim r [
      | ok a ↦ (ok a, w')
      | err e ↦ handler e w'
      | panic p ↦ (panic p, w')
      | spin ↦ (spin, w')
    ]

-- A computation that touches no world, as a call.
abbrev pub lift {ℓ} : {W : Type 0} {A : Type ℓ} → Outcome A → Io W A
lift r w = (r, w)
