-- ===== src/Random.antt =====
-- heartbeat.go, producer.go, task_runner.go: the identifiers that are drawn at random.
pub mod Sequences
use Prim.Native.Char.{Char}
use Prim.Native.String
use go_workers.Prelude.{
  ℕ, zero, suc, ◌+◌, ◌<◌, ◌≡◌, refl, ap, sym, ◌∙◌, String, Option, none, some, List, arith,
}
use go_workers.Effect.{
  Error, error, of_error, Outcome, ok, err, panic, spin, Io, pure, throw, ◌>>=◌, ◌>>◌,
}
use go_workers.External.Platform.{Platform}
use go_workers.Worker.{TaskRunner}

-- crypto/rand.Read of this many bytes, encoding/hex, and math/rand.Intn.
pub record Randomness (W : Type 0) : Type 0 where
  pub read : ℕ → Io W (List ℕ)
  pub hex : List ℕ → String
  pub intn : ℕ → W → ℕ × W

abbrev pub alpha_numeric_runes : String
alpha_numeric_runes = "abcdefghijklmnopqrstuvwxyz1234567890"

abbrev pub rune_count : String → ℕ
rune_count String.[] = 0
rune_count (String.◌∷◌ c s) = suc (rune_count s)

abbrev pub rune_at : String → ℕ → Option Char
rune_at String.[] n = none
rune_at (String.◌∷◌ c s) zero = some c
rune_at (String.◌∷◌ c s) (suc n) = rune_at s n

module _ {W : Type 0} (random : Randomness W) where
  unfoldable pub generate_process_nonce : Io W String
  generate_process_nonce = do bytes ← random.read 12; pure (random.hex bytes)

  -- Without random bytes the identifier is empty.
  unfoldable pub generate_jid : W → String × W
  generate_jid w = elim (random.read 12 w).0 [
    | ok bytes ↦ (random.hex bytes, (random.read 12 w).1)
    | err e ↦ ("", (random.read 12 w).1)
    | panic q ↦ ("", (random.read 12 w).1)
    | spin ↦ ("", (random.read 12 w).1)
  ]

  unfoldable pub rune : Option Char → Io W Char
  rune none = throw (of_error (error "runtime error: index out of range"))
  rune (some c) = pure c

  unfoldable pub rand_seq : ℕ → Io W String
  unfolding rune
  rand_seq zero w = (ok "", w)
  rand_seq (suc n) w =
      let (k, v) = random.intn (rune_count alpha_numeric_runes) w in
      (do c ← rune (rune_at alpha_numeric_runes k); rest ← rand_seq n; pure (String.◌∷◌ c rest)) v

  unfoldable pub new_task_runner : (p : Platform) → Io W (TaskRunner p)
  new_task_runner p = do tid ← rand_seq 3; pure (record { tid = tid; current_msg = none })
