-- ===== src/Random/Sequences.antt =====
-- The sequences of letters and digits that name task runners (randSeq of task_runner.go).
use Prim.Native.Char.{Char}
use go_workers.Prelude.{ℕ, zero, suc, ◌<◌, ◌≡◌, refl, ap, ◌∙◌, String, Option, some, arith}
use go_workers.Effect.{ok, pure, ◌>>=◌}
use go_workers.Effect.Inverse.{bind_ok}
use go_workers.Random.{Randomness, alpha_numeric_runes, rune_count, rune_at, rune, rand_seq}

-- Every character is one of the alphabet.
abbrev pub OverAlphabet : String → Type 0
OverAlphabet String.[] = Unit
OverAlphabet (String.◌∷◌ c s) =
    ((k : ℕ) × (rune_at alpha_numeric_runes k ≡ some c)) × OverAlphabet s

rune_at-within : (s : String) (k : ℕ) → k < rune_count s → (c : Char) × (rune_at s k ≡ some c)
rune_at-within String.[] k h = absurd (omega (arith, h))
rune_at-within (String.◌∷◌ c s) zero h = (c, refl)
rune_at-within (String.◌∷◌ c s) (suc k) h = rune_at-within s k (omega (arith, h))

-- For a rand.Intn that is below its bound, as documented, a sequence is drawn without a panic, has
-- the length that was asked for, and is over the alphabet.
module _ {W : Type 0} (random : Randomness W)
    (within : (n : ℕ) (w : W) → 0 < n → (random.intn n w).0 < n) where
  pub rand_seq_lem :
      (n : ℕ) (w : W)
      → (s : String) × (v : W) × (rand_seq random n w ≡ (ok s, v))
        × (rune_count s ≡ n)
        × OverAlphabet s
  unfolding rand_seq rune
  rand_seq_lem zero w = ("", w, refl, refl, tt)
  rand_seq_lem (suc n) w =
      let drawn = random.intn 36 w in
      let c = rune_at-within alpha_numeric_runes drawn.0 (within 36 w (omega arith)) in
      let rest = rand_seq_lem n drawn.1 in
      (
        String.◌∷◌ c.0 rest.0,
        rest.1,
        ap
              (λ (o : Option Char).
                (rune random o >>= λ d. rand_seq random n >>= λ s. pure (String.◌∷◌ d s)) drawn.1)
              c.1
            ∙ bind_ok (rand_seq random n) (λ s. pure (String.◌∷◌ c.0 s)) drawn.1 rest.1 rest.0
                rest.2,
        ap suc rest.3,
        ((drawn.0, c.1), rest.4),
      )
