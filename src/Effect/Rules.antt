-- ===== src/Effect/Rules.antt =====
-- What a call promises on an abstract view of its world, and the rules to combine promises.
use go_workers.Prelude.{◌≡◌, ◌≢◌, ◌⊎◌, inl, inr, ap, arith, ◌∙◌, refl}
use go_workers.Effect.Calls.{Error, redis_nil, Outcome, ok, err, panic, spin, Io, pure, ◌>>=◌}

module _ {ℓ} {W S : Type 0} {A : Type ℓ} (view : W → S) where
  -- The call did what the specification says.
  abbrev pub Done : (S → Outcome A × S) → Io W A → W → Type ℓ
  Done spec m w = ((m w).0 ≡ (spec (view w)).0) × (view (m w).1 ≡ (spec (view w)).1)

  -- The call reported an error of its own, and the world has changed by all of it or not at all.
  abbrev pub Failed : (S → Outcome A × S) → Io W A → W → Type ℓ
  Failed spec m w =
      (e : Error) × ((m w).0 ≡ err e)
      × (e ≢ redis_nil)
      × ((view (m w).1 ≡ view w) ⊎ (view (m w).1 ≡ (spec (view w)).1))

  -- A remote call does what its specification says, or fails.
  abbrev pub Acts : (S → Outcome A × S) → Io W A → Type ℓ
  Acts spec m = (w : W) → Done spec m w ⊎ Failed spec m w

-- A call whose result is passed on refines a specification of a coarser view.
module _ {ℓ κ} {W S T : Type 0} {A : Type ℓ} {B : Type κ} (view : W → S) (coarse : S → T) where
  abbrev pub map_ok : (A → B) → Outcome A → Outcome B
  map_ok f (ok a) = ok (f a)
  map_ok f (err e) = err e
  map_ok f (panic p) = panic p
  map_ok f spin = spin

  pub bind-pure :
      (f : A → B) (m : Io W A) (w : W) → (m >>= λ a. pure (f a)) w ≡ (map_ok f (m w).0, (m w).1)
  bind-pure f m w = ground arith

  -- A call that passes its errors on, and whose specification sees less, keeps the promise.
  pub Acts-rename :
      (rename : Outcome A → Outcome B) (spec : S → Outcome A × S) (coarse_spec : T → Outcome B × T)
      {m : Io W A} {n : Io W B}
      → ((w : W) → n w ≡ (rename (m w).0, (m w).1))
      → ((e : Error) → e ≢ redis_nil → rename (err e) ≡ err e)
      → ((v : S) → coarse_spec (coarse v) ≡ (rename (spec v).0, coarse (spec v).1))
      → Acts view spec m
      → Acts (λ w. coarse (view w)) coarse_spec n
  Acts-rename rename spec coarse_spec {m} same keeps agrees acts w =
      rw (same w, agrees (view w))
        (elim (acts w) [
          | inl (r, v) ↦ inl (ap rename r, ap coarse v)
          | inr (e, r, h, inl v) ↦ inr (e, ap rename r ∙ keeps e h, h, inl (ap coarse v))
          | inr (e, r, h, inr v) ↦ inr (e, ap rename r ∙ keeps e h, h, inr (ap coarse v))
        ])

  pub Acts-map :
      (f : A → B) (spec : S → Outcome A × S) (coarse_spec : T → Outcome B × T) {m : Io W A}
      → ((v : S) → coarse_spec (coarse v) ≡ (map_ok f (spec v).0, coarse (spec v).1))
      → Acts view spec m
      → Acts (λ w. coarse (view w)) coarse_spec (m >>= λ a. pure (f a))
  Acts-map f spec coarse_spec {m} agrees =
      Acts-rename (map_ok f) spec coarse_spec (bind-pure f m) (λ e h. refl) agrees

-- A call that only reads, and then another.
module _ {ℓ κ} {W S : Type 0} {A : Type ℓ} {B : Type κ} (view : W → S) where
  bind-ok :
      (m : Io W A) (k : A → Io W B) (w : W) {a : A} → (m w).0 ≡ ok a → (m >>= k) w ≡ k a (m w).1
  bind-ok m k w e = rw (e, ◌>>=◌)

  bind-err :
      (m : Io W A) (k : A → Io W B) (w : W) {e : Error}
      → (m w).0 ≡ err e
      → (m >>= k) w ≡ (err e, (m w).1)
  bind-err m k w e = rw (e, ◌>>=◌)

  pub Acts-then :
      (read : S → A) (spec : A → S → Outcome B × S) (m : Io W A) (k : A → Io W B)
      → Acts view (λ v. (ok (read v), v)) m
      → ((a : A) → Acts view (spec a) (k a))
      → Acts view (λ v. spec (read v) v) (m >>= k)
  Acts-then read spec m k reads acts w = elim (reads w) [
    | inl (r, v) ↦ rw (bind-ok m k w r) (elim (acts (read (view w)) (m w).1) [
      | inl (r', v') ↦ inl (rw v at r', rw v at v')
      | inr (e, r', h, inl v') ↦ inr (e, r', h, inl (v' ∙ v))
      | inr (e, r', h, inr v') ↦ inr (e, r', h, inr (rw v at v'))
    ])
    | inr (e, r, h, inl v) ↦ rw (bind-err m k w r) (inr (e, refl, h, inl v))
    | inr (e, r, h, inr v) ↦ rw (bind-err m k w r) (inr (e, refl, h, inl v))
  ]

-- What a call keeps of its world, however it ends.
module _ {W : Type 0} (I : W → Type 0) where
  abbrev pub Preserves : {A : Type 0} → Io W A → Type 0
  Preserves m = (w : W) → I w → I (m w).1

  pub Preserves-then :
      {A B : Type 0} (m : Io W A) (k : A → Io W B)
      → Preserves m
      → ((a : A) → Preserves (k a))
      → Preserves (m >>= k)
  Preserves-then {A} {B} m k first next w i = go (m w).0 (m w).1 (first w i)
    where
      go : (o : Outcome A) (v : W) → I v → I (((λ (u : W). (o, v)) >>= k) v).1
      go (ok a) v j = next a v j
      go (err e) v j = j
      go (panic q) v j = j
      go spin v j = j
