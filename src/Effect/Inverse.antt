-- ===== src/Effect/Inverse.antt =====
-- What is known of a call that ended well, or that its caller looked at.
use go_workers.Prelude.{◌≡◌, refl, ap, arith}
use go_workers.Effect.Calls.{
  Error, Outcome, ok, err, panic, spin, Io, ◌>>=◌, Seen, value, failed, try,
}

pub err_inj : {A : Type 0} {x y : Error} → ◌≡◌ {A = Outcome A} (err x) (err y) → x ≡ y
err_inj e = cc e

module _ {W A : Type 0} (m : Io W A) (w v : W) where
  pub try_value : (a : A) → try m w ≡ (ok (value a), v) → ((m w).0 ≡ ok a) × (v ≡ (m w).1)
  try_value a e = ground (arith, e)

  pub try_failed : (x : Error) → try m w ≡ (ok (failed x), v) → ((m w).0 ≡ err x) × (v ≡ (m w).1)
  try_failed x e = ground (arith, e)

  pub try_world : (r : Seen A) → try m w ≡ (ok r, v) → v ≡ (m w).1
  try_world r e = ground (arith, e)

-- A call in front of others that end well
pub first_ok :
    {W A B : Type 0} (m : Io W A) (k : A → Io W B) (w w' : W) (b : B)
    → (m >>= k) w ≡ (ok b, w')
    → (a : A) × (v : W) × (m w ≡ (ok a, v)) × (k a v ≡ (ok b, w'))
first_ok {W = W} {A = A} {B = B} m k w w' b e = go (m w) refl e
  where
    go :
        (r : Outcome A × W)
        → m w ≡ r
        → (elim r.0 [
          | ok a ↦ k a r.1
          | err x ↦ (err x, r.1)
          | panic q ↦ (panic q, r.1)
          | spin ↦ (spin, r.1)
        ])
          ≡ (ok b, w')
        → (a : A) × (v : W) × (m w ≡ (ok a, v)) × (k a v ≡ (ok b, w'))
    go (ok a, v) q f = (a, v, q, f)
    go (err x, v) q f = cc f
    go (panic x, v) q f = cc f
    go (spin, v) q f = cc f

pub bind_ok :
    {W A B : Type 0} (m : Io W A) (k : A → Io W B) (w v : W) (a : A)
    → m w ≡ (ok a, v)
    → (m >>= k) w ≡ k a v
bind_ok m k w v a e = rw (e, ◌>>=◌) (ap (λ r. k a r.1) e)

pub try_err :
    {W A : Type 0} (m : Io W A) (w : W) (x : Error)
    → (m w).0 ≡ err x
    → try m w ≡ (ok (failed x), (m w).1)
try_err m w x e = ground (arith, e)
