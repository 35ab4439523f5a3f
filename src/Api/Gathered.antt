-- ===== src/Api/Gathered.antt =====
-- The loop of the API over its managers: what it finds of those that answer.
use go_workers.Prelude.{◌≡◌, refl, ap, ◌∙◌, String, List, [], ◌∷◌, map, All, subst, ◌⊎◌, inl, inr}
use go_workers.Effect.{Error, text, ok, Io, pure, ◌>>=◌, Seen, value, failed, try}
use go_workers.Effect.Inverse.{bind_ok}
use go_workers.External.Platform.{Platform}
use go_workers.Api.Server.{Managed, gather}

-- A call reads this of the world, a value or an error, and leaves what it reads alone.
abbrev pub Reads : {A W V : Type 0} → (W → V) → Io W A → (V → Seen A) → Type 0
Reads {W = W} view m read =
    (w : W) → (v : W) × (try m w ≡ (ok (read (view w)), v)) × (view v ≡ view w)

-- The values that were read, in order, without the errors
abbrev pub values : {A : Type 0} → List (Seen A) → List A
values [] = []
values (failed e ∷ rs) = values rs
values (value a ∷ rs) = a ∷ values rs

abbrev pub answered :
    {p : Platform} {W V A : Type 0}
    → (Managed p W → V → Seen A)
    → List (String × Managed p W)
    → V
    → List A
answered {p = p} {W = W} read ms z = values (map (λ (e : String × Managed p W). read e.1 z) ms)

Seen-cases : {A : Type 0} (r : Seen A) → ((a : A) × (r ≡ value a)) ⊎ ((e : Error) × (r ≡ failed e))
Seen-cases (value a) = inl (a, refl)
Seen-cases (failed e) = inr (e, refl)

module _ {p : Platform} {W A : Type 0} (println : List String → W → W) (words : String)
    (call : Managed p W → Io W A) where
  -- A round of the loop, for a manager that answers and for one that fails
  gather-value :
      (u : String) (m : Managed p W) (ms : List (String × Managed p W)) (w v v' : W) (a : A)
      (found : List A)
      → try (call m) w ≡ (ok (value a), v)
      → gather println words call ms v ≡ (ok found, v')
      → gather println words call ((u, m) ∷ ms) w ≡ (ok (a ∷ found), v')
  unfolding gather
  gather-value u m ms w v v' a found e f =
      bind_ok (try (call m))
        (λ r. elim r [
          | failed x ↦ (λ z. gather println words call ms (println (words ∷ text x ∷ []) z))
          | value b ↦ (do rest ← gather println words call ms; pure (b ∷ rest))
        ])
        w v (value a) e
      ∙ bind_ok (gather println words call ms) (λ rest. pure (a ∷ rest)) v v' found f

  gather-failed :
      (u : String) (m : Managed p W) (ms : List (String × Managed p W)) (w v : W) (x : Error)
      → try (call m) w ≡ (ok (failed x), v)
      → gather println words call ((u, m) ∷ ms) w
        ≡ gather println words call ms (println (words ∷ text x ∷ []) v)
  unfolding gather
  gather-failed u m ms w v x e =
      bind_ok (try (call m))
        (λ r. elim r [
          | failed y ↦ (λ z. gather println words call ms (println (words ∷ text y ∷ []) z))
          | value b ↦ (do rest ← gather println words call ms; pure (b ∷ rest))
        ])
        w v (failed x) e

  module _ {V : Type 0} (view : W → V)
      (logs : (said : List String) (w : W) → view (println said w) ≡ view w)
      (read : Managed p W → V → Seen A) where
    abbrev Gathered : List (String × Managed p W) → W → V → Type 0
    Gathered ms w z =
        (v : W) × (gather println words call ms w ≡ (ok (answered read ms z), v)) × (view v ≡ z)

    pub gather_lem :
        (ms : List (String × Managed p W)) (w : W)
        → All (λ (e : String × Managed p W). Reads view (call e.1) (read e.1)) ms
        → Gathered ms w (view w)
    unfolding gather
    gather_lem [] w a = (w, refl, refl)
    gather_lem ((u, m) ∷ ms) w a =
        let one = a.0 w in
        elim (Seen-cases (read m (view w))) [
          | inl (b, e) ↦
              let rest = subst (Gathered ms one.0) one.2 (gather_lem ms one.0 a.1) in
              let first : try (call m) w ≡ (ok (value b), one.0) = rw e at one.1 in
              (
                rest.0,
                rw e
                    (gather-value u m ms w one.0 rest.0 b (answered read ms (view w)) first rest.1),
                rest.2,
              )
          | inr (x, e) ↦
              let said = println (words ∷ text x ∷ []) one.0 in
              let rest =
                subst (Gathered ms said) (logs (words ∷ text x ∷ []) one.0 ∙ one.2)
                  (gather_lem ms said a.1) in
              let first : try (call m) w ≡ (ok (failed x), one.0) = rw e at one.1 in
              (rest.0, rw e (gather-failed u m ms w one.0 x first ∙ rest.1), rest.2)
        ]

  abbrev round : Io W A → Io W (List A) → Io W (List A)
  round m rest = do
    r ← try m
    elim r [
      | failed e ↦ (λ w. rest (println (words ∷ text e ∷ []) w))
      | value a ↦ (do found ← rest; pure (a ∷ found))
    ]

  pub gather_same :
      (other : Managed p W → Io W A) (ms : List (String × Managed p W))
      → All (λ (e : String × Managed p W). call e.1 ≡ other e.1) ms
      → gather println words call ms ≡ gather println words other ms
  unfolding gather
  gather_same other [] a = refl
  gather_same other ((u, m) ∷ ms) a =
      ap (λ (c : Io W A). round c (gather println words call ms)) a.0
      ∙ ap (round (other m)) (gather_same other ms a.1)
