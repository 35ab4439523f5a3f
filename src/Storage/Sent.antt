-- ===== src/Storage/Sent.antt =====
-- A heartbeat that is sent, and what its reader gets (storage/redis.go).
pub mod Hash
use go_workers.Prelude.{
  ℕ, String, Bool, true, false, ◌≡◌, ◌≢◌, refl, ap, ◌⊎◌, inl, inr, Option, none, some, List, [],
  ◌∷◌, ◌++◌, map, reverse, arith, str_eq, ◌∙◌, sym, eq_refl,
}
use go_workers.Prelude.Int.{ℤ, pos}
use go_workers.Effect.{
  Error, redis_nil, no_message, error, Outcome, ok, err, panic, spin, Io, ◌>>=◌, try, Seen, value,
  failed,
}
use go_workers.External.Platform.{Platform, Lawful}
use go_workers.External.Keyspace.{
  Keyspace, set_add, Argument, number, boolean, words, field, format_argument,
}
use go_workers.External.Redis.{Documented, report_unless_nil, first_error, error_of}
use go_workers.Storage.Types.{Heartbeat}
use go_workers.Storage.Keys.{get_manager_key, get_processes_key}
use go_workers.Storage.Client.{RedisStore}
use go_workers.Storage.Sent.Hash.{read_back, sent, written, hash, reads}
use go_workers.Effect.Inverse.{first_ok, try_value, try_failed, try_world, err_inj}
use go_workers.Storage.RedisStore.Beats.{
  heartbeat_properties, get_heartbeat, send_heartbeat, check_rtt, present, printed, boolean_text,
  int_member, text_member, read_heartbeat,
}

set_add-hashes :
    {Score : Type 0} (k m : String) (d : Keyspace Score) → (set_add k m d).1.hashes ≡ d.hashes
set_add-hashes k m d = ground arith

set_add-ok :
    {Score : Type 0} (k m : String) (d : Keyspace Score) {e : Error} → (set_add k m d).0 ≢ err e
set_add-ok k m d h = ground arith

module _ {p : Platform} (s : RedisStore p) (d : Documented s.client) where
  -- The round trip changes nothing that Redis keeps.
  check_rtt-view : (w v : s.client.Db) (rtt : ℤ) → check_rtt s w ≡ (ok rtt, v) → d.view v ≡ d.view w
  unfolding check_rtt
  check_rtt-view w v rtt e =
      ground (arith, (d.now_doc w).1, d.ping_doc w, (d.now_doc (s.client.ping w).1).1, e)

  wrote :
      (h : Heartbeat) (rtt : ℤ) (w w' : s.client.Db)
      → (s.client.hmset (get_manager_key s.namespace h.identity) (sent s rtt h) w).0 ≡ ok tt
      → hash s d h.identity
          (s.client.hmset (get_manager_key s.namespace h.identity) (sent s rtt h) w).1
        ≡ written s rtt h (hash s d h.identity w)
  wrote h rtt w w' e =
      elim (d.hmset_doc (get_manager_key s.namespace h.identity) (sent s rtt h) w) [
        | inl (r, v) ↦
            ap (λ k. k.hashes (get_manager_key s.namespace h.identity)) v
            ∙ rw (eq_refl (get_manager_key s.namespace h.identity)) refl
        | inr (x, r, n, v) ↦ cc (e, r)
      ]

  added-view :
      (h : Heartbeat) (w : s.client.Db)
      → hash s d h.identity (s.client.sadd (get_processes_key s.namespace) h.identity w).1
        ≡ hash s d h.identity w
  added-view h w =
      let same = set_add-hashes (get_processes_key s.namespace) h.identity (d.view w) in
      elim (d.sadd_doc (get_processes_key s.namespace) h.identity w) [
        | inl (r, v) ↦
            ap (λ k. k.hashes (get_manager_key s.namespace h.identity)) v
            ∙ ap (λ k. k (get_manager_key s.namespace h.identity)) same
        | inr (x, r, n, inl v) ↦ ap (λ k. k.hashes (get_manager_key s.namespace h.identity)) v
        | inr (x, r, n, inr v) ↦
            ap (λ k. k.hashes (get_manager_key s.namespace h.identity)) v
            ∙ ap (λ k. k (get_manager_key s.namespace h.identity)) same
      ]

  -- What follows each command of a heartbeat that is sent.
  abbrev reported : Seen ℕ → Seen (Unit {0}) → Io s.client.Db (Unit {0})
  reported added wr = report_unless_nil (first_error (error_of added ∷ error_of wr ∷ []))

  abbrev writes : Heartbeat → ℤ → Io s.client.Db (Seen (Unit {0}))
  writes h rtt = try (s.client.hmset (get_manager_key s.namespace h.identity) (sent s rtt h))

  abbrev adds : Heartbeat → Io s.client.Db (Seen ℕ)
  adds h = try (s.client.sadd (get_processes_key s.namespace) h.identity)

  sadd-not_nil :
      (h : Heartbeat) (w : s.client.Db)
      → (s.client.sadd (get_processes_key s.namespace) h.identity w).0 ≢ err redis_nil
  sadd-not_nil h w e = elim (d.sadd_doc (get_processes_key s.namespace) h.identity w) [
    | inl (r, v) ↦ set_add-ok (get_processes_key s.namespace) h.identity (d.view w) (sym r ∙ e)
    | inr (x, r, n, v) ↦ absurd (n (err_inj (sym r ∙ e)))
  ]

  hmset-not_nil :
      (k : String) (fs : List (String × Argument)) (w : s.client.Db)
      → (s.client.hmset k fs w).0 ≢ err redis_nil
  hmset-not_nil k fs w e = elim (d.hmset_doc k fs w) [
    | inl (r, v) ↦ cc (e, r)
    | inr (x, r, n, v) ↦ absurd (n (err_inj (sym r ∙ e)))
  ]

  -- If nothing is reported, the fields have been written.
  unreported :
      (h : Heartbeat) (rtt : ℤ) (w v w' : s.client.Db) (added : Seen ℕ) (wr : Seen (Unit {0}))
      → writes h rtt w ≡ (ok wr, v)
      → (added ≢ failed redis_nil)
      → reported added wr v ≡ (ok tt, w')
      → hash s d h.identity w' ≡ written s rtt h (hash s d h.identity w)
  unreported h rtt w v w' (failed redis_nil) wr e n r = absurd (n refl)
  unreported h rtt w v w' (failed no_message) wr e n r = cc r
  unreported h rtt w v w' (failed (error t)) wr e n r = cc r
  unreported h rtt w v w' (value k) (failed redis_nil) e n r = absurd (
      hmset-not_nil _ _ _
        (try_failed (s.client.hmset (get_manager_key s.namespace h.identity) (sent s rtt h)) w v
          redis_nil e).0)
  unreported h rtt w v w' (value k) (failed no_message) e n r = cc r
  unreported h rtt w v w' (value k) (failed (error t)) e n r = cc r
  unreported h rtt w v w' (value k) (value u) e n r =
      let q =
        try_value (s.client.hmset (get_manager_key s.namespace h.identity) (sent s rtt h)) w v u
          e in
      ap (hash s d h.identity) (sym (ap (λ z. z.1) r) ∙ q.1) ∙ wrote h rtt w w' q.0

  sends :
      (h : Heartbeat) (w w' : s.client.Db)
      → send_heartbeat s h w ≡ (ok tt, w')
      → (rtt : ℤ) × (hash s d h.identity w' ≡ written s rtt h (hash s d h.identity w))
  unfolding send_heartbeat
  sends h w w' e =
      let a =
        first_ok (check_rtt s) (λ rtt. adds h >>= λ x. writes h rtt >>= λ y. reported x y) w w' tt
          e in
      let b = first_ok (adds h) (λ x. writes h a.0 >>= λ y. reported x y) a.1 w' tt a.3 in
      let c = first_ok (writes h a.0) (λ y. reported b.0 y) b.1 w' tt b.3 in
      let same : hash s d h.identity b.1 ≡ hash s d h.identity w =
        ap (hash s d h.identity)
          (try_world (s.client.sadd (get_processes_key s.namespace) h.identity) a.1 b.1 b.0 b.2)
        ∙ added-view h a.1
        ∙ ap (λ k. k.hashes (get_manager_key s.namespace h.identity))
            (check_rtt-view w a.1 a.0 a.2) in
      (
        a.0,
        unreported h a.0 b.1 c.1 w' b.0 c.0 c.2
              (λ f.
                sadd-not_nil h a.1
                  (try_failed (s.client.sadd (get_processes_key s.namespace) h.identity) a.1 b.1
                    redis_nil (b.2 ∙ ap (λ r. (ok r, b.1)) f)).0)
              c.3
            ∙ ap (written s a.0 h) same,
      )

  -- A heartbeat that has been sent without an error, and whose workers JSON keeps, is read as it was
  -- sent, but for the identifier of the process and the lifetime, which are 0, and the round trip
  -- time, which is measured by the sender; or the client's read of the hash, HMGET, fails, and the
  -- reader gets that error.
  pub get_heartbeat-send_heartbeat :
      Lawful p
      → (h : Heartbeat) (w w' : s.client.Db)
      → s.unmarshal_workers (s.marshal_workers h.worker_heartbeats) ≡ ok h.worker_heartbeats
      → send_heartbeat s h w ≡ (ok tt, w')
      → (rtt : ℤ) × (((get_heartbeat s h.identity w').0 ≡ ok (some (read_back rtt h)))
          ⊎ ((e : Error) × ((s.client.hmget
                  (get_manager_key s.namespace h.identity)
                  heartbeat_properties
                  w').0
                ≡ err e)
              × ((get_heartbeat s h.identity w').0 ≡ err e)))
  unfolding get_heartbeat
  get_heartbeat-send_heartbeat laws h w w' m e =
      let sent = sends h w w' e in
      (
        sent.0,
        elim (d.hmget_doc (get_manager_key s.namespace h.identity) heartbeat_properties w') [
          | inl (r, v) ↦ inl (reads s d laws sent.0 h (hash s d h.identity w) w' m sent.1 r)
          | inr (x, r, n, v) ↦ inr (x, r, ground (arith, r))
        ],
      )
