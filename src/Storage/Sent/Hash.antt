-- ===== src/Storage/Sent/Hash.antt =====
-- The hash of a heartbeat, and what its reader gets (storage/redis.go).
use go_workers.Prelude.{
  String, Bool, true, false, ◌≡◌, refl, some, List, [], ◌∷◌, ◌++◌, map, reverse, arith, str_eq,
}
use go_workers.Prelude.Int.{ℤ, pos}
use go_workers.Effect.{ok}
use go_workers.External.Platform.{Platform, Lawful}
use go_workers.External.Keyspace.{Argument, number, boolean, words, field, format_argument}
use go_workers.External.Redis.{Documented}
use go_workers.Storage.Types.{Heartbeat}
use go_workers.Storage.Keys.{get_manager_key}
use go_workers.Storage.Client.{RedisStore}
use go_workers.Storage.RedisStore.Beats.{
  heartbeat_properties, get_heartbeat, present, boolean_text, int_member, read_heartbeat,
}

-- The heartbeat as it is read: the identifier of the process and the lifetime are not kept, and the
-- round trip time is that of the sender.
abbrev pub read_back : ℤ → Heartbeat → Heartbeat
read_back rtt h = record h { rtt_us = rtt; pid = pos 0; ttl = pos 0 }

module _ {p : Platform} (s : RedisStore p) where
  abbrev pub sent : ℤ → Heartbeat → List (String × Argument)
  sent rtt h =
      ("beat", number h.beat)
      ∷ ("quiet", boolean h.quiet)
      ∷ ("busy", number h.busy)
      ∷ ("rtt_us", number rtt)
      ∷ ("rss", number h.rss)
      ∷ ("info", words h.info)
      ∷ ("manager_priority", number h.manager_priority)
      ∷ ("active_manager", boolean h.active_manager)
      ∷ ("worker_heartbeats", words (s.marshal_workers h.worker_heartbeats))
      ∷ []

  abbrev pub written : ℤ → Heartbeat → List (String × String) → List (String × String)
  written rtt h old =
      map (λ f. (f.0, format_argument p.format_int f.1)) (reverse (sent rtt h)) ++ old

  values :
      (rtt : ℤ) (h : Heartbeat) (old : List (String × String))
      → map (λ f. field f (written rtt h old)) heartbeat_properties
        ≡ some (p.format_int h.beat)
          ∷ some (format_argument p.format_int (boolean h.quiet))
          ∷ some (p.format_int h.busy)
          ∷ some (p.format_int rtt)
          ∷ some (p.format_int h.rss)
          ∷ some h.info
          ∷ some (p.format_int h.manager_priority)
          ∷ some (format_argument p.format_int (boolean h.active_manager))
          ∷ some (s.marshal_workers h.worker_heartbeats)
          ∷ []
  values rtt h old = refl

  bool_back :
      (b : Bool)
      → str_eq (boolean_text (some (format_argument p.format_int (boolean b)))) "true" ≡ b
  bool_back true = refl
  bool_back false = refl

  int_back : Lawful p → (n : ℤ) → int_member p (some (p.format_int n)) ≡ ok n
  unfolding int_member
  int_back laws n = ground (arith, laws.parse-format n)

module _ {p : Platform} (s : RedisStore p) (d : Documented s.client) where
  abbrev pub hash : String → s.client.Db → List (String × String)
  hash id w = (d.view w).hashes (get_manager_key s.namespace id)

  -- Reading such a hash gives the heartbeat, or the error of the client.
  pub reads :
      Lawful p
      → (rtt : ℤ) (h : Heartbeat) (old : List (String × String)) (w : s.client.Db)
      → s.unmarshal_workers (s.marshal_workers h.worker_heartbeats) ≡ ok h.worker_heartbeats
      → hash h.identity w ≡ written s rtt h old
      → (s.client.hmget (get_manager_key s.namespace h.identity) heartbeat_properties w).0
        ≡ ok (map (λ f. field f (hash h.identity w)) heartbeat_properties)
      → (get_heartbeat s h.identity w).0 ≡ ok (some (read_back rtt h))
  unfolding get_heartbeat present read_heartbeat
  reads laws rtt h old w m e r =
      let q : (s.client.hmget (get_manager_key s.namespace h.identity) heartbeat_properties w).0
          ≡ ok (map (λ f. field f (written s rtt h old)) heartbeat_properties) =
        rw e at r in
      ground (
        arith,
        q,
        m,
        int_back s laws h.beat,
        int_back s laws h.busy,
        int_back s laws rtt,
        int_back s laws h.rss,
        int_back s laws h.manager_priority,
        bool_back s h.quiet,
        bool_back s h.active_manager,
      )
