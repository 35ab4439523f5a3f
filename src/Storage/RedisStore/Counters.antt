-- ===== src/Storage/RedisStore/Counters.antt =====
-- storage/redis.go: the counters of processed and failed jobs, and the server's time.
use go_workers.Prelude.{ℕ, String, ◌<>◌, List, [], ◌∷◌, map, str_eq, if◌then◌else◌}
use go_workers.Prelude.Int.{ℤ, pos}
use go_workers.Effect.{Io, pure, ◌>>=◌, ◌>>◌, Seen, try}
use go_workers.External.Platform.{Platform}
use go_workers.External.Redis.{first_error, error_of, val_or, report, report_unless_nil}
use go_workers.Storage.Types.{Stats, retry_key}
use go_workers.Storage.Client.{RedisStore}

-- m[k] = v of a Go map
unfoldable pub put {ℓ} : {V : Type ℓ} → String → V → List (String × V) → List (String × V)
put k v [] = (k, v) ∷ []
put k v ((j, w) ∷ m) = if str_eq j k then (k, v) ∷ m else (j, w) ∷ put k v m

module _ {p : Platform} (s : RedisStore p) where
  open s use {namespace, client}

  unfoldable pub increment_stats : (metric : String) → Io s.client.Db (Unit {0})
  increment_stats metric = do
    today ← client.now
    total ← try (client.incr (namespace <> ("stat:" <> metric)))
    daily ← try (client.incr (namespace <> ("stat:" <> (metric <> (":" <> p.format_day today)))))
    report (first_error (error_of total ∷ error_of daily ∷ []))

  -- One LLEN for each queue, with the key of the result.
  queue_lengths : (queues : List String) → Io s.client.Db (List (String × Seen ℕ))
  queue_lengths [] = pure []
  queue_lengths (queue ∷ queues) = do
    n ← try (client.llen (namespace <> ("queue:" <> queue)))
    rest ← queue_lengths queues
    pure ((namespace <> queue, n) ∷ rest)

  -- Both loops over the map qLen: of two lengths of one key the later stays.
  enqueued_counts : List (String × Seen ℕ) → List (String × ℤ) → List (String × ℤ)
  enqueued_counts [] m = m
  enqueued_counts ((q, n) ∷ rest) m = enqueued_counts rest (put q (pos (val_or 0 n)) m)

  unfoldable pub get_all_stats : (queues : List String) → Io s.client.Db Stats
  unfolding queue_lengths enqueued_counts
  get_all_stats queues = do
    p_get ← try (client.get (namespace <> "stat:processed"))
    f_get ← try (client.get (namespace <> "stat:failed"))
    r_get ← try (client.zcard (namespace <> retry_key))
    q_len ← queue_lengths queues
    report_unless_nil (
        first_error
          (error_of p_get ∷ error_of f_get ∷ error_of r_get ∷ map (λ q. error_of q.1) q_len))
    pure (record {
      processed = (p.parse_int (val_or "" p_get)).0;
      failed = (p.parse_int (val_or "" f_get)).0;
      retry_count = pos (val_or 0 r_get);
      enqueued = enqueued_counts q_len [];
    })

  unfoldable pub get_time : Io s.client.Db ℤ
  get_time = client.time
