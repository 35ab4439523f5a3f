-- ===== src/External/Redis.antt =====
-- The commands of github.com/go-redis/redis that the program sends, and what the documentation of
-- Redis says of each. A command that fails (a lost connection, a key of another kind) has been
-- executed or has not. No other client acts between two commands of this one.
use go_workers.Prelude.{ℕ, String, Option, none, some, List, [], ◌∷◌, ◌≡◌}
use go_workers.Prelude.Int.{ℤ, pos, negsuc}
use go_workers.Effect.{Io, Acts, Error, redis_nil, ok, Seen, value, failed, pure, fail}
use go_workers.External.Platform.{Platform}
use go_workers.External.Keyspace.{
  Keyspace, Argument, push, move, drop_last, items, count_items, add_member, find_due, drop_member,
  count_members, all_members, set_add, set_remove, set_items, increment, counter, set_fields,
  get_fields, delete,
}

pub record Redis (p : Platform) : Type 1 where
  pub Db : Type 0
  pub brpoplpush : (src dst : String) (timeout : ℕ) → Io Db String
  pub lpush : String → String → Io Db ℕ
  pub lrem : String → (count : ℤ) → String → Io Db ℕ
  pub lrange : String → (start stop : ℤ) → Io Db (List String)
  pub llen : String → Io Db ℕ
  pub zadd : String → p.Float → String → Io Db ℕ
  pub zrangebyscore : String → (min max : String) (offset count : ℕ) → Io Db (List String)
  pub zrem : String → String → Io Db ℕ
  pub zcard : String → Io Db ℕ
  pub zrange : String → (start stop : ℤ) → Io Db (List String)
  pub sadd : String → String → Io Db ℕ
  pub srem : String → String → Io Db ℕ
  pub smembers : String → Io Db (List String)
  pub incr : String → Io Db ℤ
  pub get : String → Io Db String
  pub hmset : String → List (String × Argument) → Io Db (Unit {0})
  pub hmget : String → List String → Io Db (List (Option String))
  -- the number of keys deleted is not looked at
  pub del : String → Io Db (Unit {0})
  -- seconds of the server's clock
  pub time : Io Db ℤ
  pub ping : Io Db (Unit {0})
  -- the clock of this process: time.Now().UnixNano()
  pub now : Io Db ℤ

pub record Documented {p : Platform} (r : Redis p) : Type 0 where
  pub view : r.Db → Keyspace p.Float
  pub brpoplpush_doc :
      (src dst : String) (t : ℕ) → Acts view (move src dst) (r.brpoplpush src dst t)
  pub lpush_doc : (k m : String) → Acts view (push k m) (r.lpush k m)
  pub lrem_doc : (k m : String) → Acts view (drop_last k m) (r.lrem k (negsuc 0) m)
  pub lrange_doc : (k : String) → Acts view (items k) (r.lrange k (pos 0) (negsuc 0))
  pub llen_doc : (k : String) → Acts view (count_items k) (r.llen k)
  pub zadd_doc :
      (k : String) (s : p.Float) (m : String) → Acts view (add_member p.ltf k s m) (r.zadd k s m)
  pub zrangebyscore_doc :
      (k : String) (max : p.Float)
      → Acts view (find_due p.ltf k max) (r.zrangebyscore k "-inf" (p.format_float max) 0 1)
  pub zrem_doc : (k m : String) → Acts view (drop_member k m) (r.zrem k m)
  pub zcard_doc : (k : String) → Acts view (count_members k) (r.zcard k)
  pub zrange_doc : (k : String) → Acts view (all_members k) (r.zrange k (pos 0) (negsuc 0))
  pub sadd_doc : (k m : String) → Acts view (set_add k m) (r.sadd k m)
  pub srem_doc : (k m : String) → Acts view (set_remove k m) (r.srem k m)
  pub smembers_doc : (k : String) → Acts view (set_items k) (r.smembers k)
  pub incr_doc : (k : String) → Acts view (increment k) (r.incr k)
  pub get_doc : (k : String) → Acts view (counter p.format_int k) (r.get k)
  pub hmset_doc :
      (k : String) (fs : List (String × Argument))
      → Acts view (set_fields p.format_int k fs) (r.hmset k fs)
  pub hmget_doc : (k : String) (fs : List String) → Acts view (get_fields k fs) (r.hmget k fs)
  pub del_doc : (k : String) → Acts view (delete k) (r.del k)
  pub time_doc : (w : r.Db) → view (r.time w).1 ≡ view w
  pub ping_doc : (w : r.Db) → view (r.ping w).1 ≡ view w
  pub now_doc : (w : r.Db) → (n : ℤ) × (r.now w ≡ (ok n, w))

-- Pipeline: Exec executes every queued command and reports the first error; `Val` of a command
-- that failed is the zero value.
abbrev pub first_error : List (Option Error) → Option Error
first_error [] = none
first_error (some e ∷ es) = some e
first_error (none ∷ es) = first_error es

abbrev pub error_of {ℓ} : {A : Type ℓ} → Seen A → Option Error
error_of (value a) = none
error_of (failed e) = some e

abbrev pub val_or {ℓ} : {A : Type ℓ} → A → Seen A → A
val_or zero_value (value a) = a
val_or zero_value (failed e) = zero_value

module _ {W : Type 0} where
  -- `if err != nil { return err }`
  abbrev pub report : Option Error → Io W (Unit {0})
  report none = pure tt
  report (some e) = fail e

  -- `if err != nil && err != redis.Nil { return err }`
  abbrev pub report_unless_nil : Option Error → Io W (Unit {0})
  report_unless_nil (some redis_nil) = pure tt
  report_unless_nil e = report e
