-- ===== src/Tests/Instances.antt =====
-- A platform of whole numbers and flat text, and a Redis server in memory that never fails.
use Prim.Native.Char.{code}
use Prim.Native.String.{[], ◌∷◌}
use go_workers.Prelude.{
  ℕ, zero, suc, ◌^◌, ◌≡◌, refl, ap, String, Bool, true, false, Option, none, some, List, ◌==◌,
  if◌then◌else◌, str_eq, inl,
}
use go_workers.Prelude.Int.{ℤ, pos, negsuc, pos_part, ◌+ℤ◌, ltb_ℤ}
use go_workers.Effect.{Error, error, ok, err}
use go_workers.External.Platform.{Platform, Lawful}
use go_workers.External.Redis.{Redis, Documented}
use go_workers.External.Keyspace.{
  Keyspace, push, move, drop_last, items, count_items, add_member, find_due, drop_member,
  count_members, all_members, set_add, set_remove, set_items, increment, counter, set_fields,
  get_fields, delete,
}

-- JSON documents: a field that was set last is found first.
mutual
  pub data Document : Type 0 where
    null : Document
    text : String → Document
    int : ℤ → Document
    flag : Bool → Document
    object : Fields → Document

  pub data Fields : Type 0 where
    end : Fields
    entry : String → Document → Fields → Fields

abbrev look : String → Fields → Document
look k end = null
look k (entry j v fs) = if str_eq j k then v else look k fs

abbrev find : String → Fields → Option Document
find k end = none
find k (entry j v fs) = if str_eq j k then some v else find k fs

abbrev wrong_type {ℓ} : {A : Type ℓ} → A → A × Option Error
wrong_type a = (a, some (error "type assertion failed"))

abbrev get : Document → String → Document
get (object fs) k = look k fs
get _ k = null

abbrev check_get : Document → String → Option Document
check_get (object fs) k = find k fs
check_get _ k = none

abbrev set : Document → String → Document → Document
set (object fs) k v = object (entry k v fs)
set j k v = j

abbrev is_object : Document → Bool
is_object (object fs) = true
is_object _ = false

abbrev as_string : Document → String × Option Error
as_string (text s) = (s, none)
as_string _ = wrong_type ""

abbrev as_bool : Document → Bool × Option Error
as_bool (flag b) = (b, none)
as_bool _ = wrong_type false

abbrev as_int : Document → ℤ × Option Error
as_int (int n) = (n, none)
as_int _ = wrong_type (pos 0)

abbrev fields_of : List (String × Document) → Fields
fields_of List.[] = end
fields_of (List.◌∷◌ (k, v) fs) = entry k v (fields_of fs)

-- Numbers in unary.
abbrev unary : ℕ → String
unary zero = []
unary (suc n) = "1" ∷ unary n

abbrev size : String → ℕ
size [] = 0
size (c ∷ s) = suc (size s)

abbrev pub format : ℤ → String
format (pos n) = unary n
format (negsuc n) = "-" ∷ unary n

abbrev pub parse : String → ℤ
parse [] = pos 0
parse (c ∷ s) = if code c == b'-' then negsuc (size s) else pos (suc (size s))

size-unary : (n : ℕ) → size (unary n) ≡ n
size-unary zero = refl
size-unary (suc n) = ap suc (size-unary n)

pub parse-format : (n : ℤ) → parse (format n) ≡ n
parse-format (pos zero) = refl
parse-format (pos (suc n)) = ap (λ (k : ℕ). pos (suc k)) (size-unary n)
parse-format (negsuc n) = ap negsuc (size-unary n)

-- Every text but "bad" and "again" is read as one job of the queue "q".
abbrev pub job : Document
job = object (entry "queue" (text "q") (entry "retry" (flag true) end))

-- That job after its first failure, which is written as "again"
abbrev pub again : Document
again = object (
    entry "retry_count" (int (pos 0)) (
      entry "failed_at" (text "now") (
        entry "error_message" (text "no route") (
          entry "queue" (text "app:q")
            (entry "queue" (text "q") (entry "retry" (flag true) end))))))

abbrev pub written_as : Option Document → String
written_as none = "job"
written_as (some j) = "again"

abbrev pub tiny : Platform
tiny = record {
  Float = ℤ;
  of_int = λ n. n;
  to_int = λ n. n;
  add = ◌+ℤ◌;
  div = λ a b. a;
  pow = λ a b. pos (pos_part a ^ pos_part b);
  ltf = ltb_ℤ;
  format_float = format;
  format_int = format;
  parse_int = λ s. (parse s, none);
  format_time = λ n. "now";
  format_day = λ n. "today";
  Json = Document;
  new_json = λ s.
      if str_eq s "bad"
      then err (error "invalid JSON")
      else if str_eq s "again"
      then ok again
      else ok job;
  encode = λ j. (written_as (check_get j "error_message"), none);
  get = get;
  check_get = check_get;
  set = set;
  is_object = is_object;
  as_string = as_string;
  as_bool = as_bool;
  as_int = as_int;
  of_string = text;
  json_int = int;
  json_float = int;
  json_bool = flag;
  json_object = λ fs. object (fields_of fs);
}

get-set :
    (j : Document) (k l : String) (v : Document)
    → is_object j ≡ true
    → get (set j k v) l ≡ (if str_eq k l then v else get j l)
get-set (object fs) k l v h = refl
get-set _ k l v h = cc

set-object :
    (j : Document) (k : String) (v : Document) → is_object j ≡ true → is_object (set j k v) ≡ true
set-object (object fs) k v h = refl
set-object _ k v h = cc

pub tiny-Lawful : Lawful tiny
tiny-Lawful = record {
  pow_exact = λ b e h. refl;
  parse-format = λ n. ap (λ (k : ℤ). (k, none)) (parse-format n);
  get-set = get-set;
  set-object = set-object;
  as_string-of_string = λ s. refl;
  as_int-json_int = λ n. refl;
  as_bool-json_bool = λ b. refl;
}

abbrev pub Memory : Type 0
Memory = Keyspace ℤ

abbrev pub in_memory : Redis tiny
in_memory = record {
  Db = Memory;
  brpoplpush = λ src dst t. move src dst;
  lpush = push;
  lrem = λ k n m. drop_last k m;
  lrange = λ k i j. items k;
  llen = count_items;
  zadd = add_member ltb_ℤ;
  zrangebyscore = λ k min max i n. find_due ltb_ℤ k (parse max);
  zrem = drop_member;
  zcard = count_members;
  zrange = λ k i j. all_members k;
  sadd = set_add;
  srem = set_remove;
  smembers = set_items;
  incr = increment;
  get = counter format;
  hmset = set_fields format;
  hmget = get_fields;
  del = delete;
  time = λ d. (ok (pos 100), d);
  ping = λ d. (ok tt, d);
  now = λ d. (ok (pos 7), d);
}

abbrev pub in_memory-Documented : Documented in_memory
in_memory-Documented = record {
  view = λ d. d;
  brpoplpush_doc = λ src dst t d. inl (refl, refl);
  lpush_doc = λ k m d. inl (refl, refl);
  lrem_doc = λ k m d. inl (refl, refl);
  lrange_doc = λ k d. inl (refl, refl);
  llen_doc = λ k d. inl (refl, refl);
  zadd_doc = λ k s m d. inl (refl, refl);
  zrangebyscore_doc = λ k max d. inl (
    ap (λ (m : ℤ). (find_due ltb_ℤ k m d).0) (parse-format max),
    ap (λ (m : ℤ). (find_due ltb_ℤ k m d).1) (parse-format max),
  );
  zrem_doc = λ k m d. inl (refl, refl);
  zcard_doc = λ k d. inl (refl, refl);
  zrange_doc = λ k d. inl (refl, refl);
  sadd_doc = λ k m d. inl (refl, refl);
  srem_doc = λ k m d. inl (refl, refl);
  smembers_doc = λ k d. inl (refl, refl);
  incr_doc = λ k d. inl (refl, refl);
  get_doc = λ k d. inl (refl, refl);
  hmset_doc = λ k fs d. inl (refl, refl);
  hmget_doc = λ k fs d. inl (refl, refl);
  del_doc = λ k d. inl (refl, refl);
  time_doc = λ d. refl;
  ping_doc = λ d. refl;
  now_doc = λ d. (pos 7, refl);
}
