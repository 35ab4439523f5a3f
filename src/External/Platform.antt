-- ===== src/External/Platform.antt =====
-- float64, strconv and the JSON values of github.com/bitly/go-simplejson, as parameters of the
-- model: operations with the documented laws that the proofs use.
use go_workers.Prelude.{
  ℕ, ◌^◌, ◌≤◌, String, ◌≡◌, Bool, true, Option, none, List, str_eq, if◌then◌else◌,
}
use go_workers.Prelude.Int.{ℤ, pos}
use go_workers.Effect.{Error, Outcome}

pub record Platform : Type 1 where
  -- float64
  pub Float : Type 0
  pub of_int : ℤ → Float
  pub to_int : Float → ℤ
  pub add : Float → Float → Float
  pub div : Float → Float → Float
  pub pow : Float → Float → Float
  pub ltf : Float → Float → Bool
  -- strconv: FormatFloat(f, 'f', -1, 64), FormatInt, and ParseInt(s, 10, 64) with its error
  pub format_float : Float → String
  pub format_int : ℤ → String
  pub parse_int : String → ℤ × Option Error
  -- time.Unix(0, ns).UTC().Format(RetryTimeFormat), and Format("2006-01-02")
  pub format_time : ℤ → String
  pub format_day : ℤ → String
  -- simplejson.Json: NewJson, Encode, Get, CheckGet, Set, String, Bool, Int, Array
  pub Json : Type 0
  pub new_json : String → Outcome Json
  pub encode : Json → String × Option Error
  pub get : Json → String → Json
  pub check_get : Json → String → Option Json
  pub set : Json → String → Json → Json
  pub is_object : Json → Bool
  pub as_string : Json → String × Option Error
  pub as_bool : Json → Bool × Option Error
  pub as_int : Json → ℤ × Option Error
  -- Go values put into a document
  pub of_string : String → Json
  pub json_int : ℤ → Json
  pub json_float : Float → Json
  pub json_bool : Bool → Json
  pub json_object : List (String × Json) → Json

-- Documented laws: of float64 (integers to 2^53 are exact), and of a document's fields.
pub record Lawful (p : Platform) : Type 0 where
  pub pow_exact :
      (b e : ℕ)
      → b ^ e ≤ 2 ^ 53
      → p.to_int (p.pow (p.of_int (pos b)) (p.of_int (pos e))) ≡ pos (b ^ e)
  pub parse-format : (n : ℤ) → p.parse_int (p.format_int n) ≡ (n, none)
  pub get-set :
      (j : p.Json) (k l : String) (v : p.Json)
      → p.is_object j ≡ true
      → p.get (p.set j k v) l ≡ (if str_eq k l then v else p.get j l)
  pub set-object :
      (j : p.Json) (k : String) (v : p.Json)
      → p.is_object j ≡ true
      → p.is_object (p.set j k v) ≡ true
  pub as_string-of_string : (s : String) → p.as_string (p.of_string s) ≡ (s, none)
  pub as_int-json_int : (n : ℤ) → p.as_int (p.json_int n) ≡ (n, none)
  pub as_bool-json_bool : (b : Bool) → p.as_bool (p.json_bool b) ≡ (b, none)
