-- ===== src/External/Structs.antt =====
-- What job_dispatcher.go and decode.go take of the packages reflect, encoding/json and simplejson.
use go_workers.Prelude.{◌≡◌, ◌⊎◌, String, Bool, true, false, List, [], ◌∷◌, All}
use go_workers.Effect.{Outcome, ok}
use go_workers.External.Platform.{Platform}

-- `json_name` is the name that encoding/json knows the field by: that of its tag, or its own.
pub record StructField : Type 0 where
  pub name : String
  pub exported : Bool
  pub json_name : String

pub record Structs (p : Platform) : Type 1 where
  -- a value of a struct type
  pub Struct : Type 0
  -- Json.Array
  pub array : p.Json → Outcome (List p.Json)
  -- json.Marshal of a map, by its entries
  pub marshal : List (String × p.Json) → Outcome String
  -- json.Unmarshal into a new struct with these fields
  pub unmarshal : List StructField → String → Outcome Struct

abbrev pub Among : StructField → List StructField → Type 0
Among f [] = ⊥
Among f (g ∷ gs) = (f ≡ g) ⊎ Among f gs

-- encoding/json: a key goes to the field whose name it is, but for the case of letters
-- (`equal_fold`); a field that no key goes to keeps its zero value.
pub record Matched {p : Platform} (structs : Structs p) : Type 0 where
  pub equal_fold : String → String → Bool
  pub is_zero : structs.Struct → StructField → Bool
  pub unmatched :
      (fs : List StructField) (entries : List (String × p.Json)) (text : String)
      (v : structs.Struct) (f : StructField)
      → Among f fs
      → structs.marshal entries ≡ ok text
      → structs.unmarshal fs text ≡ ok v
      → All (λ e. equal_fold e.0 f.json_name ≡ false) entries
      → is_zero v f ≡ true
