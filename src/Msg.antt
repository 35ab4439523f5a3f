-- ===== src/Msg.antt =====
-- msg.go: a job's message, its JSON document with the text that it was read from.
use go_workers.Prelude.{String, Bool, true, Option, none, some}
use go_workers.Prelude.Int.{ℤ, pos}
use go_workers.Effect.{Outcome, ok, err, panic, spin}
use go_workers.External.Platform.{Platform}

-- The pointer to the document is shared by nobody else, so that a message is a value.
pub record Msg (p : Platform) : Type 0 where
  pub json : p.Json
  pub original : String
  pub ack : Bool
  pub started_at : ℤ

-- `json, err := d.Encode()`: an error is only logged
unfoldable pub json_text : (p : Platform) → p.Json → String
json_text p j = (p.encode j).0

-- `newData`
unfoldable pub new_data : (p : Platform) → String → Outcome p.Json
new_data p content = p.new_json content

-- `MustString`: the empty text if the field is no text
unfoldable pub must_string : (p : Platform) → p.Json → String
must_string p j = elim (p.as_string j).1 [ none ↦ (p.as_string j).0 | some e ↦ "" ]

module _ {p : Platform} where
  unfoldable pub new_msg : String → Outcome (Msg p)
  unfolding new_data
  new_msg content = elim (new_data p content) [
    | ok json ↦ ok (record { json = json; original = content; ack = true; started_at = pos 0 })
    | err e ↦ err e
    | panic e ↦ panic e
    | spin ↦ spin
  ]

  unfoldable pub class : Msg p → String
  unfolding must_string
  class m = must_string p (p.get m.json "class")

  unfoldable pub jid : Msg p → String
  unfolding must_string
  jid m = must_string p (p.get m.json "jid")

  -- A missing "args" is the document that newData reads from "[]", nil if that failed.
  unfoldable pub args : Msg p → Option p.Json
  unfolding new_data
  args m = elim (p.check_get m.json "args") [
    | some j ↦ some j
    | none ↦ elim (new_data p "[]") [ ok j ↦ some j | err e ↦ none | panic e ↦ none | spin ↦ none ]
  ]

  unfoldable pub original_json : Msg p → String
  original_json m = m.original

  unfoldable pub to_json : Msg p → String
  unfolding json_text
  to_json m = json_text p m.json

  -- `message.Set(key, value)`
  unfoldable pub set_field : String → p.Json → Msg p → Msg p
  set_field k v m = record m { json = p.set m.json k v }
