-- ===== src/Dispatch/Filled.antt =====
-- Which arguments of a job go to which fields of a struct (decode.go).
use go_workers.Prelude.{
  ◌≡◌, refl, ap, sym, ◌∙◌, String, true, false, List, [], ◌∷◌, All, arith, inl, inr, Bool-cases,
}
use go_workers.Effect.{Outcome, ok, err, panic, spin}
use go_workers.External.Platform.{Platform}
use go_workers.External.Structs.{StructField, Structs, Among, Matched}
use go_workers.Dispatch.{Target, fill, wrapped, then_ok, decode_sidekiq_args}

-- The names of the exported fields, in order.
abbrev pub exported_names : List StructField → List String
exported_names [] = []
exported_names (f ∷ fs) =
    let rest = exported_names fs in elim f.exported [ true ↦ f.name ∷ rest | false ↦ rest ]

-- The first with the first, and so on, as long as both last.
abbrev pub paired {ℓ κ} : {A : Type ℓ} {B : Type κ} → List A → List B → List (A × B)
paired [] ys = []
paired (x ∷ xs) [] = []
paired (x ∷ xs) (y ∷ ys) = (x, y) ∷ paired xs ys

paired-nil : {A : Type 0} (ns : List String) → paired {B = A} ns [] ≡ []
paired-nil [] = refl
paired-nil (n ∷ ns) = refl

fill-paired :
    {A : Type 0} (fs : List StructField) (arr : List A)
    → fill fs arr ≡ paired (exported_names fs) arr
unfolding fill
fill-paired [] arr = refl
fill-paired (f ∷ fs) [] = sym (paired-nil (exported_names (f ∷ fs)))
fill-paired (f ∷ fs) (a ∷ arr) = ground (arith, fill-paired fs (a ∷ arr), fill-paired fs arr)

-- Keys of the entries that a decoding writes are names of exported fields.
fill-All :
    {A : Type 0} (P : String → Type 0) (fs : List StructField) (arr : List A)
    → All (λ f. f.exported ≡ true → P f.name) fs
    → All (λ e. P e.0) (fill fs arr)
unfolding fill
fill-All P [] arr h = tt
fill-All P (f ∷ fs) [] h = tt
fill-All P (f ∷ fs) (a ∷ arr) h = elim (Bool-cases f.exported) [
  | inl e ↦ rw e (h.0 e, fill-All P fs arr h.1)
  | inr e ↦ rw e (fill-All P fs (a ∷ arr) h.1)
]

then_ok-ok :
    {A B : Type 0} (o : Outcome A) (f : A → Outcome B) (b : B)
    → then_ok o f ≡ ok b
    → (a : A) × (o ≡ ok a) × (f a ≡ ok b)
then_ok-ok (ok a) f b e = (a, refl, e)
then_ok-ok (err x) f b e = cc e
then_ok-ok (panic q) f b e = cc e
then_ok-ok spin f b e = cc e

pub wrapped-ok :
    {A : Type 0} (words : String) (o : Outcome A) (a : A) → wrapped words o ≡ ok a → o ≡ ok a
unfolding wrapped
wrapped-ok words (ok b) a e = e
wrapped-ok words (err x) a e = cc e
wrapped-ok words (panic q) a e = cc e
wrapped-ok words spin a e = cc e

module _ {p : Platform} (structs : Structs p) where
  -- The calls of a decoding that gives a value
  decoded_by :
      (args : p.Json) (fields : List StructField) (v : structs.Struct)
      → decode_sidekiq_args structs args (Target.pointer_to_struct fields) ≡ ok v
      → (arr : List p.Json) × (json : String) × (structs.array args ≡ ok arr)
        × (structs.marshal (fill fields arr) ≡ ok json)
        × (structs.unmarshal fields json ≡ ok v)
  unfolding decode_sidekiq_args
  decoded_by args fields v e =
      let read = wrapped "failed to decode JSON array: " (structs.array args) in
      let made : List p.Json → Outcome String = λ arr.
        wrapped "failed to marshal intermediate JSON: " (structs.marshal (fill fields arr)) in
      let got : String → Outcome structs.Struct = λ json.
        wrapped "failed to unmarshal into target struct: " (structs.unmarshal fields json) in
      let a = then_ok-ok read (λ arr. then_ok (made arr) got) v e in
      let b = then_ok-ok (made a.0) got v a.2 in
      (
        a.0,
        b.0,
        wrapped-ok "failed to decode JSON array: " (structs.array args) a.0 a.1,
        wrapped-ok "failed to marshal intermediate JSON: " (structs.marshal (fill fields a.0)) b.0
            b.1,
        wrapped-ok "failed to unmarshal into target struct: " (structs.unmarshal fields b.0) v b.2,
      )

  -- Decoding arguments into a struct gives a value only as follows: the arguments are an array,
  -- and the value is what JSON reads from the object in which the first exported field has the first
  -- argument, the second the second, and so on, as long as both last.
  pub decodes_in_order :
      (args : p.Json) (fields : List StructField) (v : structs.Struct)
      → decode_sidekiq_args structs args (Target.pointer_to_struct fields) ≡ ok v
      → (arr : List p.Json) × (json : String) × (structs.array args ≡ ok arr)
        × (structs.marshal (paired (exported_names fields) arr) ≡ ok json)
        × (structs.unmarshal fields json ≡ ok v)
  decodes_in_order args fields v e =
      let by = decoded_by args fields v e in
      (by.0, by.1, by.2, ap structs.marshal (sym (fill-paired fields by.0)) ∙ by.3, by.4)

  -- A field whose name in JSON is, whatever the case of letters, the name of no exported field of
  -- its struct, as a tag can make it, is zero in what is decoded, whatever the arguments are.
  pub renamed_dropped :
      (m : Matched structs) (args : p.Json) (fields : List StructField) (f : StructField)
      (v : structs.Struct)
      → Among f fields
      → All (λ g. g.exported ≡ true → m.equal_fold g.name f.json_name ≡ false) fields
      → decode_sidekiq_args structs args (Target.pointer_to_struct fields) ≡ ok v
      → m.is_zero v f ≡ true
  renamed_dropped m args fields f v among apart e =
      let by = decoded_by args fields v e in
      m.unmatched fields (fill fields by.0) by.1 v f among by.3 by.4
        (fill-All (λ k. m.equal_fold k f.json_name ≡ false) fields by.0 apart)
