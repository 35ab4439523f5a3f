-- ===== src/Api/Query.antt =====
-- What the query of the API's retries gives (parseURLQuery of api_retries.go), and which managers
-- are registered (api_server.go).
use go_workers.Prelude.{
  ◌≡◌, String, false, Option, none, some, List, [], ◌∷◌, if◌then◌else◌, str_eq, arith, eq_iff,
  eq_refl, inl, inr, Bool-cases,
}
use go_workers.Prelude.Int.{pos}
use go_workers.Api.{Reader, Url, parse_url_query, register_manager, deregister_manager}

-- Where a URL has a text to look for, and a page and a page size that are both numbers, the query
-- asks for page 0 with 0 entries, whatever they are.
page_ignored :
    (reader : Reader) (url : Url)
    → str_eq url.q "" ≡ false
    → str_eq url.page "" ≡ false
    → str_eq url.page_size "" ≡ false
    → (reader.parse_uint url.page).1 ≡ none
    → (reader.parse_int url.page_size).1 ≡ none
    → ((parse_url_query reader url).0 ≡ 0) × ((parse_url_query reader url).1 ≡ pos 0)
unfolding parse_url_query
page_ignored reader url a b c d e = (ground arith, ground arith)

module _ {M : Type 0} where
  abbrev pub lookup : String → List (String × M) → Option M
  lookup k [] = none
  lookup k ((j, m) ∷ ms) = if str_eq j k then some m else lookup k ms

  lookup-deregister :
      (u k : String) (ms : List (String × M))
      → lookup k (deregister_manager u ms) ≡ (if str_eq u k then none else lookup k ms)
  unfolding deregister_manager
  lookup-deregister u k [] = ground arith
  lookup-deregister u k ((j, m) ∷ ms) = elim (Bool-cases (str_eq j u)) [
    | inl e ↦ ground (arith, lookup-deregister u k ms, eq_iff j u, eq_iff u k, eq_iff j k)
    | inr e ↦ ground (arith, lookup-deregister u k ms, eq_iff j u, eq_iff u k, eq_iff j k)
  ]

  -- A manager is found under its identifier as soon as it is registered and no longer when it is
  -- deregistered, and neither changes what is found under another identifier.
  registration :
      (u k : String) (m : M) (ms : List (String × M))
      → (lookup k (register_manager u m ms) ≡ (if str_eq u k then some m else lookup k ms))
        × (lookup k (deregister_manager u (register_manager u m ms))
            ≡ (if str_eq u k then none else lookup k ms))
  unfolding register_manager deregister_manager
  registration u k m ms = (
    ground (arith, lookup-deregister u k ms),
    ground (
      arith,
      lookup-deregister u k ms,
      lookup-deregister u k (deregister_manager u ms),
      eq_refl u,
    ),
  )
