-- ===== src/Api.antt =====
-- api_server.go, api_retries.go: the managers that the API knows, and the query of its retries.
pub mod Query
pub mod Server
pub mod Gathered
pub mod Restart
pub mod Answers
use go_workers.Prelude.{
  ℕ, String, ◌<>◌, Bool, true, false, not, Option, none, some, List, [], ◌∷◌, if◌then◌else◌, str_eq,
}
use go_workers.Prelude.Int.{ℤ, pos}
use go_workers.Effect.{Error}

-- strconv.ParseUint and strconv.ParseInt in base 10, and the text that fmt.Sprintf makes of a format
-- without arguments.
pub record Reader : Type 0 where
  pub parse_uint : String → ℕ × Option Error
  pub parse_int : String → ℤ × Option Error
  pub sprintf : String → String

-- The parameters of a URL, empty if missing.
pub record Url : Type 0 where
  pub q : String
  pub page : String
  pub page_size : String

-- The variables `pageVal` and `pageSizeVal` that are set inside the two tests are new ones: those
-- that are returned at the end are still zero.
unfoldable pub parse_url_query : Reader → Url → ℕ × ℤ × String
parse_url_query reader url =
    if str_eq url.q ""
    then (0, pos 10, url.q)
    else (let query = reader.sprintf ("*" <> (url.q <> "*")) in
        if str_eq url.page "" then (0, pos 10, query) else elim (reader.parse_uint url.page).1 [
          | some e ↦ ((reader.parse_uint url.page).0, pos 10, query)
          | none ↦
              if str_eq url.page_size ""
              then (0, pos 10, query)
              else elim (reader.parse_int url.page_size).1 [
                | some e ↦ (0, (reader.parse_int url.page_size).0, query)
                | none ↦ (0, pos 0, query)
              ]
        ])

module _ {M : Type 0} where
  -- `managers` of the server, a map by its entries
  unfoldable pub deregister_manager : (uuid : String) → List (String × M) → List (String × M)
  deregister_manager uuid [] = []
  deregister_manager uuid ((k, m) ∷ ms) =
      let rest = deregister_manager uuid ms in if str_eq k uuid then rest else (k, m) ∷ rest

  unfoldable pub register_manager : (uuid : String) → M → List (String × M) → List (String × M)
  unfolding deregister_manager
  register_manager uuid m ms = (uuid, m) ∷ deregister_manager uuid ms
