-- ===== src/Github/Pages.antt =====
-- internal/github/rest.go and graphql.go: the loops over the pages of an answer.
pub mod Refusals
pub mod Chain
pub mod Bounds
mod Tests
use Prim.Native.String
use differ_nvim.Common.{
  ℕ, zero, suc, String, Bool, true, false, Option, none, some, List, [], ◌∷◌, ◌++◌, ◌==◌,
  if◌then◌else◌,
}
use differ_nvim.Common.Int.{ℤ}
use differ_nvim.Github.Dtos.{PageInfo}
use differ_nvim.Github.Errors.{HttpResponse}
use differ_nvim.Github.Links.{next_link}
use differ_nvim.Github.Client.{
  Env, M, ◌>>=◌, ◌>>◌, bind_result, pure, check, check_go, check_url, get, Sent, send, rest_media,
  Decoded, lift_decoded, graphql, Vars, next_cursor, var, text,
}
use differ_nvim.Github.Reviews.{pr_vars, text_arg}

-- `maxPages` of `getPaged`
abbrev pub max_pages : ℕ
max_pages = 100

-- `gqlMaxPages`
abbrev pub gql_max_pages : ℕ
gql_max_pages = 100

-- `nextLink(resp.Header.Get("Link"))`; `send` has a response where it has no error.
abbrev pub next_of : Option HttpResponse → String
next_of none = ""
next_of (some resp) = next_link (resp.header "Link")

abbrev pub cursor_arg : String → Vars
cursor_arg cursor = if cursor == "" then [] else text_arg "cursor" cursor ∷ []

module _ (env : Env) where
  open env use {url_error, token_err}

  -- The body of the loop of `getPaged`: the items of a page, and the URL of the next one or "".
  unfoldable pub fetch_page :
      {A : Type 0} → (String → Decoded (List A)) → String → M (List A × String)
  fetch_page decode raw_url = do
    check_url (url_error raw_url)
    r ← send env (get raw_url (rest_media env))
    check r.failure
    items ← lift_decoded "decoding response: " (decode r.body)
    pure (items, next_of r.response)

  -- The loop of `getPaged`, over the pages that it may still fetch.
  unfoldable pub paged_loop :
      {A : Type 0} → ℕ → (String → Decoded (List A)) → String → List A → M (List A)
  paged_loop zero decode raw_url all = pure all
  paged_loop (suc pages) decode raw_url all =
      if raw_url == ""
      then pure all
      else (do page ← fetch_page decode raw_url; paged_loop pages decode page.1 (all ++ page.0))

  -- `getPaged`
  unfoldable pub get_paged : {A : Type 0} → (String → Decoded (List A)) → String → M (List A)
  get_paged decode raw_url = do check_go token_err; paged_loop max_pages decode raw_url []

  -- One page of a GraphQL connection: the variables are the pull request, and the cursor unless it
  -- is "".
  unfoldable pub query_page :
      {P : Type 0} → (String → Decoded P) → String → String → String → ℤ → String → M P
  query_page decode document owner repo n cursor =
      graphql env decode document (pr_vars owner repo n ++ cursor_arg cursor)

-- The end of a round: the walk stops, or goes on at the next cursor.
abbrev pub go_on : {S : Type 0} → Option String → S → (String → M S) → M S
go_on none acc more = pure acc
go_on (some next) acc more = more next

-- `for range gqlMaxPages { … }` of `GetPR`, `GetThreads` and `GetTimeline`, over the pages that it may
-- still fetch. `page` is the fetch, `take` the loop's body behind it, which sees whether the page
-- is the first one by the cursor, and `info` finds the `pageInfo`.
unfoldable pub walk :
    {P S : Type 0} → ℕ → (String → M P) → (P → PageInfo) → (String → P → S → S) → String → S → M S
walk zero page info take cursor acc = pure acc
walk (suc pages) page info take cursor acc = do
  p ← page cursor
  go_on (next_cursor cursor (info p)) (take cursor p acc)
      (λ next. walk pages page info take next (take cursor p acc))
