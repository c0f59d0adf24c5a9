-- ===== src/Github/Pages/Refusals.antt =====
-- internal/github/rest.go, graphql.go, prs.go, threads.go, timeline.go and checks.go: the errors of the
-- paged reads, and that they send nothing without a token.
use differ_nvim.Common.{
  ◌≡◌, refl, ℕ, zero, suc, String, not, Option, none, some, List, [], ◌++◌, ◌==◌, if◌then◌else◌,
  if_both,
}
use differ_nvim.Common.Int.{ℤ}
use differ_nvim.Protocol.{GoError}
use differ_nvim.Github.Dtos.{PageInfo}
use differ_nvim.Github.Client.{M, Env, Decoded, next_cursor}
use differ_nvim.Github.Client.Closed.{
  Orderly, ClosedGo, fine, closed_bind, closed_then, closed_pure, closed_fail, closed_check,
  closed_after_token, closed_check_url, closed_decoded, closed_bind_send, closed_get_json,
  closed_graphql,
}
use differ_nvim.Github.Conversation.{get_threads, get_pending_review, get_timeline, get_checks}
use differ_nvim.Github.Pages.{fetch_page, paged_loop, get_paged, query_page, walk, go_on, max_pages}
use differ_nvim.Github.Pulls.{
  known_viewer, memoise_viewer, ask_viewer, viewer_login, known_filter, list_by, list_prs, get_pr,
}
use differ_nvim.Github.Reviews.Refusals.{closed_require}

closed_go_on :
    {S : Type 0} {token_err : Option GoError} (o : Option String) (acc : S) (more : String → M S)
    → ((next : String) → Orderly token_err (more next))
    → Orderly token_err (go_on o acc more)
closed_go_on none acc more h = closed_pure acc
closed_go_on (some next) acc more h = h next

pub closed_walk :
    {P S : Type 0} {o : Option GoError} (pages : ℕ) (page : String → M P) (info : P → PageInfo)
    (take : String → P → S → S) (cursor : String) (acc : S)
    → ((c : String) → Orderly o (page c))
    → Orderly o (walk pages page info take cursor acc)
unfolding walk
closed_walk zero page info take cursor acc h = closed_pure acc
closed_walk (suc pages) page info take cursor acc h = closed_bind _ _ (h cursor) (λ p.
    closed_go_on (next_cursor cursor (info p)) (take cursor p acc) _
      (λ next. closed_walk pages page info take next (take cursor p acc) h))

closed_known : {o : Option GoError} → Orderly o known_viewer
unfolding known_viewer
closed_known = record { at = λ s. fine _; silent = λ s no. refl; within = λ s w. w }

closed_memoise : {o : Option GoError} (login : String) → Orderly o (memoise_viewer login)
unfolding memoise_viewer
closed_memoise login = record { at = λ s. fine tt; silent = λ s no. refl; within = λ s w. w }

module _ (env : Env) where
  closed_page :
      {A : Type 0} (decode : String → Decoded (List A)) (url : String)
      → env.token_err ≡ none
      → Orderly env.token_err (fetch_page env decode url)
  unfolding fetch_page
  closed_page decode url known = closed_then _ _ (closed_check_url _) (
      closed_bind_send env _ _ known (λ r h.
        closed_then _ _ (closed_check r.failure h)
          (closed_bind _ _ (closed_decoded _ (decode r.body)) (λ items. closed_pure _))))

  closed_paged_loop :
      {A : Type 0} (pages : ℕ) (decode : String → Decoded (List A)) (url : String) (all : List A)
      → env.token_err ≡ none
      → Orderly env.token_err (paged_loop env pages decode url all)
  unfolding paged_loop
  closed_paged_loop zero decode url all known = closed_pure all
  closed_paged_loop (suc pages) decode url all known =
      if_both (Orderly _) (url == "") _ _ (closed_pure all) (
        closed_bind _ _ (closed_page decode url known)
          (λ page. closed_paged_loop pages decode page.1 (all ++ page.0) known))

  module _ (token : ClosedGo env.token_err) where
    closed_paged :
        {A : Type 0} (decode : String → Decoded (List A)) (url : String)
        → Orderly env.token_err (get_paged env decode url)
    unfolding get_paged
    closed_paged decode url =
        closed_after_token env.token_err _ token
          (λ known. closed_paged_loop max_pages decode url [] known)

    closed_query :
        {P : Type 0} (decode : String → Decoded P) (document owner repo : String) (n : ℤ)
        (cursor : String)
        → Orderly env.token_err (query_page env decode document owner repo n cursor)
    unfolding query_page
    closed_query decode document owner repo n cursor = closed_graphql env token _ _ _

    closed_viewer : Orderly env.token_err (viewer_login env)
    unfolding viewer_login ask_viewer
    closed_viewer = closed_bind _ _ closed_known (λ login.
        if_both (Orderly _) (not (login == "")) _ _ (closed_pure login) (
          closed_bind _ _ (closed_get_json env token _ _) (λ found.
            closed_then _ _ (closed_require _ _ _ (record { listed = refl }))
              (closed_then _ _ (closed_memoise found) (closed_pure found)))))

    pub closed_list_prs :
        (owner repo filter : String) → Orderly env.token_err (list_prs env owner repo filter)
    unfolding list_prs list_by
    closed_list_prs owner repo filter =
        let f = if filter == "" then "open" else filter in
        if_both (Orderly _) (not (known_filter f)) _ _ (closed_fail _ _ (record { listed = refl }))
          (closed_bind _ _ (closed_paged _ _) (λ pulls.
            closed_bind _ _ (if_both (Orderly _) (f == "open") _ _ (closed_pure "") closed_viewer)
              (λ viewer. closed_pure _)))

    pub closed_get_pr :
        (owner repo : String) (n : ℤ) → Orderly env.token_err (get_pr env owner repo n)
    unfolding get_pr
    closed_get_pr owner repo n =
        closed_bind _ _ (closed_walk _ _ _ _ _ _ (λ c. closed_query _ _ owner repo n c))
          (λ found. closed_bind _ _ (closed_paged _ _) (λ files. closed_pure _))

    pub closed_threads :
        (owner repo : String) (n : ℤ) → Orderly env.token_err (get_threads env owner repo n)
    unfolding get_threads
    closed_threads owner repo n = closed_walk _ _ _ _ _ _ (λ c. closed_query _ _ owner repo n c)

    pub closed_timeline :
        (owner repo : String) (n : ℤ) → Orderly env.token_err (get_timeline env owner repo n)
    unfolding get_timeline
    closed_timeline owner repo n = closed_walk _ _ _ _ _ _ (λ c. closed_query _ _ owner repo n c)

    pub closed_pending :
        (owner repo : String) (n : ℤ) → Orderly env.token_err (get_pending_review env owner repo n)
    unfolding get_pending_review
    closed_pending owner repo n =
        closed_bind _ _ (closed_graphql env token _ _ _) (λ reviews. closed_pure _)

    pub closed_checks :
        (owner repo : String) (n : ℤ) → Orderly env.token_err (get_checks env owner repo n)
    unfolding get_checks
    closed_checks owner repo n =
        closed_bind _ _ (closed_graphql env token _ _ _) (λ page. closed_pure _)
