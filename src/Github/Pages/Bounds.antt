-- ===== src/Github/Pages/Bounds.antt =====
-- internal/github/rest.go, graphql.go, prs.go, threads.go, timeline.go and checks.go: how many calls a read
-- makes, and that it makes no other calls than reads.
use differ_nvim.Common.{
  ◌≡◌, refl, ℕ, zero, suc, ◌+◌, String, false, not, Option, none, some, List, [], ◌++◌, ◌==◌,
  if◌then◌else◌, if_both, arith,
}
use differ_nvim.Common.Int.{ℤ}
use differ_nvim.Github.Documents.{
  is_mutation, get_pr_query, get_threads_query, get_timeline_query, get_pending_review_query,
  get_checks_query,
}
use differ_nvim.Github.Dtos.{PageInfo}
use differ_nvim.Github.Client.{M, Env, Decoded, next_cursor}
use differ_nvim.Github.Client.Reads.{same, is_read}
use differ_nvim.Github.Client.Calls.{
  ReadsAtMost, bounded_bind, bounded_le, bounded_after, bounded_pure, bounded_fail, bounded_check,
  bounded_check_go, bounded_check_url, bounded_decoded, bounded_send, bounded_get_json,
  bounded_graphql,
}
use differ_nvim.Github.Conversation.{get_threads, get_pending_review, get_timeline, get_checks}
use differ_nvim.Github.Pages.{fetch_page, paged_loop, get_paged, query_page, walk, go_on, max_pages}
use differ_nvim.Github.Pulls.{
  known_viewer, memoise_viewer, ask_viewer, viewer_login, known_filter, list_by, list_prs, get_pr,
}
use differ_nvim.Github.Reviews.{require}

bounded_go_on :
    {S : Type 0} (n : ℕ) (o : Option String) (acc : S) (k : String → M S)
    → ((next : String) → ReadsAtMost n (k next))
    → ReadsAtMost n (go_on o acc k)
bounded_go_on n none acc k h = bounded_le 0 n _ (omega arith) (bounded_pure acc)
bounded_go_on n (some next) acc k h = h next

-- A walk makes one call for each page that it may fetch.
bounded_walk :
    {P S : Type 0} (pages : ℕ) (page : String → M P) (info : P → PageInfo)
    (take : String → P → S → S) (cursor : String) (acc : S)
    → ((c : String) → ReadsAtMost 1 (page c))
    → ReadsAtMost pages (walk pages page info take cursor acc)
unfolding walk
bounded_walk zero page info take cursor acc h = bounded_pure acc
bounded_walk (suc pages) page info take cursor acc h =
    bounded_le (1 + pages) (suc pages) _ (omega arith) (
      bounded_bind 1 pages _ _ (h cursor) (λ p.
        bounded_go_on pages (next_cursor cursor (info p)) (take cursor p acc) _
          (λ next. bounded_walk pages page info take next (take cursor p acc) h)))

bounded_known : ReadsAtMost 0 known_viewer
unfolding known_viewer
bounded_known = record { reads = λ s. same; few = λ s. omega arith }

bounded_memoise : (login : String) → ReadsAtMost 0 (memoise_viewer login)
unfolding memoise_viewer
bounded_memoise login = record { reads = λ s. same; few = λ s. omega arith }

bounded_require : (id code message : String) → ReadsAtMost 0 (require id code message)
bounded_require id code message =
    if_both (ReadsAtMost 0) (id == "") _ _ (bounded_fail code message) (bounded_pure tt)

module _ (env : Env) where
  bounded_page :
      {A : Type 0} (decode : String → Decoded (List A)) (url : String)
      → ReadsAtMost 1 (fetch_page env decode url)
  unfolding fetch_page is_read
  bounded_page decode url = bounded_after 1 _ _ (bounded_check_url _) (λ _.
      bounded_bind 1 0 _ _ (bounded_send env _ refl) (λ r.
        bounded_after 0 _ _ (bounded_check r.failure)
          (λ _. bounded_after 0 _ _ (bounded_decoded _ (decode r.body)) (λ items. bounded_pure _))))

  bounded_paged_loop :
      {A : Type 0} (pages : ℕ) (decode : String → Decoded (List A)) (url : String) (all : List A)
      → ReadsAtMost pages (paged_loop env pages decode url all)
  unfolding paged_loop
  bounded_paged_loop zero decode url all = bounded_pure all
  bounded_paged_loop (suc pages) decode url all =
      if_both (ReadsAtMost (suc pages)) (url == "") _ _
        (bounded_le 0 (suc pages) _ (omega arith) (bounded_pure all))
        (bounded_le (1 + pages) (suc pages) _ (omega arith) (
          bounded_bind 1 pages _ _ (bounded_page decode url)
            (λ page. bounded_paged_loop pages decode page.1 (all ++ page.0))))

  bounded_paged :
      {A : Type 0} (decode : String → Decoded (List A)) (url : String)
      → ReadsAtMost 100 (get_paged env decode url)
  unfolding get_paged
  bounded_paged decode url =
      bounded_after 100 _ _ (bounded_check_go env.token_err)
        (λ _. bounded_paged_loop max_pages decode url [])

  bounded_query :
      {P : Type 0} (decode : String → Decoded P) (document owner repo : String) (n : ℤ)
      (cursor : String)
      → is_mutation document ≡ false
      → ReadsAtMost 1 (query_page env decode document owner repo n cursor)
  unfolding query_page
  bounded_query decode document owner repo n cursor h = bounded_graphql env _ _ _ h

  bounded_viewer : ReadsAtMost 1 (viewer_login env)
  unfolding viewer_login ask_viewer
  bounded_viewer = bounded_after 1 _ _ bounded_known (λ login.
      if_both (ReadsAtMost 1) (not (login == "")) _ _
        (bounded_le 0 1 _ (omega arith) (bounded_pure login))
        (bounded_bind 1 0 _ _ (bounded_get_json env _ _) (λ found.
          bounded_after 0 _ _ (bounded_require _ _ _)
            (λ _. bounded_after 0 _ _ (bounded_memoise found) (λ _. bounded_pure found)))))

  list_prs-ReadsAtMost :
      (owner repo filter : String) → ReadsAtMost 101 (list_prs env owner repo filter)
  unfolding list_prs list_by
  list_prs-ReadsAtMost owner repo filter =
      let f = if filter == "" then "open" else filter in
      if_both (ReadsAtMost 101) (not (known_filter f)) _ _
        (bounded_le 0 101 _ (omega arith) (bounded_fail _ _))
        (bounded_bind 100 1 _ _ (bounded_paged _ _) (λ pulls.
          bounded_bind 1 0 _ _
            (if_both (ReadsAtMost 1) (f == "open") _ _
              (bounded_le 0 1 _ (omega arith) (bounded_pure "")) bounded_viewer)
            (λ viewer. bounded_pure _)))

  get_pr-ReadsAtMost : (owner repo : String) (n : ℤ) → ReadsAtMost 200 (get_pr env owner repo n)
  unfolding get_pr is_mutation
  get_pr-ReadsAtMost owner repo n =
      bounded_bind 100 100 _ _
        (bounded_walk 100 _ _ _ "" _ (λ c. bounded_query _ get_pr_query owner repo n c refl))
        (λ found. bounded_bind 100 0 _ _ (bounded_paged _ _) (λ files. bounded_pure _))

  conversation-ReadsAtMost :
      (owner repo : String) (n : ℤ)
      → ReadsAtMost 100 (get_threads env owner repo n)
        × ReadsAtMost 100 (get_timeline env owner repo n)
        × ReadsAtMost 1 (get_pending_review env owner repo n)
        × ReadsAtMost 1 (get_checks env owner repo n)
  unfolding get_threads get_timeline get_pending_review get_checks is_mutation
  conversation-ReadsAtMost owner repo n = (
    bounded_walk 100 _ _ _ "" _ (λ c. bounded_query _ get_threads_query owner repo n c refl),
    bounded_walk 100 _ _ _ "" _ (λ c. bounded_query _ get_timeline_query owner repo n c refl),
    bounded_bind 1 0 _ _ (bounded_graphql env _ get_pending_review_query _ refl)
        (λ reviews. bounded_pure _),
    bounded_bind 1 0 _ _ (bounded_graphql env _ get_checks_query _ refl) (λ page. bounded_pure _),
  )

  -- However GitHub links its pages and sets its cursors, each of the paged reads comes to its end after a
  -- bounded number of calls, and all of them only read: 101 for `ListPRs`, of which one is to learn who
  -- the viewer is; 200 for `GetPR`; 100 for `GetThreads` and for `GetTimeline`; one for
  -- `GetPendingReview` and for `GetChecks`.
  pub calls-ReadsAtMost :
      (owner repo filter : String) (n : ℤ)
      → ReadsAtMost 101 (list_prs env owner repo filter)
        × ReadsAtMost 200 (get_pr env owner repo n)
        × ReadsAtMost 100 (get_threads env owner repo n)
        × ReadsAtMost 100 (get_timeline env owner repo n)
        × ReadsAtMost 1 (get_pending_review env owner repo n)
        × ReadsAtMost 1 (get_checks env owner repo n)
  calls-ReadsAtMost owner repo filter n =
      let talk = conversation-ReadsAtMost owner repo n in
      (
        list_prs-ReadsAtMost owner repo filter,
        get_pr-ReadsAtMost owner repo n,
        talk.0,
        talk.1,
        talk.2,
        talk.3,
      )
