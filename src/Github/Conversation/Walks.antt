-- ===== src/Github/Conversation/Walks.antt =====
-- internal/github/threads.go and timeline.go: `GetThreads` and `GetTimeline` over the pages that GitHub
-- answers.
use differ_nvim.Common.{
  ◌≡◌, refl, ◌∙◌, ◌≤◌, ◌⊎◌, String, Bool, true, false, List, [], ◌∷◌, ◌++◌, ◌==◌, map, map-append,
  length, append-nil, append_assoc,
}
use differ_nvim.Common.Int.{ℤ}
use differ_nvim.Protocol.{ok}
use differ_nvim.Github.Dtos.{ThreadNode, ThreadsGql, TimelineNode, ReviewNode, TimelineGql}
use differ_nvim.Github.Results.{Thread, Timeline}
use differ_nvim.Github.Documents.{get_threads_query, get_timeline_query}
use differ_nvim.Github.Client.{Env, Session, M}
use differ_nvim.Github.Pages.{query_page}
use differ_nvim.Github.Pages.Chain.{
  Walked, final, more, cut, gathered, walk-Walked, next_cursor-not_empty,
}
use differ_nvim.Github.Conversation.{
  to_thread, add_threads, to_timeline_comment, submitted_reviews, add_timeline, get_threads,
  get_timeline,
}

-- The thread nodes of all pages, in order, and the comments of all pages of a timeline.
unfoldable pub thread_nodes : List (String × ThreadsGql) → List ThreadNode
thread_nodes [] = []
thread_nodes ((c, p) ∷ l) = p.nodes ++ thread_nodes l

unfoldable pub comment_nodes : List (String × TimelineGql) → List TimelineNode
comment_nodes [] = []
comment_nodes ((c, p) ∷ l) = p.comments ++ comment_nodes l

gathered-add_threads :
    (l : List (String × ThreadsGql)) (out : List Thread)
    → gathered add_threads l out ≡ out ++ map to_thread (thread_nodes l)
unfolding gathered add_threads thread_nodes
gathered-add_threads [] out = rw append-nil
gathered-add_threads ((c, p) ∷ l) out =
    gathered-add_threads l (out ++ map to_thread p.nodes) ∙ rw (append_assoc, map-append)

gathered-later :
    (ask : String → M TimelineGql) (out : Timeline) {c : String} {s t : Session}
    {l : List (String × TimelineGql)} {b : Bool}
    → (c == "") ≡ false
    → Walked ask (λ p. p.page_info) c s l b t
    → gathered add_timeline l out
      ≡ record out { comments = out.comments ++ map to_timeline_comment (comment_nodes l) }
unfolding gathered add_timeline comment_nodes
gathered-later ask out some_cursor (cut c s) = rw append-nil
gathered-later ask out some_cursor (final c s p t asked last) = rw (some_cursor, append-nil)
gathered-later ask out some_cursor (more c s p next u {l} asked on rest) = rw some_cursor (
    gathered-later ask _ (next_cursor-not_empty c p.page_info next on) rest
    ∙ rw (append_assoc, map-append))

unfoldable pub first_reviews : List (String × TimelineGql) → List ReviewNode
first_reviews [] = []
first_reviews ((c, p) ∷ l) = p.reviews

-- What `GetTimeline` is to make of the pages.
unfoldable pub timeline_of : List (String × TimelineGql) → Timeline
timeline_of l = record {
  comments = map to_timeline_comment (comment_nodes l);
  reviews = submitted_reviews (first_reviews l);
}

gathered-add_timeline :
    (ask : String → M TimelineGql) {c : String} {s t : Session} {l : List (String × TimelineGql)}
    {b : Bool}
    → (c == "") ≡ true
    → Walked ask (λ q. q.page_info) c s l b t
    → gathered add_timeline l (record { comments = []; reviews = [] }) ≡ timeline_of l
unfolding gathered add_timeline comment_nodes first_reviews timeline_of submitted_reviews
gathered-add_timeline ask at_first (cut c s) = refl
gathered-add_timeline ask at_first (final c s p t asked last) = rw (at_first, append-nil)
gathered-add_timeline ask at_first (more c s p next u {l} asked on rest) =
    rw at_first
      (gathered-later ask _ (next_cursor-not_empty c p.page_info next on) rest ∙ rw map-append)

module _ (env : Env) (owner repo : String) (n : ℤ) where
  -- Where GitHub answers the pages, `GetThreads` gives the threads of all of them, in order. The walk ends
  -- within 100 pages, or is cut there.
  pub get_threads-Walked :
      {s t : Session} {l : List (String × ThreadsGql)} {b : Bool}
      → Walked
          (query_page env env.codec.threads get_threads_query owner repo n)
          (λ p. p.page_info)
          ""
          s
          l
          b
          t
      → length l ≤ 100
      → (b ≡ true) ⊎ (length l ≡ 100)
      → get_threads env owner repo n s ≡ (ok (map to_thread (thread_nodes l)), t)
  unfolding get_threads
  get_threads-Walked {l = l} walked few ended =
      walk-Walked _ _ add_threads 100 [] walked few ended ∙ rw gathered-add_threads

  -- Where GitHub answers the pages, `GetTimeline` gives the comments of all of them, in order, and of the
  -- reviews on the first page those that are no draft and no bare comment; the reviews that later pages
  -- repeat are not added again. The walk ends within 100 pages, or is cut there.
  pub get_timeline-Walked :
      {s t : Session} {l : List (String × TimelineGql)} {b : Bool}
      → Walked
          (query_page env env.codec.timeline get_timeline_query owner repo n)
          (λ p. p.page_info)
          ""
          s
          l
          b
          t
      → length l ≤ 100
      → (b ≡ true) ⊎ (length l ≡ 100)
      → get_timeline env owner repo n s ≡ (ok (timeline_of l), t)
  unfolding get_timeline
  get_timeline-Walked walked few ended =
      walk-Walked _ _ add_timeline 100 _ walked few ended ∙ rw (gathered-add_timeline _ refl walked)
