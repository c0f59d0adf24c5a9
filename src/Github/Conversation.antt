-- ===== src/Github/Conversation.antt =====
-- internal/github/threads.go, timeline.go and checks.go: the reads of a review's conversation.
pub mod Walks
use differ_nvim.Common.{
  ℕ, String, Bool, true, false, ◌&&◌, ◌||◌, Option, none, some, List, [], ◌∷◌, ◌++◌, ◌==◌, map, leb,
  length, if◌then◌else◌,
}
use differ_nvim.Common.Int.{ℤ, pos}
use differ_nvim.Common.Text.{parse_id}
use differ_nvim.Github.Documents.{
  get_threads_query, get_pending_review_query, get_timeline_query, get_checks_query,
  thread_comments_page,
}
use differ_nvim.Github.Dtos.{
  CommentGql, NewestNode, ThreadNode, ThreadsGql, PendingNode, PendingReviewNode, TimelineNode,
  ReviewNode, TimelineGql, CheckContextGql, RollupGql, ChecksGql,
}
use differ_nvim.Github.Results.{
  NewestComment, ThreadComment, Thread, PendingComment, PendingReview, Check, Checks,
  TimelineComment, ReviewSummary, Timeline,
}
use differ_nvim.Github.Client.{Env, M, ◌>>=◌, bind_result, pure, graphql}
use differ_nvim.Github.Pages.{gql_max_pages, query_page, walk}
use differ_nvim.Github.Reviews.{pr_vars}

-- `deref`
unfoldable pub deref : Option ℤ → ℤ
deref none = pos 0
deref (some n) = n

abbrev pub to_comment : CommentGql → ThreadComment
to_comment c = record {
  id = parse_id c.full_database_id;
  node_id = c.id;
  author = c.author;
  body = c.body;
  created_at = c.created_at;
  diff_hunk = c.diff_hunk;
}

abbrev pub newest_of : List NewestNode → Option NewestComment
newest_of [] = none
newest_of (n ∷ _) = some (record { node_id = n.id; body = n.body })

-- The id and the draft state of a thread are those of its first comment.
abbrev pub root_id : List CommentGql → ℤ
root_id [] = pos 0
root_id (c ∷ _) = parse_id c.full_database_id

abbrev pub root_pending : List CommentGql → Bool
root_pending [] = false
root_pending (c ∷ _) = c.state == "PENDING"

-- The body of the loop of `GetThreads` over the nodes.
unfoldable pub to_thread : ThreadNode → Thread
unfolding deref
to_thread n = record {
  id = root_id n.comments;
  thread_id = n.id;
  path = n.path;
  side = n.diff_side;
  line = deref n.line;
  start_side = n.start_side;
  start_line = deref n.start_line;
  outdated = n.is_outdated;
  original_line = deref n.original_line;
  resolved = n.is_resolved;
  is_pending = root_pending n.comments;
  comments = map to_comment n.comments;
  comments_truncated = leb thread_comments_page (length n.comments);
  newest_comment = newest_of n.newest_comment;
}

-- A page of `GetThreads`, behind what earlier pages gave.
unfoldable pub add_threads : String → ThreadsGql → List Thread → List Thread
add_threads cursor page out = out ++ map to_thread page.nodes

abbrev pub to_pending_comment : PendingNode → PendingComment
to_pending_comment c = record {
  id = parse_id c.full_database_id;
  path = c.path;
  side = "";
  line = deref c.line;
  start_side = "";
  start_line = deref c.start_line;
  body = c.body;
}

-- `GetPendingReview` behind its query.
unfoldable pub pending_of : List PendingReviewNode → PendingReview
pending_of [] = record { review_id = none; comments = [] }
pending_of (r ∷ _) = record { review_id = some r.id; comments = map to_pending_comment r.comments }

abbrev pub to_timeline_comment : TimelineNode → TimelineComment
to_timeline_comment n = record { author = n.author; body = n.body; created_at = n.created_at }

-- The two tests of `GetTimeline` on a review: a draft, and a bare comment.
unfoldable pub skipped_review : ReviewNode → Bool
skipped_review n =
    n.submitted_at == "" || (n.body == "" && (n.state == "" || n.state == "COMMENTED"))

abbrev pub to_review : ReviewNode → ReviewSummary
to_review n = record {
  author = n.author;
  state = n.state;
  body = n.body;
  created_at = n.submitted_at;
}

unfoldable pub submitted_reviews : List ReviewNode → List ReviewSummary
submitted_reviews [] = []
submitted_reviews (n ∷ ns) =
    let rest = submitted_reviews ns in if skipped_review n then rest else to_review n ∷ rest

-- A page of `GetTimeline`: its comments, and the reviews of the first page.
unfoldable pub add_timeline : String → TimelineGql → Timeline → Timeline
unfolding submitted_reviews
add_timeline cursor page out = record {
  comments = out.comments ++ map to_timeline_comment page.comments;
  reviews = if cursor == "" then out.reviews ++ submitted_reviews page.reviews else out.reviews;
}

-- The status that `normaliseCheck` derives for a `StatusContext`.
abbrev pub context_status : String → String
context_status state = if state == "PENDING" || state == "EXPECTED" then "PENDING" else "COMPLETED"

-- `normaliseCheck`
unfoldable pub normalise_check : CheckContextGql → Check
normalise_check n =
    if n.typename == "StatusContext"
    then record {
      name = n.context;
      status = context_status n.state;
      conclusion = n.state;
      url = n.target_url;
      started_at = n.created_at;
    }
    else record {
      name = n.name;
      status = n.status;
      conclusion = n.conclusion;
      url = n.details_url;
      started_at = n.started_at;
    }

abbrev pub rollup_checks : Option RollupGql → Checks
rollup_checks none = record { rollup = ""; checks = [] }
rollup_checks (some r) = record { rollup = r.state; checks = map normalise_check r.contexts }

-- `GetChecks` behind its query.
unfoldable pub checks_of : List (Option RollupGql) → Checks
unfolding normalise_check
checks_of [] = record { rollup = ""; checks = [] }
checks_of (r ∷ _) = rollup_checks r

module _ (env : Env) where
  open env use {codec}

  -- `GetThreads`
  unfoldable pub get_threads : String → String → ℤ → M (List Thread)
  get_threads owner repo n =
      walk gql_max_pages (query_page env codec.threads get_threads_query owner repo n)
        (λ page. page.page_info) add_threads "" []

  -- `GetPendingReview`
  unfoldable pub get_pending_review : String → String → ℤ → M PendingReview
  get_pending_review owner repo n = do
    reviews ← graphql env codec.pending_review get_pending_review_query (pr_vars owner repo n)
    pure (pending_of reviews)

  -- `GetTimeline`
  unfoldable pub get_timeline : String → String → ℤ → M Timeline
  get_timeline owner repo n =
      walk gql_max_pages (query_page env codec.timeline get_timeline_query owner repo n)
        (λ page. page.page_info) add_timeline "" (record { comments = []; reviews = [] })

  -- `GetChecks`
  unfoldable pub get_checks : String → String → ℤ → M Checks
  get_checks owner repo n = do
    page ← graphql env codec.checks get_checks_query (pr_vars owner repo n)
    pure (checks_of page.commits)
