-- ===== src/Demo.antt =====
-- .demo/fake-sidecar/fixtures.go: `fixture`, the stand-in for GitHub that the demo records against. The
-- mutex makes each operation one step. `ago` gives the time some hours before the start of the
-- process, `itoa` is `strconv.Itoa`. What takes no input but fixed data leaves out the parameters that
-- the code ignores.
mod Canned
pub mod Stamped
pub mod Drafts
mod Tests
use differ_nvim.Common.{
  ℕ, suc, ◌+◌, String, Bool, true, false, not, ◌&&◌, Option, none, some, List, [], ◌∷◌, ◌++◌, ◌==◌,
  map, if◌then◌else◌,
}
use differ_nvim.Common.Int.{ℤ, pos}
use differ_nvim.Github.Files.{◌·◌}
use differ_nvim.Github.Pulls.{Viewed, viewed_at, default_viewed}
use differ_nvim.Github.Results.{
  Pr, PrFile, PrDetail, FileBlob, FileVersions, NewestComment, ThreadComment, Thread,
  PendingComment, PendingReview, TimelineComment, ReviewSummary, Timeline, Check, Checks,
  StartReview, SubmitReview, PostCommentInput, PostComment, PostIssueComment, ResolveThread,
  SetFileViewed, Merge, SetPrState,
}
use differ_nvim.Demo.Canned.{
  base_sha, head_sha, pr_url, author, viewer, other, base_blobs, head_blobs,
}

-- `fixture`; `viewed` has the latest write first.
pub record Fixture : Type 0 where
  pub threads : List Thread
  pub comments : List TimelineComment
  pub review_id : String
  pub viewed : Viewed
  pub seq : ℕ

-- The fields that the demo leaves at their zero values.
abbrev pub bare_thread : Thread
bare_thread = record {
  id = pos 0;
  thread_id = "";
  path = "";
  side = "";
  line = pos 0;
  start_side = "";
  start_line = pos 0;
  outdated = false;
  original_line = pos 0;
  resolved = false;
  is_pending = false;
  comments = [];
  comments_truncated = false;
  newest_comment = none;
}

-- The state after `nextID`, whose result is `seq` there.
abbrev pub next_id : Fixture → Fixture
next_id f = record f { seq = suc f.seq }

-- `viewedState`
abbrev pub viewed_state : Fixture → String → String
viewed_state f path = default_viewed (viewed_at path f.viewed)

-- `blobAt`
unfoldable pub blob_at : List (String × String) → String → FileBlob
blob_at [] path = record { content = ""; missing = true }
blob_at ((k, content) ∷ blobs) path =
    if path == k then record { content = content; missing = false } else blob_at blobs path

unfoldable pub get_file_versions : String → String → FileVersions
unfolding blob_at base_blobs head_blobs
get_file_versions path base_path = record {
  base = blob_at base_blobs (if base_path == "" then path else base_path);
  head = blob_at head_blobs path;
  truncated = false;
}

-- The last comment of a thread as its newest one.
unfoldable pub newest_of : List ThreadComment → Option NewestComment
newest_of [] = none
newest_of (c ∷ []) = some (record { node_id = c.node_id; body = c.body })
newest_of (c ∷ d ∷ cs) = newest_of (d ∷ cs)

abbrev pub with_newest : Thread → Thread
with_newest t = elim (newest_of t.comments) [
  | none ↦ t
  | some n ↦ record t { newest_comment = some n }
]

-- `GetThreads`
unfoldable pub get_threads : Fixture → List Thread
unfolding newest_of
get_threads f = map with_newest f.threads

unfoldable pub pending_comments : List Thread → List PendingComment
pending_comments [] = []
pending_comments (t ∷ ts) =
    let rest = pending_comments ts in
    elim t.comments [
      | [] ↦ rest
      | c ∷ cs ↦
          if t.is_pending
          then record {
            id = c.id;
            path = t.path;
            side = t.side;
            line = t.line;
            start_side = "";
            start_line = pos 0;
            body = c.body;
          }
            ∷ rest
          else rest
    ]

-- `GetPendingReview`
unfoldable pub get_pending_review : Fixture → PendingReview
unfolding pending_comments
get_pending_review f =
    if f.review_id == ""
    then record { review_id = none; comments = [] }
    else record { review_id = some f.review_id; comments = pending_comments f.threads }

abbrev pub published : Thread → Thread
published t = record t { is_pending = false }

-- `SubmitReview`
unfoldable pub submit_review : Fixture → SubmitReview × Fixture
submit_review f = (
  record { id = pos (suc f.seq) },
  next_id (record f { threads = map published f.threads; review_id = "" }),
)

-- The loop of `DiscardReview`.
unfoldable pub kept_threads : List Thread → List Thread
kept_threads [] = []
kept_threads (t ∷ ts) = let rest = kept_threads ts in if not t.is_pending then t ∷ rest else rest

-- `DiscardReview`
unfoldable pub discard_review : Fixture → Fixture
unfolding kept_threads
discard_review f = record f { threads = kept_threads f.threads; review_id = "" }

-- The loop of `PostComment`: the comment joins the first thread with the id, if there is one.
unfoldable pub join_thread : String → ThreadComment → List Thread → Option (List Thread)
join_thread id c [] = none
join_thread id c (t ∷ ts) =
    let rest = join_thread id c ts in
    if t.thread_id == id
    then some (record t { comments = t.comments ++ c ∷ [] } ∷ ts)
    else elim rest [ none ↦ none | some us ↦ some (t ∷ us) ]

-- The loop of `DeleteComment` over the comments behind the first one.
unfoldable pub drop_comment : String → List ThreadComment → Option (List ThreadComment)
drop_comment id [] = none
drop_comment id (c ∷ cs) =
    let rest = drop_comment id cs in
    if c.node_id == id then some cs else elim rest [ none ↦ none | some ds ↦ some (c ∷ ds) ]

-- The loop of `DeleteComment`: a thread whose first comment goes is dropped.
unfoldable pub drop_from : String → List Thread → List Thread
unfolding drop_comment
drop_from id [] = []
drop_from id (t ∷ ts) =
    let rest = drop_from id ts in
    elim t.comments [
      | [] ↦ t ∷ rest
      | c ∷ cs ↦ if c.node_id == id then ts else elim (drop_comment id cs) [
        | none ↦ t ∷ rest
        | some ds ↦ record t { comments = c ∷ ds } ∷ ts
      ]
    ]

-- `DeleteComment`
unfoldable pub delete_comment : String → Fixture → Fixture
unfolding drop_from
delete_comment id f = record f { threads = drop_from id f.threads }

unfoldable pub resolve_first : String → Bool → List Thread → List Thread
resolve_first id resolved [] = []
resolve_first id resolved (t ∷ ts) =
    let rest = resolve_first id resolved ts in
    if t.thread_id == id then record t { resolved = resolved } ∷ ts else t ∷ rest

-- `ResolveThread`
unfoldable pub resolve_thread : String → Bool → Fixture → ResolveThread × Fixture
unfolding resolve_first
resolve_thread id resolved f =
    (record { resolved = resolved }, record f { threads = resolve_first id resolved f.threads })

-- `SetFileViewed`
unfoldable pub set_file_viewed : String → Bool → Fixture → SetFileViewed × Fixture
set_file_viewed path viewed f =
    let state = if viewed then "VIEWED" else "UNVIEWED" in
    (record { viewed_state = state }, record f { viewed = (path, state) ∷ f.viewed })

abbrev pub merge_pr : Merge
merge_pr = record { merged = true; sha = head_sha }

abbrev pub set_pr_state : String → SetPrState
set_pr_state state = record { state = state }

abbrev pub token_status : String × String
token_status = ("ok", "")
