-- ===== src/Handlers/Mutations.antt =====
-- internal/handlers/mutate_comments.go, mutate_pr.go, mutate_reviews.go, mutate_threads.go,
-- read_files.go and cache.go: the methods behind their `decode`, in the checks' order.
use differ_nvim.Common.{String, Bool, Option, none, some, ◌==◌, if◌then◌else◌}
use differ_nvim.Protocol.{Error, code_bad_request}
use differ_nvim.Github.Client.{Env, M, ◌>>=◌, ◌>>◌, bind_result, pure, fail_with, check}
use differ_nvim.Github.Client
use differ_nvim.Github.Comments
use differ_nvim.Github.Files
use differ_nvim.Github.Reviews
use differ_nvim.Github.Results.{
  FileVersions, StartReview, SubmitReview, PostComment, PostCommentInput, PostIssueComment,
  ResolveThread, SetFileViewed, Merge, SetPrState,
}
use differ_nvim.Handlers.{
  PrParams, FileVersionsParams, SubmitReviewParams, DiscardReviewParams, PostCommentParams,
  IssueCommentParams, DeleteCommentParams, ResolveThreadParams, FileViewedParams, MergeParams,
  PrStateParams, demand, require_pr, require_text, valid_review_event, valid_pr_state, merge_method,
  validate_anchor, guard_head,
}

-- The input of `PostComment`, field by field.
unfoldable pub comment_input : PostCommentParams → PostCommentInput
comment_input p = record {
  path = p.path;
  side = p.side;
  line = p.line;
  body = p.body;
  start_side = p.start_side;
  start_line = p.start_line;
  in_reply_to = p.in_reply_to;
  review_id = p.review_id;
}

-- The anchor of a new thread; a reply has none.
unfoldable pub anchor_check : PostCommentParams → Option Error
anchor_check p = if p.in_reply_to == "" then validate_anchor p else none

module _ (env : Env) where
  -- `getFileVersions`
  unfoldable pub get_file_versions : Bool → FileVersionsParams → M FileVersions
  get_file_versions base_first p = do
    check (require_pr p.pr)
    check (require_text p.path "path is required")
    Files.get_file_versions env base_first p.pr.owner p.pr.repo p.pr.number p.path p.previous_path
        p.base p.head

  -- `startReview`
  unfoldable pub start_review : PrParams → M StartReview
  start_review p = do check (require_pr p); Reviews.start_review env p.owner p.repo p.number

  -- `submitReview`
  unfoldable pub submit_review : SubmitReviewParams → M SubmitReview
  submit_review p = do
    check (require_pr p.pr)
    check (require_text p.review_id "review_id is required")
    check (demand (valid_review_event p.event) "event must be APPROVE, REQUEST_CHANGES, or COMMENT")
    guard_head env p.pr p.expected_head
    Reviews.submit_review env p.review_id p.event p.body

  -- `discardReview`
  unfoldable pub discard_review : DiscardReviewParams → M (Unit {0})
  discard_review p = do
    check (require_pr p.pr)
    check (require_text p.review_id "review_id is required")
    Reviews.discard_review env p.review_id

  -- `postComment`
  unfoldable pub post_comment : PostCommentParams → M PostComment
  post_comment p = do
    check (require_pr p.pr)
    check (require_text p.body "body is required")
    check (anchor_check p)
    guard_head env p.pr p.expected_head
    Comments.post_comment env p.pr.owner p.pr.repo p.pr.number (comment_input p)

  -- `postIssueComment`
  unfoldable pub post_issue_comment : IssueCommentParams → M PostIssueComment
  post_issue_comment p = do
    check (require_pr p.pr)
    check (require_text p.body "body is required")
    Comments.post_issue_comment env p.pr.owner p.pr.repo p.pr.number p.body

  -- `deleteComment`
  unfoldable pub delete_comment : DeleteCommentParams → M (Unit {0})
  delete_comment p = do
    check (require_pr p.pr)
    check (require_text p.comment_id "comment_id is required")
    Comments.delete_comment env p.comment_id

  -- `resolveThread`
  unfoldable pub resolve_thread : ResolveThreadParams → M ResolveThread
  resolve_thread p = do
    check (require_pr p.pr)
    check (require_text p.thread_id "thread_id is required")
    Reviews.resolve_thread env p.thread_id p.resolved

  -- `setFileViewed`
  unfoldable pub set_file_viewed : FileViewedParams → M SetFileViewed
  set_file_viewed p = do
    check (require_pr p.pr)
    check (require_text p.path "path is required")
    Reviews.set_file_viewed env p.pr.owner p.pr.repo p.pr.number p.path p.viewed

  abbrev pub merge_with : Option String → MergeParams → M Merge
  merge_with none p = fail_with code_bad_request "method must be squash, merge, or rebase"
  merge_with (some method) p =
      Reviews.merge_pr env p.pr.owner p.pr.repo p.pr.number method p.delete_branch p.subject p.body

  -- `mergePR`
  unfoldable pub merge_pr : MergeParams → M Merge
  merge_pr p = do check (require_pr p.pr); merge_with (merge_method p.method) p

  -- `setPRState`
  unfoldable pub set_pr_state : PrStateParams → M SetPrState
  set_pr_state p = do
    check (require_pr p.pr)
    check (demand (valid_pr_state p.state) "state must be ready, draft, closed, or open")
    Reviews.set_pr_state env p.pr.owner p.pr.repo p.pr.number p.state

-- `cacheClear`
unfoldable pub cache_clear : M (Unit {0})
cache_clear = Client.clear_cache
