-- ===== src/Github/Documents.antt =====
-- internal/github/queries.go and mutations.go: the texts of the GraphQL documents.
use Prim.Native.String.{String}
use mathlib.Core.Bool.{Bool}
use Prim.Native.Nat.{ℕ}
use text.Mathlib.Text.{starts_with}

-- The inner comments cap of the threads query.
abbrev pub thread_comments_page : ℕ
thread_comments_page = 100

abbrev pub get_pr_query : String
get_pr_query =
    "\nquery GetPR($owner: String!, $repo: String!, $number: Int!, $cursor: String) {\n  repository(owner: $owner, name: $repo) {\n    pullRequest(number: $number) {\n      title\n      body\n      url\n      state\n      isDraft\n      mergeable\n      baseRefOid\n      headRefOid\n      headRefName\n      author { login }\n      files(first: 100, after: $cursor) {\n        nodes {\n          path\n          viewerViewedState\n        }\n        pageInfo {\n          hasNextPage\n          endCursor\n        }\n      }\n    }\n  }\n}"

abbrev pub get_threads_query : String
get_threads_query =
    "\nquery GetThreads($owner: String!, $repo: String!, $number: Int!, $cursor: String) {\n  repository(owner: $owner, name: $repo) {\n    pullRequest(number: $number) {\n      reviewThreads(first: 100, after: $cursor) {\n        nodes {\n          id\n          isResolved\n          isOutdated\n          path\n          line\n          startLine\n          originalLine\n          diffSide\n          startDiffSide\n          comments(first: 100) {\n            nodes {\n              id\n              fullDatabaseId\n              author { login }\n              body\n              createdAt\n              state\n              diffHunk\n            }\n          }\n          newestComment: comments(last: 1) {\n            nodes {\n              id\n              body\n            }\n          }\n        }\n        pageInfo {\n          hasNextPage\n          endCursor\n        }\n      }\n    }\n  }\n}"

abbrev pub get_pending_review_query : String
get_pending_review_query =
    "\nquery GetPendingReview($owner: String!, $repo: String!, $number: Int!) {\n  repository(owner: $owner, name: $repo) {\n    pullRequest(number: $number) {\n      reviews(first: 1, states: [PENDING]) {\n        nodes {\n          id\n          comments(first: 100) {\n            nodes {\n              fullDatabaseId\n              path\n              line\n              startLine\n              body\n            }\n          }\n        }\n      }\n    }\n  }\n}"

abbrev pub get_timeline_query : String
get_timeline_query =
    "\nquery GetTimeline($owner: String!, $repo: String!, $number: Int!, $cursor: String) {\n  repository(owner: $owner, name: $repo) {\n    pullRequest(number: $number) {\n      comments(first: 100, after: $cursor) {\n        nodes {\n          author { login }\n          body\n          createdAt\n        }\n        pageInfo { hasNextPage endCursor }\n      }\n      reviews(first: 100) {\n        nodes {\n          author { login }\n          state\n          body\n          submittedAt\n        }\n      }\n    }\n  }\n}"

abbrev pub get_checks_query : String
get_checks_query =
    "\nquery GetChecks($owner: String!, $repo: String!, $number: Int!) {\n  repository(owner: $owner, name: $repo) {\n    pullRequest(number: $number) {\n      commits(last: 1) {\n        nodes {\n          commit {\n            statusCheckRollup {\n              state\n              contexts(first: 100) {\n                nodes {\n                  __typename\n                  ... on CheckRun {\n                    name\n                    status\n                    conclusion\n                    detailsUrl\n                    startedAt\n                  }\n                  ... on StatusContext {\n                    context\n                    state\n                    targetUrl\n                    createdAt\n                  }\n                }\n              }\n            }\n          }\n        }\n      }\n    }\n  }\n}"

abbrev pub start_review_lookup_query : String
start_review_lookup_query =
    "\nquery StartReviewLookup($owner: String!, $repo: String!, $number: Int!) {\n  repository(owner: $owner, name: $repo) {\n    pullRequest(number: $number) {\n      id\n      reviews(first: 1, states: [PENDING]) {\n        nodes { id }\n      }\n    }\n  }\n}"

abbrev pub add_review_mutation : String
add_review_mutation =
    "\nmutation AddReview($prId: ID!) {\n  addPullRequestReview(input: {pullRequestId: $prId}) {\n    pullRequestReview { id }\n  }\n}"

abbrev pub publish_comment_mutation : String
publish_comment_mutation =
    "\nmutation PublishComment($prId: ID!, $threads: [DraftPullRequestReviewThread!]) {\n  addPullRequestReview(input: {pullRequestId: $prId, event: COMMENT, threads: $threads}) {\n    pullRequestReview {\n      comments(first: 1) { nodes { fullDatabaseId } }\n    }\n  }\n}"

abbrev pub submit_review_mutation : String
submit_review_mutation =
    "\nmutation SubmitReview($reviewId: ID!, $event: PullRequestReviewEvent!, $body: String) {\n  submitPullRequestReview(input: {pullRequestReviewId: $reviewId, event: $event, body: $body}) {\n    pullRequestReview { fullDatabaseId }\n  }\n}"

abbrev pub delete_review_mutation : String
delete_review_mutation =
    "\nmutation DeleteReview($reviewId: ID!) {\n  deletePullRequestReview(input: {pullRequestReviewId: $reviewId}) {\n    pullRequestReview { id }\n  }\n}"

abbrev pub pr_node_id_query : String
pr_node_id_query =
    "\nquery PRNodeID($owner: String!, $repo: String!, $number: Int!) {\n  repository(owner: $owner, name: $repo) {\n    pullRequest(number: $number) { id }\n  }\n}"

abbrev pub add_thread_mutation : String
add_thread_mutation =
    "\nmutation AddThread($reviewId: ID!, $path: String!, $body: String!, $line: Int!, $side: DiffSide!, $startLine: Int, $startSide: DiffSide) {\n  addPullRequestReviewThread(input: {pullRequestReviewId: $reviewId, path: $path, body: $body, line: $line, side: $side, startLine: $startLine, startSide: $startSide}) {\n    thread {\n      id\n      comments(first: 1) { nodes { fullDatabaseId } }\n    }\n  }\n}"

abbrev pub delete_comment_mutation : String
delete_comment_mutation =
    "\nmutation DeleteComment($id: ID!) {\n  deletePullRequestReviewComment(input: {id: $id}) {\n    pullRequestReview { id }\n  }\n}"

abbrev pub add_thread_reply_mutation : String
add_thread_reply_mutation =
    "\nmutation AddThreadReply($threadId: ID!, $reviewId: ID, $body: String!) {\n  addPullRequestReviewThreadReply(input: {pullRequestReviewThreadId: $threadId, pullRequestReviewId: $reviewId, body: $body}) {\n    comment { fullDatabaseId }\n  }\n}"

abbrev pub add_issue_comment_mutation : String
add_issue_comment_mutation =
    "\nmutation AddIssueComment($subjectId: ID!, $body: String!) {\n  addComment(input: {subjectId: $subjectId, body: $body}) {\n    commentEdge { node { fullDatabaseId } }\n  }\n}"

abbrev pub resolve_thread_mutation : String
resolve_thread_mutation =
    "\nmutation Resolve($threadId: ID!) {\n  result: resolveReviewThread(input: {threadId: $threadId}) {\n    thread { isResolved }\n  }\n}"

abbrev pub unresolve_thread_mutation : String
unresolve_thread_mutation =
    "\nmutation Unresolve($threadId: ID!) {\n  result: unresolveReviewThread(input: {threadId: $threadId}) {\n    thread { isResolved }\n  }\n}"

abbrev pub mark_file_viewed_mutation : String
mark_file_viewed_mutation =
    "\nmutation MarkViewed($prId: ID!, $path: String!) {\n  markFileAsViewed(input: {pullRequestId: $prId, path: $path}) { clientMutationId }\n}"

abbrev pub unmark_file_viewed_mutation : String
unmark_file_viewed_mutation =
    "\nmutation UnmarkViewed($prId: ID!, $path: String!) {\n  unmarkFileAsViewed(input: {pullRequestId: $prId, path: $path}) { clientMutationId }\n}"

abbrev pub merge_lookup_query : String
merge_lookup_query =
    "\nquery MergeLookup($owner: String!, $repo: String!, $number: Int!) {\n  repository(owner: $owner, name: $repo) {\n    pullRequest(number: $number) {\n      id\n      merged\n      mergeable\n      mergeStateStatus\n      headRef { id }\n    }\n  }\n}"

abbrev pub merge_pr_mutation : String
merge_pr_mutation =
    "\nmutation Merge($prId: ID!, $method: PullRequestMergeMethod!, $headline: String, $body: String) {\n  mergePullRequest(input: {pullRequestId: $prId, mergeMethod: $method, commitHeadline: $headline, commitBody: $body}) {\n    pullRequest {\n      merged\n      mergeCommit { oid }\n    }\n  }\n}"

abbrev pub delete_ref_mutation : String
delete_ref_mutation =
    "\nmutation DeleteRef($refId: ID!) {\n  deleteRef(input: {refId: $refId}) { clientMutationId }\n}"

abbrev pub ready_for_review_mutation : String
ready_for_review_mutation =
    "\nmutation Ready($prId: ID!) {\n  result: markPullRequestReadyForReview(input: {pullRequestId: $prId}) { pullRequest { state isDraft } }\n}"

abbrev pub convert_to_draft_mutation : String
convert_to_draft_mutation =
    "\nmutation Draft($prId: ID!) {\n  result: convertPullRequestToDraft(input: {pullRequestId: $prId}) { pullRequest { state isDraft } }\n}"

abbrev pub close_pr_mutation : String
close_pr_mutation =
    "\nmutation Close($prId: ID!) {\n  result: closePullRequest(input: {pullRequestId: $prId}) { pullRequest { state isDraft } }\n}"

abbrev pub reopen_pr_mutation : String
reopen_pr_mutation =
    "\nmutation Reopen($prId: ID!) {\n  result: reopenPullRequest(input: {pullRequestId: $prId}) { pullRequest { state isDraft } }\n}"

-- A document that may change something at GitHub: its operation is a mutation.
unfoldable pub is_mutation : String → Bool
is_mutation document = starts_with document "\nmutation "
