-- ===== src/Github/Comments.antt =====
-- internal/github/comments.go: posting and deleting comments.
pub mod Routes
use Prim.Native.String
use differ_nvim.Common.{
  ℕ, String, Bool, true, false, Option, none, some, List, [], ◌∷◌, ◌++◌, ◌==◌, not, if◌then◌else◌,
}
use differ_nvim.Common.Int.{ℤ, pos, eqb_ℤ}
use differ_nvim.Common.Text.{parse_id}
use differ_nvim.Protocol.{code_bad_request}
use differ_nvim.Github.Documents.{
  add_thread_mutation, publish_comment_mutation, add_thread_reply_mutation,
  add_issue_comment_mutation, delete_comment_mutation,
}
use differ_nvim.Github.Results.{PostComment, PostCommentInput, PostIssueComment}
use differ_nvim.Github.Client.{
  Env, M, ◌>>=◌, ◌>>◌, bind_result, pure, fail_with, graphql, graphql_nil, Var, text, number, Arg,
  var, drafts, Vars,
}
use differ_nvim.Github.Reviews.{
  text_arg, optional_arg, first_or_empty, require, pr_and_pending_review, pr_node_id,
}

-- `parseID` of the first node, 0 if there is none.
abbrev pub first_id : List String → ℤ
first_id [] = pos 0
first_id (id ∷ _) = parse_id id

-- The side of the start of a range: its own, or that of its end.
abbrev pub start_side_of : PostCommentInput → String
start_side_of i = if i.start_side == "" then i.side else i.start_side

-- The start of a range, for a comment that has one.
unfoldable pub range_vars : PostCommentInput → List (String × Var)
range_vars i =
    if eqb_ℤ i.start_line (pos 0)
    then []
    else ("startLine", number i.start_line) ∷ ("startSide", text (start_side_of i)) ∷ []

abbrev pub as_args : List (String × Var) → Vars
as_args [] = []
as_args ((k, v) ∷ l) = (k, var v) ∷ as_args l

unfoldable pub thread_vars : PostCommentInput → List (String × Var)
unfolding range_vars
thread_vars i =
    ("path", text i.path)
    ∷ ("line", number i.line)
    ∷ ("side", text i.side)
    ∷ ("body", text i.body)
    ∷ range_vars i

module _ (env : Env) where
  open env use {codec}

  -- `replyToThread`
  unfoldable pub reply_to_thread : PostCommentInput → M PostComment
  reply_to_thread i = do
    id ← graphql env codec.database_id add_thread_reply_mutation (
        text_arg "threadId" i.in_reply_to
        ∷ text_arg "body" i.body
        ∷ optional_arg "reviewId" i.review_id)
    pure (record { id = parse_id id; thread_id = i.in_reply_to; review_id = "" })

  -- `draftThread`
  unfoldable pub draft_thread : PostCommentInput → M PostComment
  draft_thread i = do
    t ←
        graphql env codec.add_thread add_thread_mutation
          (text_arg "reviewId" i.review_id ∷ as_args (thread_vars i))
    require t.id code_bad_request
        "line could not be resolved: the comment must anchor to a line in the diff"
    pure (record { id = first_id t.comments; thread_id = t.id; review_id = "" })

  -- The half of `postNewThread` that publishes at once.
  unfoldable pub publish_comment : String → PostCommentInput → M PostComment
  publish_comment pr_id i = do
    ids ←
        graphql env codec.comment_ids publish_comment_mutation
          (text_arg "prId" pr_id ∷ ("threads", drafts (thread_vars i ∷ [])) ∷ [])
    pure (record { id = first_id ids; thread_id = ""; review_id = "" })

  -- The half that joins the viewer's draft.
  unfoldable pub join_draft : String → PostCommentInput → M PostComment
  join_draft pending i = do
    pc ← draft_thread (record i { review_id = pending })
    pure (record pc { review_id = pending })

  -- `postNewThread`
  unfoldable pub post_new_thread : String → String → ℤ → PostCommentInput → M PostComment
  post_new_thread owner repo n i = do
    found ← pr_and_pending_review env owner repo n
    if found.1 == "" then publish_comment found.0 i else join_draft found.1 i

  -- `PostComment`
  unfoldable pub post_comment : String → String → ℤ → PostCommentInput → M PostComment
  post_comment owner repo n i =
      if not (i.in_reply_to == "")
      then reply_to_thread i
      else if not (i.review_id == "")
      then draft_thread i
      else post_new_thread owner repo n i

  -- `PostIssueComment`
  unfoldable pub post_issue_comment : String → String → ℤ → String → M PostIssueComment
  post_issue_comment owner repo n body = do
    pr_id ← pr_node_id env owner repo n
    id ←
        graphql env codec.database_id add_issue_comment_mutation
          (text_arg "subjectId" pr_id ∷ text_arg "body" body ∷ [])
    pure (record { id = parse_id id })

  -- `DeleteComment`
  unfoldable pub delete_comment : String → M (Unit {0})
  delete_comment id = graphql_nil env delete_comment_mutation (text_arg "id" id ∷ [])
