-- ===== src/Github/Reviews/Refusals.antt =====
-- internal/github/reviews.go, comments.go, state.go, viewed.go, merge.go and files.go: the errors of the
-- operations, that they send nothing without a token, and that they keep the cache.
use differ_nvim.Common.{
  refl, String, Bool, Option, none, some, ◌==◌, ◌&&◌, not, if◌then◌else◌, if_both,
}
use differ_nvim.Common.Int.{ℤ}
use differ_nvim.Protocol.{
  Error, GoError, Result, ok, err, IsClosed, code_conflict, code_bad_request, code_not_found,
  code_internal,
}
use differ_nvim.Protocol
use differ_nvim.Github.Dtos.{MergeLookupGql}
use differ_nvim.Github.Results.{Merge, PostCommentInput}
use differ_nvim.Github.Client.{M, Env}
use differ_nvim.Github.Client.Closed.{
  Orderly, ClosedOption, no_error, an_error, ClosedGo, fine, closed_bind, closed_then, closed_pure,
  closed_fail, closed_check, closed_get_json, closed_graphql, closed_graphql_nil,
}
use differ_nvim.Github.Reviews.{
  require, merge_blocked, pr_state_mutation, pr_and_pending_review, create_review, start_review,
  submit_review, discard_review, pr_node_id, set_file_viewed, resolve_thread, change_state,
  set_pr_state, ignoring_error, delete_branch_after, perform_merge, merge_pr,
}
use differ_nvim.Github.Comments.{
  reply_to_thread, draft_thread, publish_comment, join_draft, post_new_thread, post_comment,
  post_issue_comment, delete_comment,
}
use differ_nvim.Github.Files.{pr_refs, head_sha}

pub closed_require :
    {o : Option GoError} (id code message : String)
    → IsClosed code
    → Orderly o (require id code message)
closed_require id code message h =
    if_both (Orderly _) (id == "") _ _ (closed_fail code message h) (closed_pure tt)

conflict_if :
    (b : Bool) (m : String) (o : Option Error)
    → ClosedOption o
    → ClosedOption (if b then some (Protocol.new_error code_conflict m) else o)
conflict_if b m o h = if_both ClosedOption b _ o (an_error _ (record { listed = refl })) h

merge_blocked-closed : (mergeable status : String) → ClosedOption (merge_blocked mergeable status)
unfolding merge_blocked
merge_blocked-closed mergeable status = conflict_if (mergeable == "CONFLICTING") _ _ (
    conflict_if (status == "DIRTY") _ _ (
      conflict_if (status == "BLOCKED") _ _
        (conflict_if (status == "BEHIND") _ _ (conflict_if (status == "DRAFT") _ _ no_error))))

closed_ignoring :
    {o : Option GoError} (m : M (Unit {0})) → Orderly o m → Orderly o (ignoring_error m)
closed_ignoring m h = record { at = λ s. fine tt; silent = h.silent; within = h.within }

module _ (env : Env) (token : ClosedGo env.token_err) where
  closed_pending :
      (owner repo : String) (n : ℤ) → Orderly env.token_err (pr_and_pending_review env owner repo n)
  unfolding pr_and_pending_review
  closed_pending owner repo n =
      closed_bind _ _ (closed_graphql env token _ _ _)
        (λ look. closed_then _ _ (closed_require _ _ _ (record { listed = refl })) (closed_pure _))

  pub closed_start_review :
      (owner repo : String) (n : ℤ) → Orderly env.token_err (start_review env owner repo n)
  unfolding start_review create_review
  closed_start_review owner repo n = closed_bind _ _ (closed_pending owner repo n) (λ found.
      if_both (Orderly _) (found.1 == "") _ _
        (closed_bind _ _ (closed_graphql env token _ _ _)
          (λ id. closed_then _ _ (closed_require _ _ _ (record { listed = refl })) (closed_pure _)))
        (closed_pure _))

  pub closed_submit_review :
      (id event body : String) → Orderly env.token_err (submit_review env id event body)
  unfolding submit_review
  closed_submit_review id event body =
      closed_bind _ _ (closed_graphql env token _ _ _) (λ d. closed_pure _)

  pub closed_discard_review : (id : String) → Orderly env.token_err (discard_review env id)
  unfolding discard_review
  closed_discard_review id = closed_graphql_nil env token _ _

  closed_node_id :
      (owner repo : String) (n : ℤ) → Orderly env.token_err (pr_node_id env owner repo n)
  unfolding pr_node_id
  closed_node_id owner repo n =
      closed_bind _ _ (closed_graphql env token _ _ _)
        (λ id. closed_then _ _ (closed_require _ _ _ (record { listed = refl })) (closed_pure _))

  pub closed_file_viewed :
      (owner repo : String) (n : ℤ) (path : String) (viewed : Bool)
      → Orderly env.token_err (set_file_viewed env owner repo n path viewed)
  unfolding set_file_viewed
  closed_file_viewed owner repo n path viewed =
      closed_bind _ _ (closed_node_id owner repo n)
        (λ id. closed_then _ _ (closed_graphql_nil env token _ _) (closed_pure _))

  pub closed_resolve :
      (id : String) (resolved : Bool) → Orderly env.token_err (resolve_thread env id resolved)
  unfolding resolve_thread
  closed_resolve id resolved = closed_bind _ _ (closed_graphql env token _ _ _) (λ r. closed_pure _)

  closed_change :
      (o : Option String) (owner repo : String) (n : ℤ)
      → Orderly env.token_err (change_state env o owner repo n)
  unfolding change_state
  closed_change none owner repo n = closed_fail _ _ (record { listed = refl })
  closed_change (some m) owner repo n =
      closed_bind _ _ (closed_node_id owner repo n)
        (λ id. closed_bind _ _ (closed_graphql env token _ _ _) (λ pr. closed_pure _))

  pub closed_pr_state :
      (owner repo : String) (n : ℤ) (state : String)
      → Orderly env.token_err (set_pr_state env owner repo n state)
  unfolding set_pr_state
  closed_pr_state owner repo n state = closed_change (pr_state_mutation state) owner repo n

  closed_branch :
      (b : Bool) (res : Merge) (head_ref : String)
      → Orderly env.token_err (delete_branch_after env b res head_ref)
  unfolding delete_branch_after
  closed_branch b res head_ref =
      if_both (Orderly _) (b && res.merged && not (head_ref == "")) _ _
        (closed_ignoring _ (closed_graphql_nil env token _ _)) (closed_pure tt)

  closed_perform :
      (pr : MergeLookupGql) (method : String) (b : Bool) (subject body : String)
      → Orderly env.token_err (perform_merge env pr method b subject body)
  unfolding perform_merge
  closed_perform pr method b subject body =
      closed_then _ _ (closed_check _ (merge_blocked-closed pr.mergeable pr.merge_state_status)) (
        closed_bind _ _ (closed_graphql env token _ _ _)
          (λ out. closed_then _ _ (closed_branch b _ pr.head_ref) (closed_pure _)))

  pub closed_merge :
      (owner repo : String) (n : ℤ) (method : String) (b : Bool) (subject body : String)
      → Orderly env.token_err (merge_pr env owner repo n method b subject body)
  unfolding merge_pr
  closed_merge owner repo n method b subject body =
      closed_bind _ _ (closed_graphql env token _ _ _) (λ pr.
        closed_then _ _ (closed_require _ _ _ (record { listed = refl })) (
          if_both (Orderly _) pr.merged _ _ (closed_pure _)
            (closed_perform pr method b subject body)))

  closed_draft : (i : PostCommentInput) → Orderly env.token_err (draft_thread env i)
  unfolding draft_thread
  closed_draft i =
      closed_bind _ _ (closed_graphql env token _ _ _)
        (λ t. closed_then _ _ (closed_require _ _ _ (record { listed = refl })) (closed_pure _))

  closed_new_thread :
      (owner repo : String) (n : ℤ) (i : PostCommentInput)
      → Orderly env.token_err (post_new_thread env owner repo n i)
  unfolding post_new_thread publish_comment join_draft
  closed_new_thread owner repo n i = closed_bind _ _ (closed_pending owner repo n) (λ found.
      if_both (Orderly _) (found.1 == "") _ _
        (closed_bind _ _ (closed_graphql env token _ _ _) (λ ids. closed_pure _))
        (closed_bind _ _ (closed_draft _) (λ pc. closed_pure _)))

  pub closed_post_comment :
      (owner repo : String) (n : ℤ) (i : PostCommentInput)
      → Orderly env.token_err (post_comment env owner repo n i)
  unfolding post_comment reply_to_thread
  closed_post_comment owner repo n i =
      if_both (Orderly _) (not (i.in_reply_to == "")) _ _
        (closed_bind _ _ (closed_graphql env token _ _ _) (λ id. closed_pure _))
        (if_both (Orderly _) (not (i.review_id == "")) _ _ (closed_draft i)
          (closed_new_thread owner repo n i))

  pub closed_issue_comment :
      (owner repo : String) (n : ℤ) (body : String)
      → Orderly env.token_err (post_issue_comment env owner repo n body)
  unfolding post_issue_comment
  closed_issue_comment owner repo n body =
      closed_bind _ _ (closed_node_id owner repo n)
        (λ pr_id. closed_bind _ _ (closed_graphql env token _ _ _) (λ id. closed_pure _))

  pub closed_delete_comment : (id : String) → Orderly env.token_err (delete_comment env id)
  unfolding delete_comment
  closed_delete_comment id = closed_graphql_nil env token _ _

  pub closed_head :
      (owner repo : String) (n : ℤ) → Orderly env.token_err (head_sha env owner repo n)
  unfolding head_sha pr_refs
  closed_head owner repo n = closed_bind _ _ (closed_get_json env token _ _) (λ r. closed_pure _)
