-- ===== src/Github/Reviews.antt =====
-- internal/github/reviews.go, state.go, viewed.go and merge.go: the calls that change a pull request.
pub mod Merging
pub mod Refusals
use Prim.Native.String
use differ_nvim.Common.{
  ℕ, String, Bool, true, false, ◌&&◌, not, Option, none, some, List, [], ◌∷◌, ◌++◌, ◌==◌,
  if◌then◌else◌,
}
use differ_nvim.Common.Int.{ℤ}
use differ_nvim.Common.Text.{parse_id}
use differ_nvim.Protocol.{
  Error, GoError, coded, Result, ok, err, new_error, code_not_found, code_internal, code_conflict,
  code_bad_request,
}
use differ_nvim.Github.Dtos.{StartReviewLookupGql, MergeLookupGql, MergePrGql, SetPrStateGql}
use differ_nvim.Github.Documents.{
  start_review_lookup_query, add_review_mutation, submit_review_mutation, delete_review_mutation,
  pr_node_id_query, merge_lookup_query, merge_pr_mutation, delete_ref_mutation,
  ready_for_review_mutation, convert_to_draft_mutation, close_pr_mutation, reopen_pr_mutation,
  mark_file_viewed_mutation, unmark_file_viewed_mutation, resolve_thread_mutation,
  unresolve_thread_mutation,
}
use differ_nvim.Github.Results.{
  StartReview, SubmitReview, Merge, SetPrState, SetFileViewed, ResolveThread,
}
use differ_nvim.Github.Client.{
  Env, M, ◌>>=◌, ◌>>◌, bind_result, pure, fail_with, check, graphql, graphql_nil, Var, text, number,
  Arg, var, drafts, Vars, Session,
}

abbrev pub text_arg : String → String → String × Arg
text_arg k v = (k, var (text v))

-- The variables `owner`, `repo` and `number`.
abbrev pub pr_vars : String → String → ℤ → Vars
pr_vars owner repo n =
    text_arg "owner" owner ∷ text_arg "repo" repo ∷ ("number", var (number n)) ∷ []

-- The first of a list of ids, "" for an empty list.
abbrev pub first_or_empty : List String → String
first_or_empty [] = ""
first_or_empty (id ∷ _) = id

-- `if id == "" { return … }`
abbrev pub require : String → String → String → M (Unit {0})
require id code message = if id == "" then fail_with code message else pure tt

-- `mergeBlocked`
unfoldable pub merge_blocked : String → String → Option Error
merge_blocked mergeable status =
    if mergeable == "CONFLICTING"
    then some (new_error code_conflict "pull request has merge conflicts")
    else if status == "DIRTY"
    then some (new_error code_conflict "pull request has merge conflicts")
    else if status == "BLOCKED"
    then some (new_error code_conflict "merge is blocked by required reviews or checks")
    else if status == "BEHIND"
    then some (new_error code_conflict "head branch is behind the base; update it before merging")
    else if status == "DRAFT"
    then some (new_error code_conflict "pull request is still a draft")
    else none

-- `prStateMutation`
unfoldable pub pr_state_mutation : String → Option String
pr_state_mutation state =
    if state == "ready"
    then some ready_for_review_mutation
    else if state == "draft"
    then some convert_to_draft_mutation
    else if state == "closed"
    then some close_pr_mutation
    else if state == "open"
    then some reopen_pr_mutation
    else none

-- `normalisePRState`
unfoldable pub normalise_pr_state : String → Bool → String
normalise_pr_state state is_draft =
    if state == "CLOSED"
    then "closed"
    else if state == "MERGED"
    then "merged"
    else if is_draft
    then "draft"
    else "open"

abbrev pub optional_arg : String → String → Vars
optional_arg k v = if v == "" then [] else text_arg k v ∷ []

-- A call whose error is dropped.
abbrev pub ignoring_error : M (Unit {0}) → M (Unit {0})
ignoring_error m s = (ok tt, (m s).1)

module _ (env : Env) where
  open env use {codec}

  -- `prAndPendingReview`: the node id of the pull request, and that of the viewer's draft or "".
  unfoldable pub pr_and_pending_review : String → String → ℤ → M (String × String)
  pr_and_pending_review owner repo n = do
    look ← graphql env codec.start_review_lookup start_review_lookup_query (pr_vars owner repo n)
    require look.id code_not_found "pull request not found"
    pure (look.id, first_or_empty look.reviews)

  -- The creation of a review, for a pull request without a draft.
  unfoldable pub create_review : String → M StartReview
  create_review pr_id = do
    id ← graphql env codec.node_id add_review_mutation (text_arg "prId" pr_id ∷ [])
    require id code_internal "github returned no review id"
    pure (record { review_id = id })

  -- `StartReview`
  unfoldable pub start_review : String → String → ℤ → M StartReview
  start_review owner repo n = do
    found ← pr_and_pending_review owner repo n
    if found.1 == "" then create_review found.0 else pure (record { review_id = found.1 })

  -- `SubmitReview`
  unfoldable pub submit_review : String → String → String → M SubmitReview
  submit_review review_id event body = do
    id ←
        graphql env codec.database_id submit_review_mutation
          (text_arg "reviewId" review_id ∷ text_arg "event" event ∷ text_arg "body" body ∷ [])
    pure (record { id = parse_id id })

  -- `DiscardReview`
  unfoldable pub discard_review : String → M (Unit {0})
  discard_review review_id =
      graphql_nil env delete_review_mutation (text_arg "reviewId" review_id ∷ [])

  -- `prNodeID` (comments.go)
  unfoldable pub pr_node_id : String → String → ℤ → M String
  pr_node_id owner repo n = do
    id ← graphql env codec.node_id pr_node_id_query (pr_vars owner repo n)
    require id code_not_found "pull request not found"
    pure id

  -- `SetFileViewed`
  unfoldable pub set_file_viewed : String → String → ℤ → String → Bool → M SetFileViewed
  set_file_viewed owner repo n path viewed = do
    pr_id ← pr_node_id owner repo n
    graphql_nil env (if viewed then mark_file_viewed_mutation else unmark_file_viewed_mutation)
        (text_arg "prId" pr_id ∷ text_arg "path" path ∷ [])
    pure (record { viewed_state = if viewed then "VIEWED" else "UNVIEWED" })

  -- `ResolveThread` (threads.go)
  unfoldable pub resolve_thread : String → Bool → M ResolveThread
  resolve_thread thread_id resolved = do
    state ←
        graphql env codec.is_resolved
          (if resolved then resolve_thread_mutation else unresolve_thread_mutation)
          (text_arg "threadId" thread_id ∷ [])
    pure (record { resolved = state })

  -- `SetPRState` behind the choice of the mutation.
  unfoldable pub change_state : Option String → String → String → ℤ → M SetPrState
  change_state none owner repo n =
      fail_with code_bad_request "state must be ready, draft, closed, or open"
  change_state (some mutation) owner repo n = do
    pr_id ← pr_node_id owner repo n
    pr ← graphql env codec.set_pr_state mutation (text_arg "prId" pr_id ∷ [])
    pure (record { state = normalise_pr_state pr.state pr.is_draft })

  -- `SetPRState`
  unfoldable pub set_pr_state : String → String → ℤ → String → M SetPrState
  set_pr_state owner repo n state = change_state (pr_state_mutation state) owner repo n

  -- The best-effort deletion of the head branch.
  unfoldable pub delete_branch_after : Bool → Merge → String → M (Unit {0})
  delete_branch_after delete_branch res head_ref =
      if delete_branch && res.merged && not (head_ref == "")
      then ignoring_error (graphql_nil env delete_ref_mutation (text_arg "refId" head_ref ∷ []))
      else pure tt

  -- `MergePR` once the pull request is known to be open and not merged.
  unfoldable pub perform_merge : MergeLookupGql → String → Bool → String → String → M Merge
  perform_merge pr method delete_branch subject body = do
    check (merge_blocked pr.mergeable pr.merge_state_status)
    out ← graphql env codec.merge_pr merge_pr_mutation (
        text_arg "prId" pr.id
        ∷ text_arg "method" method
        ∷ (optional_arg "headline" subject ++ optional_arg "body" body))
    delete_branch_after delete_branch (record { merged = out.merged; sha = out.oid }) pr.head_ref
    pure (record { merged = out.merged; sha = out.oid })

  -- `MergePR`
  unfoldable pub merge_pr : String → String → ℤ → String → Bool → String → String → M Merge
  merge_pr owner repo n method delete_branch subject body = do
    pr ← graphql env codec.merge_lookup merge_lookup_query (pr_vars owner repo n)
    require pr.id code_not_found "pull request not found"
    if pr.merged
        then pure (record { merged = true; sha = "" })
        else perform_merge pr method delete_branch subject body
