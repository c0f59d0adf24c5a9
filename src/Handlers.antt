-- ===== src/Handlers.antt =====
-- internal/handlers: what the methods share, that is their parameters, `decode`, the checks of
-- parameters and `guardHead`.
pub mod Anchors
pub mod States
pub mod Mutations
pub mod Guards
pub mod Reads
pub mod Methods
pub mod Closed
mod Tests
use Prim.Native.String
use differ_nvim.Common.{
  ℕ, String, Bool, true, false, ◌&&◌, ◌||◌, not, Option, none, some, ◌==◌, if◌then◌else◌,
}
use differ_nvim.Common.Int.{ℤ, pos, leb_ℤ, eqb_ℤ}
use differ_nvim.Protocol.{Error, new_error, code_bad_request, code_conflict}
use differ_nvim.Github.Client.{
  Env, M, ◌>>=◌, ◌>>◌, bind_result, pure, fail_with, check, Decoded, decoded, undecodable,
}
use differ_nvim.Github.Files.{head_sha}

-- `prParams`
pub record PrParams : Type 0 where
  pub owner : String
  pub repo : String
  pub number : ℤ

-- `getFileVersionsParams`
pub record FileVersionsParams : Type 0 where
  pub pr : PrParams
  pub path : String
  pub previous_path : String
  pub base : String
  pub head : String

-- `submitReviewParams`
pub record SubmitReviewParams : Type 0 where
  pub pr : PrParams
  pub review_id : String
  pub event : String
  pub body : String
  pub expected_head : String

-- `discardReviewParams`
pub record DiscardReviewParams : Type 0 where
  pub pr : PrParams
  pub review_id : String

-- `postCommentParams`
pub record PostCommentParams : Type 0 where
  pub pr : PrParams
  pub path : String
  pub side : String
  pub line : ℤ
  pub body : String
  pub start_side : String
  pub start_line : ℤ
  pub in_reply_to : String
  pub review_id : String
  pub expected_head : String

-- `postIssueCommentParams`
pub record IssueCommentParams : Type 0 where
  pub pr : PrParams
  pub body : String

-- `deleteCommentParams`
pub record DeleteCommentParams : Type 0 where
  pub pr : PrParams
  pub comment_id : String

-- `resolveThreadParams`
pub record ResolveThreadParams : Type 0 where
  pub pr : PrParams
  pub thread_id : String
  pub resolved : Bool

-- `setFileViewedParams`
pub record FileViewedParams : Type 0 where
  pub pr : PrParams
  pub path : String
  pub viewed : Bool

-- `mergePRParams`
pub record MergeParams : Type 0 where
  pub pr : PrParams
  pub method : String
  pub delete_branch : Bool
  pub subject : String
  pub body : String

-- `setPRStateParams`
pub record PrStateParams : Type 0 where
  pub pr : PrParams
  pub state : String

abbrev pub decoded_params : {P : Type 0} → Decoded P → M P
decoded_params (decoded p) = pure p
decoded_params (undecodable m) = fail_with code_bad_request (String.◌++◌ "invalid params: " m)

-- `decode`: `json.Unmarshal` into a zero value, which stays as it is for no bytes.
unfoldable pub decode : {P : Type 0} → (String → Decoded P) → P → String → M P
decode unmarshal zero_value params =
    if params == "" then pure zero_value else decoded_params (unmarshal params)

abbrev pub bad_request : String → Option Error
bad_request message = some (new_error code_bad_request message)

-- A check that answers with a `bad_request` where its condition fails.
abbrev pub demand : Bool → String → Option Error
demand c message = if c then none else bad_request message

-- `requireRepo`
unfoldable pub require_repo : String → String → Option Error
require_repo owner repo =
    if owner == "" || repo == "" then bad_request "owner and repo are required" else none

abbrev pub and_then : Option Error → Option Error → Option Error
and_then (some e) o = some e
and_then none o = o

-- `requirePR`
unfoldable pub require_pr : PrParams → Option Error
unfolding require_repo
require_pr p =
    and_then (require_repo p.owner p.repo)
      (if leb_ℤ p.number (pos 0) then bad_request "number is required" else none)

-- `requireReviewID`, and the checks of the other texts that may not be empty.
unfoldable pub require_text : String → String → Option Error
require_text value message = if value == "" then bad_request message else none

-- `validReviewEvent`
unfoldable pub valid_review_event : String → Bool
valid_review_event e = e == "APPROVE" || e == "REQUEST_CHANGES" || e == "COMMENT"

-- `validSide`
unfoldable pub valid_side : String → Bool
valid_side side = side == "LEFT" || side == "RIGHT"

-- `validPRState`
unfoldable pub valid_pr_state : String → Bool
valid_pr_state state = state == "ready" || state == "draft" || state == "closed" || state == "open"

-- `mergeMethod`
unfoldable pub merge_method : String → Option String
merge_method m =
    if m == "squash"
    then some "SQUASH"
    else if m == "merge"
    then some "MERGE"
    else if m == "rebase"
    then some "REBASE"
    else none

-- The checks of `validateAnchor` on the start of a range.
unfoldable pub validate_range : PostCommentParams → Option Error
unfolding valid_side
validate_range p =
    if leb_ℤ p.start_line (pos 0)
    then bad_request "start_line must be positive on a range comment"
    else if leb_ℤ p.line p.start_line
    then bad_request "start_line must be less than line"
    else if not (p.start_side == "") && not (valid_side p.start_side)
    then bad_request "start_side must be LEFT or RIGHT"
    else none

-- `validateAnchor`
unfoldable pub validate_anchor : PostCommentParams → Option Error
unfolding validate_range valid_side
validate_anchor p =
    if p.path == ""
    then bad_request "path is required"
    else if not (valid_side p.side)
    then bad_request "side must be LEFT or RIGHT"
    else if leb_ℤ p.line (pos 0)
    then bad_request "line must be positive"
    else if not (eqb_ℤ p.start_line (pos 0)) || not (p.start_side == "")
    then validate_range p
    else none

abbrev pub head_moved : String
head_moved = "the PR head moved since the review was anchored; refresh and retry"

-- `guardHead`
unfoldable pub guard_head : Env → PrParams → String → M (Unit {0})
guard_head env p expected = if expected == "" then pure tt else (do
  head ← head_sha env p.owner p.repo p.number
  if head == expected then pure tt else fail_with code_conflict head_moved)
