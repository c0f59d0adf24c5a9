-- ===== src/Handlers/Reads.antt =====
-- internal/handlers/read_prs.go, read_review.go and hello.go: the read methods and the handshake,
-- behind their `decode`.
use differ_nvim.Common.{String, Option, none, some, List, if◌then◌else◌}
use differ_nvim.Common.Int.{ℤ, ltb_ℤ}
use differ_nvim.Protocol.{GoError, code_bad_request, version}
use differ_nvim.Github.Auth.{token_status}
use differ_nvim.Github.Client.{Env, M, ◌>>◌, pure, fail_with, check}
use differ_nvim.Github.Conversation
use differ_nvim.Github.Files.{◌·◌}
use differ_nvim.Github.Pulls
use differ_nvim.Github.Results.{Pr, PrDetail, Thread, Timeline, PendingReview, Checks}
use differ_nvim.Handlers.{PrParams, require_pr, require_repo}

-- `listPRsParams`
pub record ListPrsParams : Type 0 where
  pub owner : String
  pub repo : String
  pub filter : String

-- `helloParams`
pub record HelloParams : Type 0 where
  pub client : String
  pub protocol : ℤ

-- `helloResult`
pub record HelloResult : Type 0 where
  pub protocol : ℤ
  pub binary : String
  pub auth : String
  pub auth_message : String

-- The result of `hello`: `surface` is the token's error of the client that `Deps.GH` holds, if it
-- holds one.
unfoldable pub greeting : String → Option (Option GoError) → HelloResult
greeting binary none = record { protocol = version; binary = binary; auth = ""; auth_message = "" }
greeting binary (some token_err) = record {
  protocol = version;
  binary = binary;
  auth = (token_status token_err).0;
  auth_message = (token_status token_err).1;
}

-- `hello`
unfoldable pub hello : (ℤ → String) → String → Option (Option GoError) → HelloParams → M HelloResult
unfolding greeting
hello itoa binary surface p =
    if ltb_ℤ version p.protocol
    then fail_with code_bad_request (
        "protocol mismatch: client speaks "
        · itoa p.protocol
        · ", sidecar speaks "
        · itoa version
        · ", rebuild your sidecar; run `make go-build`")
    else pure (greeting binary surface)

module _ (env : Env) where
  -- `listPRs`
  unfoldable pub list_prs : ListPrsParams → M (List Pr)
  list_prs p = do check (require_repo p.owner p.repo); Pulls.list_prs env p.owner p.repo p.filter

  -- `getPR`
  unfoldable pub get_pr : PrParams → M PrDetail
  get_pr p = do check (require_pr p); Pulls.get_pr env p.owner p.repo p.number

  -- `getThreads`
  unfoldable pub get_threads : PrParams → M (List Thread)
  get_threads p = do check (require_pr p); Conversation.get_threads env p.owner p.repo p.number

  -- `getPendingReview`
  unfoldable pub get_pending_review : PrParams → M PendingReview
  get_pending_review p = do
    check (require_pr p)
    Conversation.get_pending_review env p.owner p.repo p.number

  -- `getTimeline`
  unfoldable pub get_timeline : PrParams → M Timeline
  get_timeline p = do check (require_pr p); Conversation.get_timeline env p.owner p.repo p.number

  -- `getChecks`
  unfoldable pub get_checks : PrParams → M Checks
  get_checks p = do check (require_pr p); Conversation.get_checks env p.owner p.repo p.number
