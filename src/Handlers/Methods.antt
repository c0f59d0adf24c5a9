-- ===== src/Handlers/Methods.antt =====
-- internal/handlers/handlers.go: `NewRegistry`, which makes the methods handlers of the engine. What a
-- handler returns as `any` is a sum of the results; the shared state is that of the client.
use differ_nvim.Common.{String, Bool, false, none, some, List, [], ◌∷◌, ◌++◌, ◌==◌, if◌then◌else◌}
use differ_nvim.Common.Int.{pos}
use differ_nvim.Protocol.{ok}
use differ_nvim.Github.Client.{Env, Session, M, ◌>>=◌, pure, Decoded}
use differ_nvim.Github.Results.{
  Pr, PrDetail, FileVersions, Thread, Timeline, PendingReview, Checks, StartReview, SubmitReview,
  PostComment, PostIssueComment, ResolveThread, SetFileViewed, Merge, SetPrState,
}
use differ_nvim.Handlers.{
  PrParams, FileVersionsParams, SubmitReviewParams, DiscardReviewParams, PostCommentParams,
  IssueCommentParams, DeleteCommentParams, ResolveThreadParams, FileViewedParams, MergeParams,
  PrStateParams, decode,
}
use differ_nvim.Handlers.Mutations
use differ_nvim.Handlers.Reads
use differ_nvim.Handlers.Reads.{ListPrsParams, HelloParams, HelloResult}
use differ_nvim.Server.Run.{returned, Handler, Registry}

-- The results of the methods, and `struct{}{}`.
pub data Answer : Type 0 where
  hello_result : HelloResult → Answer
  prs : List Pr → Answer
  pr_detail : PrDetail → Answer
  file_versions : FileVersions → Answer
  threads : List Thread → Answer
  timeline : Timeline → Answer
  pending_review : PendingReview → Answer
  checks : Checks → Answer
  started : StartReview → Answer
  submitted : SubmitReview → Answer
  comment : PostComment → Answer
  issue_comment : PostIssueComment → Answer
  resolution : ResolveThread → Answer
  viewed : SetFileViewed → Answer
  merged : Merge → Answer
  state : SetPrState → Answer
  empty_object : Answer

-- `json.Unmarshal` into each of the parameter structs.
pub record ParamCodec : Type 0 where
  pub hello : String → Decoded HelloParams
  pub list_prs : String → Decoded ListPrsParams
  pub pr : String → Decoded PrParams
  pub file_versions : String → Decoded FileVersionsParams
  pub submit_review : String → Decoded SubmitReviewParams
  pub discard_review : String → Decoded DiscardReviewParams
  pub post_comment : String → Decoded PostCommentParams
  pub issue_comment : String → Decoded IssueCommentParams
  pub delete_comment : String → Decoded DeleteCommentParams
  pub resolve_thread : String → Decoded ResolveThreadParams
  pub file_viewed : String → Decoded FileViewedParams
  pub merge : String → Decoded MergeParams
  pub pr_state : String → Decoded PrStateParams

-- `Deps`, with what else the handlers reach: the decoders, the version of the binary, and the order in
-- which the two downloads of `GetFileVersions` are served, which may depend on the state.
pub record Deps : Type 0 where
  pub gh : Env
  pub codec : ParamCodec
  pub binary : String
  pub base_first : Session → Bool

-- The zero values of the parameter structs.
abbrev pub no_pr : PrParams
no_pr = record { owner = ""; repo = ""; number = pos 0 }

abbrev pub no_comment : PostCommentParams
no_comment = record {
  pr = no_pr;
  path = "";
  side = "";
  line = pos 0;
  body = "";
  start_side = "";
  start_line = pos 0;
  in_reply_to = "";
  review_id = "";
  expected_head = "";
}

-- A method: `decode`, then the work.
unfoldable pub decoded_then :
    {P A : Type 0} → (A → Answer) → (String → Decoded P) → P → (P → M A) → String → M Answer
decoded_then wrap unmarshal zero_value work params = do
  p ← decode unmarshal zero_value params
  a ← work p
  pure (wrap a)

-- A method as a handler of the engine; none of them panics.
unfoldable pub method :
    {P A : Type 0} → (A → Answer) → (String → Decoded P) → P → (P → M A) → Handler Session Answer
method wrap unmarshal zero_value work params s = (
  returned (decoded_then wrap unmarshal zero_value work params s).0,
  (decoded_then wrap unmarshal zero_value work params s).1,
)

abbrev pub no_object : Unit {0} → Answer
no_object u = empty_object

-- A registry as a list of names and handlers; `NewRegistry` has each name once.
abbrev pub find_method : List (String × Handler Session Answer) → Registry Session Answer
find_method [] name = none
find_method ((n, h) ∷ rest) name = if name == n then some h else find_method rest name

module _ (d : Deps) where
  open d use {gh, codec}

  abbrev versions_in_order : FileVersionsParams → M FileVersions
  versions_in_order p s = Mutations.get_file_versions gh (d.base_first s) p s

  unfoldable pub read_methods : List (String × Handler Session Answer)
  read_methods =
      (
        "hello",
        method hello_result codec.hello (record { client = ""; protocol = pos 0 })
            (Reads.hello gh.itoa d.binary (some gh.token_err)),
      )
      ∷ (
        "list_prs",
        method prs codec.list_prs (record { owner = ""; repo = ""; filter = "" })
            (Reads.list_prs gh),
      )
      ∷ ("get_pr", method pr_detail codec.pr no_pr (Reads.get_pr gh))
      ∷ (
        "get_file_versions",
        method file_versions codec.file_versions
            (record { pr = no_pr; path = ""; previous_path = ""; base = ""; head = "" })
            versions_in_order,
      )
      ∷ ("get_threads", method threads codec.pr no_pr (Reads.get_threads gh))
      ∷ ("get_timeline", method timeline codec.pr no_pr (Reads.get_timeline gh))
      ∷ ("get_pending_review", method pending_review codec.pr no_pr (Reads.get_pending_review gh))
      ∷ ("get_checks", method checks codec.pr no_pr (Reads.get_checks gh))
      ∷ []

  unfoldable pub write_methods : List (String × Handler Session Answer)
  write_methods =
      ("start_review", method started codec.pr no_pr (Mutations.start_review gh))
      ∷ (
        "submit_review",
        method submitted codec.submit_review
            (record { pr = no_pr; review_id = ""; event = ""; body = ""; expected_head = "" })
            (Mutations.submit_review gh),
      )
      ∷ (
        "discard_review",
        method no_object codec.discard_review (record { pr = no_pr; review_id = "" })
            (Mutations.discard_review gh),
      )
      ∷ ("post_comment", method comment codec.post_comment no_comment (Mutations.post_comment gh))
      ∷ (
        "post_issue_comment",
        method issue_comment codec.issue_comment (record { pr = no_pr; body = "" })
            (Mutations.post_issue_comment gh),
      )
      ∷ (
        "delete_comment",
        method no_object codec.delete_comment (record { pr = no_pr; comment_id = "" })
            (Mutations.delete_comment gh),
      )
      ∷ (
        "resolve_thread",
        method resolution codec.resolve_thread
            (record { pr = no_pr; thread_id = ""; resolved = false }) (Mutations.resolve_thread gh),
      )
      ∷ (
        "set_file_viewed",
        method viewed codec.file_viewed (record { pr = no_pr; path = ""; viewed = false })
            (Mutations.set_file_viewed gh),
      )
      ∷ (
        "merge_pr",
        method merged codec.merge
            (record { pr = no_pr; method = ""; delete_branch = false; subject = ""; body = "" })
            (Mutations.merge_pr gh),
      )
      ∷ (
        "set_pr_state",
        method state codec.pr_state (record { pr = no_pr; state = "" }) (Mutations.set_pr_state gh),
      )
      ∷ ("cache_clear", λ params s. (returned (ok empty_object), (Mutations.cache_clear s).1))
      ∷ []

  -- `NewRegistry`
  unfoldable pub new_registry : Registry Session Answer
  unfolding read_methods write_methods
  new_registry name = find_method (read_methods ++ write_methods) name
