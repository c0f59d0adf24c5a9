-- ===== src/Handlers/Closed.antt =====
-- internal/handlers: the errors of the methods, that they send nothing without a token, and that they
-- keep the cache.
use differ_nvim.Common.{
  refl, String, Bool, Option, none, some, ◌==◌, ◌||◌, not, ◌&&◌, if◌then◌else◌, if_both,
}
use differ_nvim.Common.Int.{pos, leb_ℤ, eqb_ℤ}
use differ_nvim.Protocol.{Error}
use differ_nvim.Github.Client.{
  clear_cache, Env, M, Session, pure, fail_with, Decoded, decoded, undecodable,
}
use differ_nvim.Github.Client.Closed.{
  fine, Orderly, ClosedOption, no_error, an_error, ClosedGo, closed_bind, closed_then, closed_pure,
  closed_fail, closed_check,
}
use differ_nvim.Github.Reviews.Refusals.{
  closed_start_review, closed_submit_review, closed_discard_review, closed_post_comment,
  closed_issue_comment, closed_delete_comment, closed_resolve, closed_file_viewed, closed_merge,
  closed_pr_state, closed_head,
}
use differ_nvim.Github.Files.Refusals.{closed_file_versions}
use differ_nvim.Github.Cache.Within.{clear_all-IsWithin}
use differ_nvim.Github.Client
use differ_nvim.Handlers.{
  PrParams, FileVersionsParams, SubmitReviewParams, DiscardReviewParams, PostCommentParams,
  IssueCommentParams, DeleteCommentParams, ResolveThreadParams, FileViewedParams, MergeParams,
  PrStateParams, decode, decoded_params, demand, bad_request, require_repo, require_pr,
  require_text, merge_method, valid_side, validate_range, validate_anchor, guard_head, and_then,
}
use differ_nvim.Handlers.Mutations
use differ_nvim.Handlers.Reads
use differ_nvim.Handlers.Reads.{HelloParams, ListPrsParams}
use differ_nvim.Github.Pages.Refusals.{
  closed_list_prs, closed_get_pr, closed_threads, closed_timeline, closed_pending, closed_checks,
}
use differ_nvim.Common.Int.{ℤ, ltb_ℤ}
use differ_nvim.Protocol.{GoError, version}
use differ_nvim.Handlers.Mutations.{anchor_check, merge_with}

closed_bad : (m : String) → ClosedOption (bad_request m)
closed_bad m = an_error _ (record { listed = refl })

-- A `bad_request` in one branch, and a check of the same kind in the other.
bad_if :
    (b : Bool) (m : String) (o : Option Error)
    → ClosedOption o
    → ClosedOption (if b then bad_request m else o)
bad_if b m o h = if_both ClosedOption b _ o (closed_bad m) h

closed_demand : (b : Bool) (m : String) → ClosedOption (demand b m)
closed_demand b m = if_both ClosedOption b _ _ no_error (closed_bad m)

closed_text : (value m : String) → ClosedOption (require_text value m)
unfolding require_text
closed_text value m = bad_if (value == "") m none no_error

closed_and_then :
    (o p : Option Error) → ClosedOption o → ClosedOption p → ClosedOption (and_then o p)
closed_and_then none p h k = k
closed_and_then (some e) p h k = h

closed_pr : (p : PrParams) → ClosedOption (require_pr p)
unfolding require_pr require_repo
closed_pr p =
    closed_and_then _ _ (bad_if (p.owner == "" || p.repo == "") _ none no_error)
      (bad_if (leb_ℤ p.number (pos 0)) _ none no_error)

closed_range : (p : PostCommentParams) → ClosedOption (validate_range p)
unfolding validate_range
closed_range p = bad_if (leb_ℤ p.start_line (pos 0)) _ _ (
    bad_if (leb_ℤ p.line p.start_line) _ _
      (bad_if (not (p.start_side == "") && not (valid_side p.start_side)) _ none no_error))

closed_anchor : (p : PostCommentParams) → ClosedOption (anchor_check p)
unfolding anchor_check validate_anchor
closed_anchor p =
    if_both ClosedOption (p.in_reply_to == "") _ none
      (bad_if (p.path == "") _ _ (
        bad_if (not (valid_side p.side)) _ _ (
          bad_if (leb_ℤ p.line (pos 0)) _ _ (
            if_both ClosedOption (not (eqb_ℤ p.start_line (pos 0)) || not (p.start_side == "")) _
              none (closed_range p) no_error))))
      no_error

closed_decoded_params :
    {P : Type 0} {o : Option GoError} (d : Decoded P) → Orderly o (decoded_params d)
closed_decoded_params (decoded p) = closed_pure p
closed_decoded_params (undecodable m) = closed_fail _ _ (record { listed = refl })

-- `decode` fails with a `bad_request`, which is of the closed set, or not at all.
pub decode-closed :
    {P : Type 0} {o : Option GoError} (unmarshal : String → Decoded P) (zero_value : P)
    (params : String)
    → Orderly o (decode unmarshal zero_value params)
unfolding decode
decode-closed unmarshal zero_value params =
    if_both (Orderly _) (params == "") _ _ (closed_pure zero_value)
      (closed_decoded_params (unmarshal params))

-- The methods have no errors but those of the closed set; where the token could not be resolved they
-- send nothing; and they keep the blob cache valid and within its limit.
pub record AllClosed (env : Env) : Type 0 where
  pub on_file_versions :
      (b : Bool) (p : FileVersionsParams)
      → Orderly env.token_err (Mutations.get_file_versions env b p)
  pub on_start_review : (p : PrParams) → Orderly env.token_err (Mutations.start_review env p)
  pub on_submit_review :
      (p : SubmitReviewParams) → Orderly env.token_err (Mutations.submit_review env p)
  pub on_discard_review :
      (p : DiscardReviewParams) → Orderly env.token_err (Mutations.discard_review env p)
  pub on_post_comment :
      (p : PostCommentParams) → Orderly env.token_err (Mutations.post_comment env p)
  pub on_issue_comment :
      (p : IssueCommentParams) → Orderly env.token_err (Mutations.post_issue_comment env p)
  pub on_delete_comment :
      (p : DeleteCommentParams) → Orderly env.token_err (Mutations.delete_comment env p)
  pub on_resolve_thread :
      (p : ResolveThreadParams) → Orderly env.token_err (Mutations.resolve_thread env p)
  pub on_file_viewed :
      (p : FileViewedParams) → Orderly env.token_err (Mutations.set_file_viewed env p)
  pub on_merge : (p : MergeParams) → Orderly env.token_err (Mutations.merge_pr env p)
  pub on_pr_state : (p : PrStateParams) → Orderly env.token_err (Mutations.set_pr_state env p)
  pub on_hello :
      (itoa : ℤ → String) (binary : String) (surface : Option (Option GoError)) (p : HelloParams)
      → Orderly env.token_err (Reads.hello itoa binary surface p)
  pub on_list_prs : (p : ListPrsParams) → Orderly env.token_err (Reads.list_prs env p)
  pub on_get_pr : (p : PrParams) → Orderly env.token_err (Reads.get_pr env p)
  pub on_threads : (p : PrParams) → Orderly env.token_err (Reads.get_threads env p)
  pub on_timeline : (p : PrParams) → Orderly env.token_err (Reads.get_timeline env p)
  pub on_pending_review : (p : PrParams) → Orderly env.token_err (Reads.get_pending_review env p)
  pub on_checks : (p : PrParams) → Orderly env.token_err (Reads.get_checks env p)
  pub on_cache_clear : Orderly env.token_err Mutations.cache_clear

closed_repo : (owner repo : String) → ClosedOption (require_repo owner repo)
unfolding require_repo
closed_repo owner repo = bad_if (owner == "" || repo == "") _ none no_error

closed_cache_clear : {o : Option GoError} → Orderly o Mutations.cache_clear
unfolding Mutations.cache_clear clear_cache
closed_cache_clear = record {
  at = λ s. fine tt;
  silent = λ s no. refl;
  within = λ s w. clear_all-IsWithin s.cache w;
}

closed_hello :
    {o : Option GoError} (itoa : ℤ → String) (binary : String) (surface : Option (Option GoError))
    (p : HelloParams)
    → Orderly o (Reads.hello itoa binary surface p)
unfolding Reads.hello
closed_hello itoa binary surface p =
    if_both (Orderly _) (ltb_ℤ version p.protocol) _ _ (closed_fail _ _ (record { listed = refl }))
      (closed_pure _)

module _ (env : Env) (token : ClosedGo env.token_err) where
  closed_guard :
      (p : PrParams) (expected : String) → Orderly env.token_err (guard_head env p expected)
  unfolding guard_head
  closed_guard p expected = if_both (Orderly _) (expected == "") _ _ (closed_pure tt) (
      closed_bind _ _ (closed_head env token p.owner p.repo p.number) (λ head.
        if_both (Orderly _) (head == expected) _ _ (closed_pure tt)
          (closed_fail _ _ (record { listed = refl }))))

  closed_merge_with :
      (o : Option String) (p : MergeParams) → Orderly env.token_err (merge_with env o p)
  closed_merge_with none p = closed_fail _ _ (record { listed = refl })
  closed_merge_with (some m) p = closed_merge env token _ _ _ _ _ _ _

  closed_posted : (p : PostCommentParams) → Orderly env.token_err (Mutations.post_comment env p)
  unfolding Mutations.post_comment
  closed_posted p = closed_then _ _ (closed_check _ (closed_pr p.pr)) (
      closed_then _ _ (closed_check _ (closed_text p.body _)) (
        closed_then _ _ (closed_check _ (closed_anchor p)) (
          closed_then _ _ (closed_guard p.pr p.expected_head)
            (closed_post_comment env token _ _ _ _))))

  closed_submitted :
      (p : SubmitReviewParams) → Orderly env.token_err (Mutations.submit_review env p)
  unfolding Mutations.submit_review
  closed_submitted p = closed_then _ _ (closed_check _ (closed_pr p.pr)) (
      closed_then _ _ (closed_check _ (closed_text p.review_id _)) (
        closed_then _ _ (closed_check _ (closed_demand _ _)) (
          closed_then _ _ (closed_guard p.pr p.expected_head)
            (closed_submit_review env token _ _ _))))

  -- The shape of the methods with no other parameters than the pull request.
  closed_scoped :
      {A : Type 0} (p : PrParams) (k : M A)
      → Orderly env.token_err k
      → Orderly env.token_err (Client.◌>>◌ (Client.check (require_pr p)) k)
  closed_scoped p k h = closed_then _ _ (closed_check _ (closed_pr p)) h

  -- The shape of the other methods: the pull request is checked, then a text, then the call is made.
  closed_checked :
      {A : Type 0} (p : PrParams) (value m : String) (k : M A)
      → Orderly env.token_err k
      → Orderly env.token_err (
          Client.◌>>◌
            (Client.check (require_pr p))
            (Client.◌>>◌ (Client.check (require_text value m)) k))
  closed_checked p value m k h =
      closed_then _ _ (closed_check _ (closed_pr p))
        (closed_then _ _ (closed_check _ (closed_text value m)) h)

  -- If `ResolveToken` failed with an error of the closed set or not at all, every error of the
  -- methods is one of the closed set, whatever GitHub answers and whatever the parameters are; and if
  -- it failed, no method makes a call to GitHub. All methods keep the blob cache valid and within its
  -- limit.
  pub methods-AllClosed : AllClosed env
  unfolding Mutations.get_file_versions Mutations.start_review Mutations.discard_review
      Mutations.post_issue_comment Mutations.delete_comment Mutations.resolve_thread
      Mutations.set_file_viewed Mutations.merge_pr Mutations.set_pr_state Reads.list_prs
      Reads.get_pr Reads.get_threads Reads.get_timeline Reads.get_pending_review Reads.get_checks
  methods-AllClosed = record {
    on_file_versions =
        λ b p. closed_checked p.pr p.path _ _ (closed_file_versions env token b _ _ _ _ _ _ _);
    on_start_review =
        λ p. closed_then _ _ (closed_check _ (closed_pr p)) (closed_start_review env token _ _ _);
    on_submit_review = closed_submitted;
    on_discard_review =
        λ p. closed_checked p.pr p.review_id _ _ (closed_discard_review env token _);
    on_post_comment = closed_posted;
    on_issue_comment = λ p. closed_checked p.pr p.body _ _ (closed_issue_comment env token _ _ _ _);
    on_delete_comment =
        λ p. closed_checked p.pr p.comment_id _ _ (closed_delete_comment env token _);
    on_resolve_thread = λ p. closed_checked p.pr p.thread_id _ _ (closed_resolve env token _ _);
    on_file_viewed = λ p. closed_checked p.pr p.path _ _ (closed_file_viewed env token _ _ _ _ _);
    on_merge = λ p.
        closed_then _ _ (closed_check _ (closed_pr p.pr))
          (closed_merge_with (merge_method p.method) p);
    on_pr_state = λ p.
        closed_then _ _ (closed_check _ (closed_pr p.pr)) (
          closed_then _ _ (closed_check _ (closed_demand _ _)) (closed_pr_state env token _ _ _ _));
    on_hello = closed_hello;
    on_list_prs = λ p.
        closed_then _ _ (closed_check _ (closed_repo p.owner p.repo))
          (closed_list_prs env token _ _ _);
    on_get_pr = λ p. closed_scoped p _ (closed_get_pr env token _ _ _);
    on_threads = λ p. closed_scoped p _ (closed_threads env token _ _ _);
    on_timeline = λ p. closed_scoped p _ (closed_timeline env token _ _ _);
    on_pending_review = λ p. closed_scoped p _ (closed_pending env token _ _ _);
    on_checks = λ p. closed_scoped p _ (closed_checks env token _ _ _);
    on_cache_clear = closed_cache_clear;
  }
