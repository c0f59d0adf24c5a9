-- ===== src/Handlers/Tests.antt =====
-- The methods against the small GitHub of the tests.
use differ_nvim.Common.{◌≡◌, refl, ◌↔◌, ◌⊎◌, none}
use differ_nvim.Common.Int.{pos}
use differ_nvim.Protocol.{ok}
use differ_nvim.Github.Client.Closed.{no_go_error}
use differ_nvim.Github.Files.{head_sha}
use differ_nvim.Github.Sample.{sample_env, fresh_session}
use differ_nvim.Handlers.{
  PrParams, SubmitReviewParams, PostCommentParams, validate_anchor, validate_range, valid_side,
  bad_request,
}
use differ_nvim.Handlers.Anchors.{Anchor, validate_anchor-none_iff}
use differ_nvim.Handlers.Closed.{AllClosed, methods-AllClosed}
use differ_nvim.Handlers.Guards.{Blocked, submit_review-guarded, post_comment-guarded}
use differ_nvim.Handlers.Mutations.{submit_review, post_comment}

abbrev sample_pr : PrParams
sample_pr = record { owner = "undont"; repo = "differ.nvim"; number = pos 1 }

-- Anchored at a head that has moved to `abc`.
abbrev stale_review : SubmitReviewParams
stale_review = record {
  pr = sample_pr;
  review_id = "REVIEW_1";
  event = "APPROVE";
  body = "";
  expected_head = "old";
}

abbrev stale_comment : PostCommentParams
stale_comment = record {
  pr = sample_pr;
  path = "a.go";
  side = "RIGHT";
  line = pos 9;
  body = "why?";
  start_side = "LEFT";
  start_line = pos 3;
  in_reply_to = "";
  review_id = "";
  expected_head = "old";
}

submit_review-guarded_example :
    ((head_sha sample_env "undont" "differ.nvim" (pos 1) fresh_session).0 ≡ ok "old")
    ⊎ Blocked fresh_session (submit_review sample_env stale_review fresh_session)
submit_review-guarded_example = submit_review-guarded sample_env stale_review fresh_session refl

post_comment-guarded_example :
    ((head_sha sample_env "undont" "differ.nvim" (pos 1) fresh_session).0 ≡ ok "old")
    ⊎ Blocked fresh_session (post_comment sample_env stale_comment fresh_session)
post_comment-guarded_example = post_comment-guarded sample_env stale_comment fresh_session refl

-- A range from the left side to the right is accepted.
validate_anchor-none_iff_example : (validate_anchor stale_comment ≡ none) ↔ Anchor stale_comment
validate_anchor-none_iff_example = validate_anchor-none_iff stale_comment

crossing_accepted : validate_anchor stale_comment ≡ none
unfolding validate_anchor validate_range valid_side
crossing_accepted = refl

-- A range must start before its end.
empty_range :
    validate_anchor (record stale_comment { line = pos 3 })
    ≡ bad_request "start_line must be less than line"
unfolding validate_anchor validate_range valid_side
empty_range = refl

-- A start side alone makes a range, whose start line is then missing.
side_alone :
    validate_anchor (record stale_comment { start_line = pos 0 })
    ≡ bad_request "start_line must be positive on a range comment"
unfolding validate_anchor validate_range valid_side
side_alone = refl

methods-AllClosed_example : AllClosed sample_env
methods-AllClosed_example = methods-AllClosed sample_env no_go_error
