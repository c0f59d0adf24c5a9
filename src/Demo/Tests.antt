-- ===== src/Demo/Tests.antt =====
-- The demo's stand-in at its start.
use differ_nvim.Common.{◌≡◌, refl, String, List, [], ◌∷◌, ℕ}
use differ_nvim.Common.Int.{ℤ, pos}
use differ_nvim.Github.Results.{PostCommentInput}
use differ_nvim.Demo.{Fixture, discard_review}
use differ_nvim.Demo.Drafts.{post_all, discard_review-post_all}
use differ_nvim.Demo.Stamped.{new_fixture, start_review}

abbrev hours_ago : ℕ → String
hours_ago h = "2026-01-01T00:00:00Z"

abbrev digits : ℤ → String
digits n = "1"

abbrev at_start : Fixture
at_start = new_fixture hours_ago digits

abbrev question : PostCommentInput
question = record {
  path = "lua/theme.lua";
  side = "RIGHT";
  line = pos 9;
  body = "why?";
  start_side = "";
  start_line = pos 0;
  in_reply_to = "";
  review_id = "";
}

abbrev two_comments : List PostCommentInput
two_comments = question ∷ record question { line = pos 3 } ∷ []

-- The demo after a review was started, commented twice and discarded.
abbrev discarded : Fixture
discarded =
    discard_review
      (post_all hours_ago digits two_comments (start_review hours_ago digits at_start).1)

discard_review-post_all_example :
    (discarded.threads ≡ at_start.threads) × (discarded.review_id ≡ "")
unfolding new_fixture
discard_review-post_all_example =
    discard_review-post_all hours_ago digits two_comments at_start (refl, tt) (refl, (refl, tt))
