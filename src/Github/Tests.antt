-- ===== src/Github/Tests.antt =====
-- The client against the small GitHub of the tests.
use differ_nvim.Common.{
  arith, ◌≤◌, ◌≡◌, refl, ◌⊎◌, true, false, String, some, List, [], ◌∷◌, map, ◌||◌, ◌==◌,
  if◌then◌else◌,
}
use differ_nvim.Common.Int.{pos}
use differ_nvim.Common.Text.{
  parse_int, parse_uint, parse_digits, positive, kept_value, byte_len, parse_id, int64_max,
}
use differ_nvim.Protocol.{Error, ok, code_rate_limited, code_auth, rate_limited, new_error}
use differ_nvim.Github.Cache.{
  blob_key, blob, put_blob, new_cache, Cache, store, evict, evict_loop, back, drop_node, deref,
  find_node, remove_node, blob_size,
}
use differ_nvim.Github.Cache.History.{Op, apply, get, put, run, last_put, hit_is_last_put}
use differ_nvim.Github.Cache.Lru.{put_blob-fit}
use differ_nvim.Github.Cache.Refines.{contents, fit, remove}
use differ_nvim.Github.Cache.Valid.{IsValid, new_cache-IsValid}
use differ_nvim.Github.Client.{
  Session, graphql, graphql_data, check, check_go, check_url, fetch, send, classify, pure,
}
use differ_nvim.Github.Client.Reads.{ReadsAfter}
use differ_nvim.Github.Comments.{draft_thread, join_draft, post_new_thread, post_comment}
use differ_nvim.Github.Comments.{first_id}
use differ_nvim.Github.Comments.Routes.{asks_thread, post_comment-anchored}
use differ_nvim.Github.Dtos.{AddThreadGql}
use differ_nvim.Github.Errors.{
  HttpResponse, map_http, github_message, forbidden, rate_limit, budget_spent, reset_hint,
  map_graphql, graphql_error,
}
use differ_nvim.Github.Errors.Classes.{map_http-code, is_limited, status_class, Worded}
use differ_nvim.Github.Auth.{Host, resolve_token, first_token, token_of_gh, token_of_run, printed}
use differ_nvim.Github.Auth.Tokens.{Resolved, resolve_token-Resolved}
use differ_nvim.Github.Client.Calls.{ReadsAtMost}
use differ_nvim.Common.Spaces.{trim_space}
use differ_nvim.Github.Files.Bounds.{get_file_versions-ReadsAtMost}
use differ_nvim.Github.Files.Paths.{split_path-escape_path}
use differ_nvim.Github.Files.{
  split_path, join_path, escape_path, get_file_versions, raw_blob, cached, download, keep_answer,
  remember,
}
use differ_nvim.Github.Files.Again.{raw_blob-again}
use differ_nvim.Github.Results.{FileBlob, PostComment, PostCommentInput}
use differ_nvim.Github.Reviews.{merge_pr, start_review, pr_and_pending_review}
use differ_nvim.Github.Reviews.Merging.{Mergeable, NoDraft, merge_pr-preflight, start_review-once}
use differ_nvim.Github.Sample.{sample_env, fresh_session}

abbrev text_blob : String → FileBlob
text_blob s = record { content = s; missing = false }

abbrev one_entry : Cache
one_entry = put_blob "k" (text_blob "one") new_cache

one_entry-IsValid : IsValid one_entry
one_entry-IsValid = (put_blob-fit "k" (text_blob "one") new_cache new_cache-IsValid).2

put_blob-fit_example :
    (contents one_entry
      ≡ fit new_cache.limit (("k", text_blob "one") ∷ remove "k" (contents new_cache)))
    × (one_entry.bytes ≤ new_cache.limit)
    × IsValid one_entry
put_blob-fit_example = put_blob-fit "k" (text_blob "one") new_cache new_cache-IsValid

-- Written, overwritten, and another key read in between.
abbrev session_ops : List Op
session_ops =
    get "q"
    ∷ put "k" (text_blob "two")
    ∷ get "k"
    ∷ put "q" (text_blob "x")
    ∷ put "k" (text_blob "one")
    ∷ []

hit : (blob "k" (run session_ops)).0 ≡ some (text_blob "two")
unfolding run apply new_cache blob put_blob store evict evict_loop back drop_node deref find_node
    remove_node blob_size byte_len
hit = refl

hit_is_last_put_example : last_put "k" session_ops ≡ some (text_blob "two")
hit_is_last_put_example = hit_is_last_put session_ops "k" hit

merge_pr-preflight_example :
    Mergeable sample_env "o" "r" (pos 1) fresh_session
    ⊎ ReadsAfter [] (merge_pr sample_env "o" "r" (pos 1) "SQUASH" true "" "" fresh_session).1.sent
merge_pr-preflight_example =
    merge_pr-preflight sample_env "o" "r" (pos 1) "SQUASH" true "" "" fresh_session

start_review-once_example :
    NoDraft sample_env "o" "r" (pos 1) fresh_session
    ⊎ ReadsAfter [] (start_review sample_env "o" "r" (pos 1) fresh_session).1.sent
start_review-once_example = start_review-once sample_env "o" "r" (pos 1) fresh_session

-- A budget that is spent, until 60 seconds from now.
abbrev spent : HttpResponse
spent = record {
  status_code = 403;
  status = "403 Forbidden";
  header = λ name.
      if name == "X-RateLimit-Remaining"
      then "0"
      else if name == "X-RateLimit-Reset"
      then "1060"
      else "";
}

abbrev spent_error : Error
spent_error = rate_limited "API rate limit exceeded" (pos 60)

spent_answer : map_http (pos 1000) spent (some "API rate limit exceeded") ≡ some spent_error
unfolding map_http github_message forbidden rate_limit budget_spent reset_hint parse_int parse_uint
    parse_digits positive
spent_answer = refl

map_http-code_example :
    (spent_error.code
      ≡ (if is_limited spent spent_error.message then code_rate_limited else status_class 403))
    × Worded "403 Forbidden" (some "API rate limit exceeded") spent_error.message
map_http-code_example =
    map_http-code (pos 1000) spent (some "API rate limit exceeded") spent_error spent_answer

abbrev denied_error : Error
denied_error = new_error code_auth "graphql error"

denied_answer : map_graphql (record { type = "FORBIDDEN"; message = "" } ∷ []) ≡ some denied_error
unfolding map_graphql graphql_error
denied_answer = refl

-- An id past the range of `int64` is not 0 but the largest value of the type.
past_range : parse_id "99999999999999999999" ≡ pos int64_max
unfolding parse_id parse_int parse_uint parse_digits positive kept_value
past_range = refl

abbrev sample_input : PostCommentInput
sample_input = record {
  path = "a.go";
  side = "RIGHT";
  line = pos 9;
  body = "why?";
  start_side = "";
  start_line = pos 0;
  in_reply_to = "";
  review_id = "";
}

abbrev joined_comment : PostComment
joined_comment = record { id = pos 7; thread_id = "THREAD_1"; review_id = "REVIEW_1" }

-- The session after the lookup of the draft, and after the comment.
abbrev looked_up : Session
looked_up = (pr_and_pending_review sample_env "o" "r" (pos 1) fresh_session).1

abbrev posted : Session
posted = (post_new_thread sample_env "o" "r" (pos 1) sample_input fresh_session).1

draft_found :
    pr_and_pending_review sample_env "o" "r" (pos 1) fresh_session
    ≡ (ok ("PR_1", "REVIEW_1"), looked_up)
unfolding pr_and_pending_review graphql graphql_data check check_go check_url fetch send classify
    pure map_http map_graphql github_message
draft_found = refl

comment_joined :
    post_new_thread sample_env "o" "r" (pos 1) sample_input fresh_session
    ≡ (ok joined_comment, posted)
unfolding post_new_thread join_draft draft_thread pr_and_pending_review graphql graphql_data check
    check_go check_url fetch send classify pure map_http map_graphql github_message parse_id
    parse_int parse_uint parse_digits positive kept_value
comment_joined = refl

-- The same comment with the review named: it is reported with a thread, but with no review.
abbrev named_input : PostCommentInput
named_input = record sample_input { review_id = "REVIEW_1" }

abbrev named_comment : PostComment
named_comment = record joined_comment { review_id = "" }

abbrev named_posted : Session
named_posted = (post_comment sample_env "o" "r" (pos 1) named_input fresh_session).1

comment_drafted :
    post_comment sample_env "o" "r" (pos 1) named_input fresh_session
    ≡ (ok named_comment, named_posted)
unfolding post_comment draft_thread graphql graphql_data check check_go check_url fetch send
    classify pure map_http map_graphql github_message parse_id parse_int parse_uint parse_digits
    positive kept_value
comment_drafted = refl

post_comment-anchored_example :
    (t : AddThreadGql) × (asks_thread sample_env named_input fresh_session ≡ (ok t, named_posted))
    × ((t.id == "") ≡ false)
    × (named_comment.thread_id ≡ t.id)
    × (named_comment.id ≡ first_id t.comments)
post_comment-anchored_example =
    post_comment-anchored sample_env "o" "r" (pos 1) named_input named_comment fresh_session
      named_posted refl comment_drafted refl

abbrev after_read : Session
after_read = (raw_blob sample_env "o" "r" "a.go" "abc" fresh_session).1

read_once :
    raw_blob sample_env "o" "r" "a.go" "abc" fresh_session ≡ (ok (text_blob "abc"), after_read)
unfolding raw_blob check_go check_url pure cached download keep_answer remember send classify check
    map_http github_message blob new_cache deref
read_once = refl

small_enough : blob_size (blob_key "o" "r" "abc" "a.go") (text_blob "abc") ≤ new_cache.limit
unfolding blob_size byte_len blob_key new_cache
small_enough = omega arith

raw_blob-again_example :
    ((raw_blob sample_env "o" "r" "a.go" "abc" after_read).0 ≡ ok (text_blob "abc"))
    × ((raw_blob sample_env "o" "r" "a.go" "abc" after_read).1.sent ≡ after_read.sent)
raw_blob-again_example =
    raw_blob-again sample_env "o" "r" "a.go" "abc" refl fresh_session after_read (text_blob "abc")
      new_cache-IsValid read_once small_enough

get_file_versions-ReadsAtMost_example :
    ReadsAtMost
      (if "" == "" || "" == "" then 3 else 2)
      (get_file_versions sample_env true "o" "r" (pos 1) "a.go" "" "" "")
get_file_versions-ReadsAtMost_example =
    get_file_versions-ReadsAtMost sample_env true "o" "r" (pos 1) "a.go" "" "" ""

-- An escaping that makes every segment a percent sign.
abbrev percent : String → String
percent s = "%"

split_path-escape_path_example :
    split_path (escape_path percent "src/a b.go") ≡ map percent (split_path "src/a b.go")
split_path-escape_path_example = split_path-escape_path percent "src/a b.go" (λ s. (refl, tt))

-- The slashes stay where they are.
escaped_path : escape_path percent "src/a b.go" ≡ "%/%"
unfolding escape_path split_path join_path
escaped_path = refl

abbrev keyring : Host
keyring = record { getenv = λ name. " "; gh = some (printed "gho_1\n") }

resolve_token-Resolved_example : Resolved (resolve_token keyring)
resolve_token-Resolved_example = resolve_token-Resolved keyring

-- A blank variable is passed over, and what `gh` prints is trimmed.
keyring_token : resolve_token keyring ≡ ok "gho_1"
unfolding resolve_token first_token token_of_gh token_of_run trim_space
keyring_token = refl
