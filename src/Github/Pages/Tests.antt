-- ===== src/Github/Pages/Tests.antt =====
-- The paged reads against a GitHub that gives two pages of everything.
use differ_nvim.Common.{
  ◌≡◌, refl, arith, String, true, false, none, List, [], ◌∷◌, map, ◌==◌, if◌then◌else◌, inl, All,
}
use differ_nvim.Common.Int.{pos}
use differ_nvim.Protocol.{ok}
use differ_nvim.Github.Client.{
  Call, get, post, Reply, answered, decoded, Codec, Env, Session, graphql, graphql_data, check,
  check_go, check_url, fetch, send, classify, pure, next_cursor, get_json,
}
use differ_nvim.Github.Client.Calls.{ReadsAtMost}
use differ_nvim.Github.Conversation.{
  get_threads, get_timeline, get_pending_review, get_checks, to_thread,
}
use differ_nvim.Github.Conversation.Walks.{thread_nodes, get_threads-Walked}
use differ_nvim.Github.Documents.{get_pr_query, get_threads_query, get_timeline_query}
use differ_nvim.Github.Dtos.{
  PullDto, FileDto, PageInfo, PrDetailGql, ThreadNode, ThreadsGql, TimelineGql, ReviewNode,
}
use differ_nvim.Github.Errors.{HttpResponse, map_http, map_graphql, github_message}
use differ_nvim.Github.Links.{next_link, link_target, fits_next, up_to_close, expect, skip_spaces}
use differ_nvim.Github.Links.Printed.{Link, print_links, first_next, next_link-print_links}
use differ_nvim.Github.Pages.{query_page, get_paged, fetch_page, paged_loop}
use differ_nvim.Github.Pages.Bounds.{calls-ReadsAtMost}
use differ_nvim.Github.Pages.Chain.{
  Served, nothing, page, Walked, final, more, concat, get_paged-Served,
}
use differ_nvim.Github.Pulls.{
  get_pr, list_prs, list_by, pulls_url, select, viewer_login, ask_viewer, known_viewer,
  memoise_viewer, keeps, files_url,
}
use differ_nvim.Github.Pulls.Detail.{described, file_nodes, get_pr-Walked}
use differ_nvim.Github.Pulls.Viewer.{list_prs-mine}
use differ_nvim.Github.Results.{Pr}
use differ_nvim.Github.Sample.{sample_env, sample_codec, fresh_session, response}

-- The second page of the files is at `p2`.
abbrev linked : HttpResponse
linked = record {
  status_code = 200;
  status = "200 OK";
  header = λ name. if name == "Link" then "<p2>; rel=\"next\", <p9>; rel=\"last\"" else "";
}

abbrev last_page : String → String → Reply
last_page url body = answered (response 200) body none

abbrev paged_network : List Call → Call → Reply
paged_network sent (get url media) =
    if url == "p2" then last_page url "b.go" else answered linked "a.go" none
paged_network [] (post document vars) = last_page document "one"
paged_network (c ∷ sent) (post document vars) = last_page document "two"

abbrev info_of : String → PageInfo
info_of body = record { has_next_page = body == "one"; end_cursor = "c1" }

abbrev file_of : String → FileDto
file_of name = record {
  filename = name;
  status = "modified";
  additions = pos 1;
  deletions = pos 0;
  previous_filename = "";
}

-- The first page says that `a.go` is not viewed, the second that it is.
abbrev detail_of : String → PrDetailGql
detail_of body = record {
  title = body;
  body = "";
  url = "";
  state = "OPEN";
  is_draft = false;
  mergeable = "";
  base_ref_oid = "";
  head_ref_oid = "";
  head_ref_name = "";
  author = "";
  files =
      record { path = "a.go"; viewer_viewed_state = if body == "two" then "VIEWED" else "UNVIEWED" }
      ∷ [];
  page_info = info_of body;
}

abbrev node_of : String → ThreadNode
node_of body = record {
  id = body;
  is_resolved = false;
  is_outdated = false;
  path = "a.go";
  line = none;
  start_line = none;
  original_line = none;
  diff_side = "RIGHT";
  start_side = "";
  comments = [];
  newest_comment = [];
}

abbrev review_of : String → ReviewNode
review_of body = record {
  author = "octocat";
  state = "APPROVED";
  body = body;
  submitted_at = "2026-01-01";
}

abbrev pull_of : String → PullDto
pull_of user = record {
  number = pos 1;
  title = "";
  user = user;
  head_ref = "";
  updated_at = "";
  draft = false;
  reviewers = [];
}

abbrev paged_codec : Codec
paged_codec = record sample_codec {
  pulls = λ body. decoded (pull_of body ∷ []);
  files = λ body. decoded (file_of body ∷ []);
  pr_detail = λ body. decoded (detail_of body);
  threads = λ body. decoded (record { nodes = node_of body ∷ []; page_info = info_of body });
  timeline = λ body. decoded (record {
    comments = record { author = "octocat"; body = body; created_at = "" } ∷ [];
    page_info = info_of body;
    reviews = review_of "once" ∷ [];
  });
}

abbrev paged_env : Env
paged_env = record sample_env { network = paged_network; codec = paged_codec }

-- The sessions after the two pages of the detail, and after those of the files.
abbrev detail_one : Session
detail_one =
    (query_page paged_env paged_codec.pr_detail get_pr_query "o" "r" (pos 1) "" fresh_session).1

abbrev detail_two : Session
detail_two =
    (query_page paged_env paged_codec.pr_detail get_pr_query "o" "r" (pos 1) "c1" detail_one).1

abbrev files_one : Session
files_one =
    (fetch_page paged_env paged_codec.files (files_url paged_env "o" "r" (pos 1)) detail_two).1

abbrev files_two : Session
files_two = (fetch_page paged_env paged_codec.files "p2" files_one).1

abbrev detail_pages : List (String × PrDetailGql)
detail_pages = ("", detail_of "one") ∷ ("c1", detail_of "two") ∷ []

detail-Walked :
    Walked
      (query_page paged_env paged_codec.pr_detail get_pr_query "o" "r" (pos 1))
      (λ q. q.page_info)
      ""
      fresh_session
      detail_pages
      true
      detail_two
unfolding query_page graphql graphql_data check check_go check_url fetch send classify pure map_http
    map_graphql github_message next_cursor
detail-Walked =
    more "" fresh_session (detail_of "one") "c1" detail_one refl refl
      (final "c1" detail_one (detail_of "two") detail_two refl refl)

abbrev file_pages : List (List FileDto)
file_pages = (file_of "a.go" ∷ []) ∷ (file_of "b.go" ∷ []) ∷ []

files-Served :
    Served paged_env paged_codec.files
      (files_url paged_env "o" "r" (pos 1))
      detail_two
      file_pages
      ""
      files_two
unfolding fetch_page check check_url send classify pure map_http github_message next_link
    link_target fits_next up_to_close expect skip_spaces files_url
files-Served =
    page _ detail_two (file_of "a.go" ∷ []) "p2" files_one refl refl
      (page "p2" files_one (file_of "b.go" ∷ []) "" files_two refl refl (nothing "" files_two))

get_paged-Served_example :
    get_paged paged_env paged_codec.files (files_url paged_env "o" "r" (pos 1)) detail_two
    ≡ (ok (concat file_pages), files_two)
get_paged-Served_example =
    get_paged-Served paged_env paged_codec.files refl files-Served (omega arith) (inl refl)

get_pr-Walked_example :
    get_pr paged_env "o" "r" (pos 1) fresh_session
    ≡ (ok (described (detail_of "one") (file_nodes detail_pages) (concat file_pages)), files_two)
get_pr-Walked_example =
    get_pr-Walked paged_env "o" "r" (pos 1) (detail_of "one") refl detail-Walked (omega arith)
      (inl refl) files-Served (omega arith) (inl refl)

abbrev threads_one : Session
threads_one =
    (query_page paged_env paged_codec.threads get_threads_query "o" "r" (pos 1) "" fresh_session).1

abbrev threads_two : Session
threads_two =
    (query_page paged_env paged_codec.threads get_threads_query "o" "r" (pos 1) "c1" threads_one).1

abbrev threads_of : String → ThreadsGql
threads_of body = record { nodes = node_of body ∷ []; page_info = info_of body }

abbrev thread_pages : List (String × ThreadsGql)
thread_pages = ("", threads_of "one") ∷ ("c1", threads_of "two") ∷ []

threads-Walked :
    Walked
      (query_page paged_env paged_codec.threads get_threads_query "o" "r" (pos 1))
      (λ q. q.page_info)
      ""
      fresh_session
      thread_pages
      true
      threads_two
unfolding query_page graphql graphql_data check check_go check_url fetch send classify pure map_http
    map_graphql github_message next_cursor
threads-Walked =
    more "" fresh_session (threads_of "one") "c1" threads_one refl refl
      (final "c1" threads_one (threads_of "two") threads_two refl refl)

get_threads-Walked_example :
    get_threads paged_env "o" "r" (pos 1) fresh_session
    ≡ (ok (map to_thread (thread_nodes thread_pages)), threads_two)
get_threads-Walked_example =
    get_threads-Walked paged_env "o" "r" (pos 1) threads-Walked (omega arith) (inl refl)

abbrev timeline_one : Session
timeline_one =
    (query_page paged_env paged_codec.timeline get_timeline_query "o" "r" (pos 1) ""
      fresh_session).1

abbrev timeline_two : Session
timeline_two =
    (query_page paged_env paged_codec.timeline get_timeline_query "o" "r" (pos 1) "c1"
      timeline_one).1

abbrev timeline_page : String → TimelineGql
timeline_page body = record {
  comments = record { author = "octocat"; body = body; created_at = "" } ∷ [];
  page_info = info_of body;
  reviews = review_of "once" ∷ [];
}

abbrev timeline_pages : List (String × TimelineGql)
timeline_pages = ("", timeline_page "one") ∷ ("c1", timeline_page "two") ∷ []

timeline-Walked :
    Walked
      (query_page paged_env paged_codec.timeline get_timeline_query "o" "r" (pos 1))
      (λ q. q.page_info)
      ""
      fresh_session
      timeline_pages
      true
      timeline_two
unfolding query_page graphql graphql_data check check_go check_url fetch send classify pure map_http
    map_graphql github_message next_cursor
timeline-Walked =
    more "" fresh_session (timeline_page "one") "c1" timeline_one refl refl
      (final "c1" timeline_one (timeline_page "two") timeline_two refl refl)

calls-ReadsAtMost_example :
    ReadsAtMost 101 (list_prs paged_env "o" "r" "mine")
    × ReadsAtMost 200 (get_pr paged_env "o" "r" (pos 1))
    × ReadsAtMost 100 (get_threads paged_env "o" "r" (pos 1))
    × ReadsAtMost 100 (get_timeline paged_env "o" "r" (pos 1))
    × ReadsAtMost 1 (get_pending_review paged_env "o" "r" (pos 1))
    × ReadsAtMost 1 (get_checks paged_env "o" "r" (pos 1))
calls-ReadsAtMost_example = calls-ReadsAtMost paged_env "o" "r" "mine" (pos 1)

abbrev sample_links : List Link
sample_links = ("p1", "prev") ∷ ("p2", "next") ∷ []

next_link-print_links_example : next_link (print_links sample_links) ≡ first_next sample_links
next_link-print_links_example = next_link-print_links sample_links (
  (
    refl,
    (refl, (refl, tt)),
    (refl, (refl, tt)),
    (refl, (refl, (refl, (refl, tt)))),
    (refl, (refl, (refl, (refl, tt)))),
  ),
  (
    (
      refl,
      (refl, (refl, tt)),
      (refl, (refl, tt)),
      (refl, (refl, (refl, (refl, tt)))),
      (refl, (refl, (refl, (refl, tt)))),
    ),
    tt,
  ),
)

-- The pull requests of the first page are the viewer's, those of the second are not.
abbrev listed : Session
listed = (list_prs paged_env "o" "r" "mine" fresh_session).1

abbrev mine : List Pr
mine =
    record {
      number = pos 1;
      title = "";
      author = "a.go";
      head_ref = "";
      updated_at = "";
      draft = false;
    }
    ∷ []

mine_listed : list_prs paged_env "o" "r" "mine" fresh_session ≡ (ok mine, listed)
unfolding list_prs list_by pulls_url get_paged paged_loop fetch_page check check_go check_url send
    classify pure map_http github_message next_link link_target fits_next up_to_close expect
    skip_spaces select keeps viewer_login known_viewer ask_viewer get_json fetch memoise_viewer
mine_listed = refl

list_prs-mine_example :
    ((listed.viewer == "") ≡ false) × All (λ (p : Pr). p.author ≡ listed.viewer) mine
list_prs-mine_example = list_prs-mine paged_env "o" "r" fresh_session listed mine mine_listed

abbrev known : Session
known = (viewer_login paged_env fresh_session).1

viewer_found : viewer_login paged_env fresh_session ≡ (ok "a.go", known)
unfolding viewer_login known_viewer ask_viewer get_json fetch check check_go check_url send classify
    pure map_http github_message memoise_viewer
viewer_found = refl
