-- ===== src/Github/Pulls.antt =====
-- internal/github/prs.go: the list of pull requests and the detail of one.
pub mod Detail
pub mod Viewer
use Prim.Native.String
use differ_nvim.Common.{
  ℕ, String, Bool, true, false, ◌&&◌, ◌||◌, not, Option, none, some, List, [], ◌∷◌, ◌++◌, ◌==◌, map,
  if◌then◌else◌,
}
use differ_nvim.Common.Int.{ℤ}
use differ_nvim.Protocol.{ok, code_auth, code_bad_request}
use differ_nvim.Github.Documents.{get_pr_query}
use differ_nvim.Github.Dtos.{PullDto, FileDto, FileNode, PageInfo, PrDetailGql}
use differ_nvim.Github.Files.{◌·◌}
use differ_nvim.Github.Results.{Pr, PrFile, PrDetail}
use differ_nvim.Github.Client.{Env, Session, M, ◌>>=◌, ◌>>◌, bind_result, pure, fail_with, get_json}
use differ_nvim.Github.Reviews.{require}
use differ_nvim.Github.Pages.{get_paged, gql_max_pages, query_page, walk}

-- `url.Values.Encode` for keys that are in order.
unfoldable pub encode : (String → String) → List (String × String) → String
encode escape [] = ""
encode escape ((k, v) ∷ []) = escape k · "=" · escape v
encode escape ((k, v) ∷ kv ∷ rest) = escape k · "=" · escape v · "&" · encode escape (kv ∷ rest)

-- `hasReviewer`
unfoldable pub has_reviewer : List String → String → Bool
has_reviewer [] login = false
has_reviewer (r ∷ rs) login = r == login || has_reviewer rs login

-- The `switch` of `ListPRs` on a pull request: whether it is kept.
unfoldable pub keeps : String → String → PullDto → Bool
unfolding has_reviewer
keeps filter viewer p =
    if filter == "mine"
    then p.user == viewer
    else if filter == "review_requested"
    then has_reviewer p.reviewers viewer
    else true

abbrev pub to_pr : PullDto → Pr
to_pr p = record {
  number = p.number;
  title = p.title;
  author = p.user;
  head_ref = p.head_ref;
  updated_at = p.updated_at;
  draft = p.draft;
}

-- The loop of `ListPRs`.
unfoldable pub select : String → String → List PullDto → List Pr
select filter viewer [] = []
select filter viewer (p ∷ ps) =
    let rest = select filter viewer ps in if keeps filter viewer p then to_pr p ∷ rest else rest

abbrev pub known_filter : String → Bool
known_filter f = f == "open" || f == "mine" || f == "review_requested"

-- `viewed` of `GetPR`, a map from paths, the latest write first.
abbrev pub Viewed : Type 0
Viewed = List (String × String)

-- `viewed[path]`, "" for a path that is not there.
unfoldable pub viewed_at : String → Viewed → String
viewed_at path [] = ""
viewed_at path ((k, v) ∷ m) = if path == k then v else viewed_at path m

unfoldable pub record_viewed : List FileNode → Viewed → Viewed
record_viewed [] m = m
record_viewed (f ∷ fs) m = record_viewed fs ((f.path, f.viewer_viewed_state) ∷ m)

-- The zero value of `prDetailGQL`.
abbrev pub no_detail : PrDetailGql
no_detail = record {
  title = "";
  body = "";
  url = "";
  state = "";
  is_draft = false;
  mergeable = "";
  base_ref_oid = "";
  head_ref_oid = "";
  head_ref_name = "";
  author = "";
  files = [];
  page_info = record { has_next_page = false; end_cursor = "" };
}

-- What the walk of `GetPR` gathers: the first page (`meta`), and the viewed states.
abbrev pub Gathered : Type 0
Gathered = PrDetailGql × Viewed

unfoldable pub gather : String → PrDetailGql → Gathered → Gathered
unfolding record_viewed
gather cursor page (meta, m) = (if cursor == "" then page else meta, record_viewed page.files m)

abbrev pub default_viewed : String → String
default_viewed v = if v == "" then "UNVIEWED" else v

abbrev pub to_file : Viewed → FileDto → PrFile
to_file m f = record {
  path = f.filename;
  status = f.status;
  additions = f.additions;
  deletions = f.deletions;
  previous_path = f.previous_filename;
  viewed_state = default_viewed (viewed_at f.filename m);
}

unfoldable pub to_detail : PrDetailGql → Viewed → List FileDto → PrDetail
to_detail pr m files = record {
  title = pr.title;
  body = pr.body;
  author = pr.author;
  base_sha = pr.base_ref_oid;
  head_sha = pr.head_ref_oid;
  head_ref = pr.head_ref_name;
  url = pr.url;
  state = pr.state;
  draft = pr.is_draft;
  mergeable = pr.mergeable;
  files = map (to_file m) files;
}

-- The memo of `viewerLogin`.
unfoldable pub known_viewer : M String
known_viewer s = (ok s.viewer, s)

unfoldable pub memoise_viewer : String → M (Unit {0})
memoise_viewer login s = (ok tt, record s { viewer = login })

module _ (env : Env) where
  open env use {codec, rest_url, query_escape, itoa}

  -- `viewerLogin` where nothing is memoised.
  unfoldable pub ask_viewer : M String
  ask_viewer = do
    login ← get_json env codec.user (rest_url · "/user")
    require login code_auth "could not resolve the authenticated user"
    memoise_viewer login
    pure login

  -- `viewerLogin`
  unfoldable pub viewer_login : M String
  viewer_login = do login ← known_viewer; if not (login == "") then pure login else ask_viewer

  unfoldable pub pulls_url : String → String → String
  unfolding encode
  pulls_url owner repo =
      rest_url
      · "/repos/"
      · owner
      · "/"
      · repo
      · "/pulls?"
      · encode query_escape (
          ("direction", "desc")
          ∷ ("per_page", "100")
          ∷ ("sort", "updated")
          ∷ ("state", "open")
          ∷ [])

  -- `ListPRs` with a filter that is not "".
  unfoldable pub list_by : String → String → String → M (List Pr)
  list_by owner repo filter =
      if not (known_filter filter)
      then fail_with code_bad_request ("unknown filter: " · filter)
      else (do
        pulls ← get_paged env codec.pulls (pulls_url owner repo)
        viewer ← if filter == "open" then pure "" else viewer_login
        pure (select filter viewer pulls))

  -- `ListPRs`
  unfoldable pub list_prs : String → String → String → M (List Pr)
  list_prs owner repo filter = list_by owner repo (if filter == "" then "open" else filter)

  unfoldable pub files_url : String → String → ℤ → String
  files_url owner repo n =
      rest_url · "/repos/" · owner · "/" · repo · "/pulls/" · itoa n · "/files?per_page=100"

  -- `GetPR`
  unfoldable pub get_pr : String → String → ℤ → M PrDetail
  get_pr owner repo n = do
    found ←
        walk gql_max_pages (query_page env codec.pr_detail get_pr_query owner repo n)
          (λ page. page.page_info) gather "" (no_detail, [])
    files ← get_paged env codec.files (files_url owner repo n)
    pure (to_detail found.0 found.1 files)
