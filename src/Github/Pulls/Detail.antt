-- ===== src/Github/Pulls/Detail.antt =====
-- internal/github/prs.go: `GetPR` over the pages that GitHub serves.
use differ_nvim.Common.{
  ◌≡◌, refl, ◌∙◌, ◌≤◌, ◌⊎◌, String, Bool, true, false, none, List, [], ◌∷◌, ◌++◌, ◌==◌, map, length,
  append-nil, if◌then◌else◌,
}
use differ_nvim.Common.Int.{ℤ}
use differ_nvim.Protocol.{ok}
use differ_nvim.Github.Dtos.{FileDto, FileNode, PrDetailGql}
use differ_nvim.Github.Results.{PrFile, PrDetail}
use differ_nvim.Github.Documents.{get_pr_query}
use differ_nvim.Github.Client.{Env, Session, M, pure}
use differ_nvim.Github.Pages.{query_page}
use differ_nvim.Github.Pages.Chain.{
  Served, Walked, final, more, cut, concat, gathered, walk-Walked, get_paged-Served,
  next_cursor-not_empty,
}
use differ_nvim.Github.Pulls.{
  Viewed, viewed_at, record_viewed, Gathered, gather, no_detail, default_viewed, to_file, to_detail,
  files_url, get_pr,
}

-- The file nodes of all pages, in order.
unfoldable pub file_nodes : List (String × PrDetailGql) → List FileNode
file_nodes [] = []
file_nodes ((c, p) ∷ l) = p.files ++ file_nodes l

-- The state that the last of the nodes of a path gives, or `was`.
unfoldable pub reported : String → List FileNode → String → String
reported path [] was = was
reported path (f ∷ fs) was =
    reported path fs (if path == f.path then f.viewer_viewed_state else was)

-- What `GetPR` is to make of the first page, all nodes and all files.
abbrev pub described_file : List FileNode → FileDto → PrFile
described_file nodes f = record {
  path = f.filename;
  status = f.status;
  additions = f.additions;
  deletions = f.deletions;
  previous_path = f.previous_filename;
  viewed_state = default_viewed (reported f.filename nodes "");
}

unfoldable pub described : PrDetailGql → List FileNode → List FileDto → PrDetail
described pr nodes files = record {
  title = pr.title;
  body = pr.body;
  author = pr.author;
  base_sha = pr.base_ref_oid;
  head_sha = pr.head_ref_oid;
  head_ref = pr.head_ref_name;
  url = pr.url;
  state = pr.state;
  draft = pr.is_draft;
  mergeable = pr.mergeable;
  files = map (described_file nodes) files;
}

viewed_at-record_viewed :
    (path : String) (fs : List FileNode) (m : Viewed)
    → viewed_at path (record_viewed fs m) ≡ reported path fs (viewed_at path m)
unfolding record_viewed reported viewed_at
viewed_at-record_viewed path [] m = refl
viewed_at-record_viewed path (f ∷ fs) m = viewed_at-record_viewed path fs _

record_viewed-append :
    (fs gs : List FileNode) (m : Viewed)
    → record_viewed (fs ++ gs) m ≡ record_viewed gs (record_viewed fs m)
unfolding record_viewed
record_viewed-append [] gs m = refl
record_viewed-append (f ∷ fs) gs m = record_viewed-append fs gs _

to_file-described :
    (nodes : List FileNode) (f : FileDto)
    → to_file (record_viewed nodes []) f ≡ described_file nodes f
unfolding viewed_at
to_file-described nodes f = rw (viewed_at-record_viewed f.filename nodes [])

map-described :
    (nodes : List FileNode) (files : List FileDto)
    → map (to_file (record_viewed nodes [])) files ≡ map (described_file nodes) files
map-described nodes [] = refl
map-described nodes (f ∷ fs) = rw (to_file-described nodes f, map-described nodes fs)

to_detail-described :
    (pr : PrDetailGql) (nodes : List FileNode) (files : List FileDto)
    → to_detail pr (record_viewed nodes []) files ≡ described pr nodes files
unfolding to_detail described
to_detail-described pr nodes files = rw (map-described nodes files)

unfoldable pub first_of : PrDetailGql → List (String × PrDetailGql) → PrDetailGql
first_of found [] = found
first_of found ((c, p) ∷ l) = p

module _ (ask : String → M PrDetailGql) where
  -- Behind the first page the metadata stays.
  gathered-later :
      (found : PrDetailGql) (m : Viewed) {c : String} {s t : Session}
      {l : List (String × PrDetailGql)} {b : Bool}
      → (c == "") ≡ false
      → Walked ask (λ p. p.page_info) c s l b t
      → gathered gather l (found, m) ≡ (found, record_viewed (file_nodes l) m)
  unfolding gathered gather file_nodes record_viewed
  gathered-later found m some_cursor (cut c s) = refl
  gathered-later found m some_cursor (final c s p t asked last) = rw (some_cursor, append-nil)
  gathered-later found m some_cursor (more c s p next u {l} asked on rest) = rw some_cursor (
      gathered-later found (record_viewed p.files m) (next_cursor-not_empty c p.page_info next on)
        rest
      ∙ rw (record_viewed-append p.files (file_nodes l) m))

  gathered-gather :
      (acc : Gathered) {c : String} {s t : Session} {l : List (String × PrDetailGql)} {b : Bool}
      → (c == "") ≡ true
      → Walked ask (λ q. q.page_info) c s l b t
      → gathered gather l acc ≡ (first_of acc.0 l, record_viewed (file_nodes l) acc.1)
  unfolding gathered gather file_nodes record_viewed first_of
  gathered-gather acc at_first (cut c s) = refl
  gathered-gather acc at_first (final c s p t asked last) = rw (at_first, append-nil)
  gathered-gather acc at_first (more c s p next u {l} asked on rest) = rw at_first (
      gathered-later p (record_viewed p.files acc.1) (next_cursor-not_empty c p.page_info next on)
        rest
      ∙ rw (record_viewed-append p.files (file_nodes l) acc.1))

module _ (env : Env) (owner repo : String) (n : ℤ) where
  -- With a token, where GitHub answers the pages of the detail and then those of the files, `GetPR` gives
  -- the metadata of the first page, all files of all REST pages in order, and for each the viewed state
  -- that the last node of its path gives on any of the pages, `UNVIEWED` where none does. Each of the two
  -- walks ends within 100 pages, or is cut there.
  pub get_pr-Walked :
      (p : PrDetailGql) {s t u : Session} {l : List (String × PrDetailGql)} {b : Bool}
      {pages : List (List FileDto)} {last : String}
      → env.token_err ≡ none
      → Walked
          (query_page env env.codec.pr_detail get_pr_query owner repo n)
          (λ q. q.page_info)
          ""
          s
          (("", p) ∷ l)
          b
          t
      → length (("", p) ∷ l) ≤ 100
      → (b ≡ true) ⊎ (length (("", p) ∷ l) ≡ 100)
      → Served env env.codec.files (files_url env owner repo n) t pages last u
      → length pages ≤ 100
      → ((last == "") ≡ true) ⊎ (length pages ≡ 100)
      → get_pr env owner repo n s ≡ (ok (described p (file_nodes (("", p) ∷ l)) (concat pages)), u)
  unfolding get_pr pure first_of
  get_pr-Walked p token walked few ended served files_few files_ended = rw (
    walk-Walked _ _ gather 100 (no_detail, []) walked few ended,
    gathered-gather _ (no_detail, []) refl walked,
    get_paged-Served env env.codec.files token served files_few files_ended,
    to_detail-described,
  )
