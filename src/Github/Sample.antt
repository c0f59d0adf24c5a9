-- ===== src/Github/Sample.antt =====
-- A small GitHub for the tests: it knows one pull request, whose head is `abc`.
use differ_nvim.Common.{ℕ, false, String, none, List, [], ◌∷◌, ◌==◌, if◌then◌else◌}
use differ_nvim.Common.Int.{pos}
use differ_nvim.Github.Cache.{new_cache}
use differ_nvim.Github.Client.{
  Call, get, post, Reply, answered, Decoded, decoded, undecodable, Codec, Env, Session,
}
use differ_nvim.Github.Documents.{start_review_lookup_query, merge_lookup_query}
use differ_nvim.Github.Errors.{HttpResponse}

abbrev pub no_header : String → String
no_header name = ""

abbrev pub response : ℕ → HttpResponse
response n = record { status_code = n; status = "status"; header = no_header }

-- A decoder that knows no text.
abbrev unknown : {A : Type 0} → String → Decoded A
unknown t = undecodable t

abbrev pub sample_codec : Codec
sample_codec = record {
  message = λ body. none;
  envelope = λ body. decoded (record { data_text = body; errors = [] });
  pulls = unknown;
  files = unknown;
  user = decoded;
  pr_refs = λ body. decoded (record { base = "base"; head = body });
  pr_detail = unknown;
  threads = unknown;
  pending_review = unknown;
  timeline = unknown;
  checks = unknown;
  start_review_lookup = λ body. decoded (record { id = "PR_1"; reviews = body ∷ [] });
  node_id = decoded;
  database_id = decoded;
  comment_ids = λ body. decoded (body ∷ []);
  add_thread = λ body. decoded (record { id = body; comments = "7" ∷ [] });
  is_resolved = λ body. decoded (body == "true");
  merge_lookup = λ body. decoded (record {
    id = "PR_1";
    merged = false;
    mergeable = "MERGEABLE";
    merge_state_status = body;
    head_ref = "REF_1";
  });
  merge_pr = unknown;
  set_pr_state = unknown;
}

-- GETs are answered with the head; the lookup of a merge with a blocked state, the lookup of a draft
-- with the draft's id, and a mutation with a thread's id.
abbrev pub sample_network : List Call → Call → Reply
sample_network sent (get url media) = answered (response 200) "abc" none
sample_network sent (post document vars) =
    answered (response 200)
      (if document == merge_lookup_query
        then "BLOCKED"
        else if document == start_review_lookup_query
        then "REVIEW_1"
        else "THREAD_1")
      none

abbrev pub sample_env : Env
sample_env = record {
  network = sample_network;
  clock = λ sent. pos 0;
  codec = sample_codec;
  url_error = λ url. none;
  query_escape = λ s. s;
  path_escape = λ s. s;
  itoa = λ n. "1";
  token_err = none;
  rest_url = "https://api.github.com";
  gql_url = "https://api.github.com/graphql";
}

abbrev pub fresh_session : Session
fresh_session = record { viewer = ""; cache = new_cache; sent = [] }
