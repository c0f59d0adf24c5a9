-- ===== src/Github/Client.antt =====
-- internal/github/client.go, rest.go and graphql.go: the state of `Client`, and its calls. GitHub, the
-- clock and the decoding of JSON and URLs are parameters; GitHub's answer may depend on all calls
-- that were made before.
pub mod Closed
pub mod Reads
pub mod Calls
pub mod Runs
use Prim.Native.String
use differ_nvim.Common.{
  ℕ, zero, suc, String, Bool, true, false, ◌&&◌, ◌||◌, not, Option, none, some, List, [], ◌∷◌, ◌++◌,
  ◌==◌, if◌then◌else◌,
}
use differ_nvim.Common.Int.{ℤ}
use differ_nvim.Protocol.{
  Error, GoError, coded, plain, Result, ok, err, new_error, code_network, code_internal,
}
use differ_nvim.Github.Cache.{Cache, clear_all}
use differ_nvim.Github.Dtos
use differ_nvim.Github.Dtos.{PageInfo}
use differ_nvim.Github.Errors.{HttpResponse, GqlError, map_http, map_graphql}

-- A value of the `vars` maps: a text, a number, or the drafts of `publishCommentMutation`.
pub data Var : Type 0 where
  text : String → Var
  number : ℤ → Var

pub data Arg : Type 0 where
  var : Var → Arg
  drafts : List (List (String × Var)) → Arg

abbrev pub Vars : Type 0
Vars = List (String × Arg)

-- A request: a GET with its URL and media type, or the POST of a GraphQL document.
pub data Call : Type 0 where
  get : String → String → Call
  post : String → Vars → Call

-- What comes of a request: a transport error, or a response with its body and the error that
-- reading it may end with.
pub data Reply : Type 0 where
  failed : String → Reply
  answered : HttpResponse → String → Option String → Reply

-- The result of `json.Unmarshal`.
pub data Decoded {ℓ} (A : Type ℓ) : Type ℓ where
  decoded : A → Decoded A
  undecodable : String → Decoded A

-- The `{data, errors}` envelope.
pub record Envelope : Type 0 where
  pub data_text : String
  pub errors : List GqlError

-- Decoders, one for each shape of dtos.go.
pub record Codec : Type 0 where
  pub message : String → Option String
  pub envelope : String → Decoded Envelope
  pub pulls : String → Decoded (List Dtos.PullDto)
  pub files : String → Decoded (List Dtos.FileDto)
  pub user : String → Decoded String
  pub pr_refs : String → Decoded Dtos.PrRefsDto
  pub pr_detail : String → Decoded Dtos.PrDetailGql
  pub threads : String → Decoded Dtos.ThreadsGql
  pub pending_review : String → Decoded (List Dtos.PendingReviewNode)
  pub timeline : String → Decoded Dtos.TimelineGql
  pub checks : String → Decoded Dtos.ChecksGql
  pub start_review_lookup : String → Decoded Dtos.StartReviewLookupGql
  pub node_id : String → Decoded String
  pub database_id : String → Decoded String
  pub comment_ids : String → Decoded (List String)
  pub add_thread : String → Decoded Dtos.AddThreadGql
  pub is_resolved : String → Decoded Bool
  pub merge_lookup : String → Decoded Dtos.MergeLookupGql
  pub merge_pr : String → Decoded Dtos.MergePrGql
  pub set_pr_state : String → Decoded Dtos.SetPrStateGql

-- The world around a client, and the fields of `Client` that never change. `url_error` is the error
-- of `http.NewRequestWithContext`, `query_escape`,
-- `path_escape` and `itoa` are `url.QueryEscape`, `url.PathEscape` and `strconv.Itoa`.
pub record Env : Type 0 where
  pub network : List Call → Call → Reply
  pub clock : List Call → ℤ
  pub codec : Codec
  pub url_error : String → Option String
  pub query_escape : String → String
  pub path_escape : String → String
  pub itoa : ℤ → String
  pub token_err : Option GoError
  pub rest_url : String
  pub gql_url : String

-- The fields of `Client` that change, and the calls made so far, the latest first.
pub record Session : Type 0 where
  pub viewer : String
  pub cache : Cache
  pub sent : List Call

abbrev pub M : Type 0 → Type 0
M A = Session → Result A × Session

abbrev pub bind_result : {A B : Type 0} → Result A × Session → (A → M B) → Result B × Session
bind_result (ok a, s) f = f a s
bind_result (err e, s) f = (err e, s)

infixl 5 ◌>>=◌ ◌>>◌
abbrev pub ◌>>=◌ : {A B : Type 0} → M A → (A → M B) → M B
◌>>=◌ m f s = bind_result (m s) f

abbrev pub ◌>>◌ : {B : Type 0} → M (Unit {0}) → M B → M B
m >> k = m >>= λ _. k

unfoldable pub pure : {A : Type 0} → A → M A
pure a s = (ok a, s)

unfoldable pub throw : {A : Type 0} → GoError → M A
throw e s = (err e, s)

unfoldable pub fail_with : {A : Type 0} → String → String → M A
unfolding throw
fail_with code message = throw (coded (new_error code message))

-- The three results of `send`; the response may come with an error.
pub record Sent : Type 0 where
  pub response : Option HttpResponse
  pub body : String
  pub failure : Option Error

abbrev pub read_failure : Option String → Option Error
read_failure none = none
read_failure (some m) = some (new_error code_network (String.◌++◌ "reading response: " m))

-- The mapped status, which comes before an error of reading the body.
abbrev pub first_error : Option Error → Option Error → Option Error
first_error (some e) o = some e
first_error none o = o

unfoldable pub classify : Codec → ℤ → Reply → Sent
classify codec now (failed m) = record {
  response = none;
  body = "";
  failure = some (new_error code_network (String.◌++◌ "network error: " m));
}
classify codec now (answered resp body rerr) = record {
  response = some resp;
  body = body;
  failure = first_error (map_http now resp (codec.message body)) (read_failure rerr);
}

abbrev pub lift_decoded : {A : Type 0} → String → Decoded A → M A
lift_decoded what (decoded a) = pure a
lift_decoded what (undecodable m) = fail_with code_internal (String.◌++◌ what m)

-- `if perr := …; perr != nil { return perr }`
unfoldable pub check : Option Error → M (Unit {0})
unfolding pure throw
check none = pure tt
check (some e) = throw (coded e)

unfoldable pub check_go : Option GoError → M (Unit {0})
unfolding pure throw
check_go none = pure tt
check_go (some e) = throw e

-- The error of a request that cannot be built.
unfoldable pub check_url : Option String → M (Unit {0})
unfolding pure fail_with
check_url none = pure tt
check_url (some m) = fail_with code_internal m

module _ (env : Env) where
  open env use {network, clock, codec, url_error, token_err, gql_url}

  -- `send`
  unfoldable pub send : Call → M Sent
  unfolding classify
  send call s =
      (ok (classify codec (clock s.sent) (network s.sent call)), record s { sent = call ∷ s.sent })

  -- A call of `send` by a function that uses the body alone.
  unfoldable pub fetch : Call → M String
  fetch call = do r ← send call; check r.failure; pure r.body

  abbrev pub rest_media : String
  rest_media = "application/vnd.github+json"

  -- `getJSON`
  unfoldable pub get_json : {A : Type 0} → (String → Decoded A) → String → M A
  get_json decode raw_url = do
    check_go token_err
    check_url (url_error raw_url)
    body ← fetch (get raw_url rest_media)
    lift_decoded "decoding response: " (decode body)

  -- `graphql` up to the `data` field.
  unfoldable pub graphql_data : String → Vars → M String
  graphql_data document vars = do
    check_go token_err
    check_url (url_error gql_url)
    body ← fetch (post document vars)
    e ← lift_decoded "decoding graphql response: " (codec.envelope body)
    check (map_graphql e.errors)
    pure e.data_text

  -- `graphql` with a value to decode into.
  unfoldable pub graphql : {A : Type 0} → (String → Decoded A) → String → Vars → M A
  graphql decode document vars = do
    found ← graphql_data document vars
    lift_decoded "decoding graphql data: " (decode found)

  -- `graphql` with `out == nil`.
  unfoldable pub graphql_nil : String → Vars → M (Unit {0})
  graphql_nil document vars = do found ← graphql_data document vars; pure tt

-- `ClearCache`
unfoldable pub clear_cache : M (Unit {0})
clear_cache s = (ok tt, record s { cache = clear_all s.cache })

-- `nextCursor`
unfoldable pub next_cursor : String → PageInfo → Option String
next_cursor prev info =
    if not info.has_next_page || info.end_cursor == "" || info.end_cursor == prev
    then none
    else some info.end_cursor
