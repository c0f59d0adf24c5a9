-- ===== src/Github/Errors.antt =====
-- internal/github/errors.go: the mapping of GitHub's answers to the closed set of codes.
pub mod Classes
use Prim.Native.String
use differ_nvim.Common.{
  ℕ, zero, suc, ◌+◌, ◌-◌, ◌≤◌, ◌<◌, String, Bool, true, false, ◌&&◌, ◌||◌, Option, none, some, List,
  [], ◌∷◌, ltb, leb, eqb, ◌==◌, if◌then◌else◌, map,
}
use differ_nvim.Common.Int.{ℤ, pos, negsuc, ◌-ℤ◌, ltb_ℤ, wrap_int64}
use differ_nvim.Common.Text.{codes, lower, contains, Parsed, value, outside, syntax, parse_int}
use differ_nvim.Protocol.{
  Error, new_error, rate_limited, code_auth, code_not_found, code_conflict, code_bad_request,
  code_internal,
}

-- What the code reads of an `http.Response`; `header` is `Header.Get`.
pub record HttpResponse : Type 0 where
  pub status_code : ℕ
  pub status : String
  pub header : String → String

abbrev hint : Parsed → Option ℤ
hint (value n) = some n
hint (outside _) = none
hint syntax = none

-- `strconv.Atoi` and `ParseInt`, where an error means that the header is passed over.
abbrev pub atoi : String → Option ℤ
atoi s = hint (parse_int (codes s))

-- `if secs := int(epoch - now); secs > 0`, with no hint otherwise.
unfoldable pub reset_hint : Option ℤ → ℤ → ℤ
reset_hint none now = pos 0
reset_hint (some epoch) now =
    let secs = wrap_int64 (epoch -ℤ now) in if ltb_ℤ (pos 0) secs then secs else pos 0

-- The second half of `rateLimited`: a spent budget, with its reset time.
unfoldable pub budget_spent : ℤ → HttpResponse → Option ℤ
unfolding reset_hint
budget_spent now resp =
    if resp.header "X-RateLimit-Remaining" == "0"
    then some (reset_hint (atoi (resp.header "X-RateLimit-Reset")) now)
    else none

-- `rateLimited`: the hint in seconds, or `none` where the response is no rate limit. `now` is the
-- clock, in seconds of the Unix epoch.
unfoldable pub rate_limit : ℤ → HttpResponse → Option ℤ
unfolding budget_spent
rate_limit now resp = elim (atoi (resp.header "Retry-After")) [
  | some n ↦ some n
  | none ↦ budget_spent now resp
]

-- `secondaryLimit`
unfoldable pub secondary_limit : String → Bool
secondary_limit msg =
    let l = map lower (codes msg) in
    contains l (codes "secondary rate limit") || contains l (codes "abuse detection")

-- `githubMessage`, over the message that the body decodes to; `none` is a body that is no JSON.
unfoldable pub github_message : Option String → String → String
github_message none fallback = fallback
github_message (some message) fallback = if message == "" then fallback else message

abbrev pub limited : String → Option ℤ → Error
limited msg none = rate_limited msg (pos 0)
limited msg (some n) = rate_limited msg n

-- The `StatusForbidden` case.
unfoldable pub forbidden : ℤ → HttpResponse → String → Error
forbidden now resp msg = elim (rate_limit now resp) [
  | some n ↦ rate_limited msg n
  | none ↦ if secondary_limit msg then rate_limited msg (pos 0) else new_error code_auth msg
]

-- `mapHTTP` over the decoded message of the body; `none` is a 2xx response.
unfoldable pub map_http : ℤ → HttpResponse → Option String → Option Error
map_http now resp body =
    let msg = github_message body resp.status in
    if leb 200 resp.status_code && ltb resp.status_code 300
    then none
    else some (
        if eqb resp.status_code 401
        then new_error code_auth msg
        else if eqb resp.status_code 403
        then forbidden now resp msg
        else if eqb resp.status_code 429
        then limited msg (rate_limit now resp)
        else if eqb resp.status_code 404
        then new_error code_not_found msg
        else if eqb resp.status_code 409
        then new_error code_conflict msg
        else if eqb resp.status_code 422
        then new_error code_bad_request msg
        else new_error code_internal msg)

-- `gqlError`
pub record GqlError : Type 0 where
  pub type : String
  pub message : String

-- The cases of the `switch` of `mapGraphQL`, from the last one up.
abbrev pub refused : String → String → Error
refused type msg =
    if type == "UNPROCESSABLE" then new_error code_bad_request msg else new_error code_internal msg

abbrev pub limit : String → String → Error
limit type msg = if type == "RATE_LIMITED" then rate_limited msg (pos 0) else refused type msg

abbrev pub denied : String → String → Error
denied type msg =
    if type == "FORBIDDEN" || type == "INSUFFICIENT_SCOPES"
    then new_error code_auth msg
    else limit type msg

unfoldable pub graphql_error : String → String → Error
graphql_error type msg =
    if type == "NOT_FOUND" then new_error code_not_found msg else denied type msg

-- `mapGraphQL`
unfoldable pub map_graphql : List GqlError → Option Error
map_graphql [] = none
map_graphql (e ∷ _) =
    some (graphql_error e.type (if e.message == "" then "graphql error" else e.message))
