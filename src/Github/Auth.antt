-- ===== src/Github/Auth.antt =====
-- internal/github/auth.go: `ResolveToken` and `TokenStatus`. The environment and the `gh` program are
-- parameters.
pub mod Tokens
use differ_nvim.Common.{
  String, Bool, true, false, Option, none, some, List, [], ◌∷◌, ◌==◌, if◌then◌else◌,
}
use differ_nvim.Common.Spaces.{trim_space}
use differ_nvim.Protocol.{
  GoError, coded, plain, Result, ok, err, new_error, code_auth, code_gh_missing, code_internal,
}

-- What a run of `gh auth token` comes to: its output, an error after the deadline, or another error.
pub data GhRun : Type 0 where
  printed : String → GhRun
  timed_out exited : GhRun

-- `os.Getenv`, and the run of the `gh` that `exec.LookPath` finds, if it finds one.
pub record Host : Type 0 where
  pub getenv : String → String
  pub gh : Option GhRun

abbrev pub failure : String → String → Result String
failure code message = err (coded (new_error code message))

-- `ResolveToken` behind a run of `gh`.
unfoldable pub token_of_run : GhRun → Result String
token_of_run timed_out =
    failure code_auth "`gh auth token` did not answer in time; is your keyring unlocked?"
token_of_run exited = failure code_auth "gh is installed but not authenticated; run `gh auth login`"
token_of_run (printed out) =
    if trim_space out == ""
    then failure code_auth "gh returned an empty token; run `gh auth login`"
    else ok (trim_space out)

unfoldable pub token_of_gh : Option GhRun → Result String
unfolding token_of_run
token_of_gh none =
    failure code_gh_missing "no token in GH_TOKEN/GITHUB_TOKEN and the gh CLI is not installed"
token_of_gh (some run) = token_of_run run

-- The loop over the environment variables, and what comes after it.
unfoldable pub first_token : Host → List String → Result String
first_token h [] = token_of_gh h.gh
first_token h (name ∷ names) =
    let rest = first_token h names in
    let v = trim_space (h.getenv name) in if v == "" then rest else ok v

-- `ResolveToken`
unfoldable pub resolve_token : Host → Result String
unfolding first_token token_of_gh
resolve_token h = first_token h ("GH_TOKEN" ∷ "GITHUB_TOKEN" ∷ [])

-- The error that `main` hands to `New`.
abbrev pub error_of : Result String → Option GoError
error_of (ok token) = none
error_of (err e) = some e

-- `TokenStatus`
unfoldable pub token_status : Option GoError → String × String
token_status none = ("ok", "")
token_status (some (coded e)) = (e.code, e.message)
token_status (some (plain m)) = (code_internal, m)
