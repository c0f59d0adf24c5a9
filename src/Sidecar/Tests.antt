-- ===== src/Sidecar/Tests.antt =====
-- The sidecar on a small input: a `hello`, and `get_checks` of a pull request.
use differ_nvim.Common.{
  arith, false, ◌≡◌, refl, true, ◌≤◌, ◌*◌, ℕ, String, none, some, List, [], ◌∷◌, Option, eqb,
  if◌then◌else◌, All,
}
use differ_nvim.Common.Int.{pos}
use differ_nvim.Protocol.{Request, err, GoError, coded, new_error, code_gh_missing}
use differ_nvim.Github.Auth.{Host, resolve_token, first_token, token_of_gh, error_of}
use differ_nvim.Github.Cache.Valid.{IsValid}
use differ_nvim.Github.Client.{Decoded, decoded, undecodable, Session}
use differ_nvim.Github.Sample.{sample_env, fresh_session}
use differ_nvim.Handlers.Methods.{Answer, ParamCodec, Deps}
use differ_nvim.Handlers.Reads.{HelloParams, hello}
use differ_nvim.Server.Frame.{newline, Frame, fine, read_slice, trim_suffix, frame_loop, read_frame}
use differ_nvim.Sidecar.Before.{sidecar_before_hello}
use differ_nvim.Server.Session.{
  Engine, Reach, here, next, read, start, emit, admit, dispatch, take_request, report_oversized,
  take_line, take_frame, receive,
}
use differ_nvim.Server.Session.Ending.{run_closes}
use differ_nvim.Server.Session.Wire.{IsWire}
use differ_nvim.Sidecar.{sidecar, main_engine, fresh_client}
use differ_nvim.Sidecar.Greeting.{Greeted, hello-Greeted}
use differ_nvim.Sidecar.Whole.{sidecar_answers, sidecar_without_token, sidecar_cache}
use differ_nvim.Common.Spaces.{trim_space}

-- A host with a token in its environment, and one with neither a token nor `gh`.
abbrev pub ready : Host
ready = record { getenv = λ name. "token"; gh = none }

abbrev bare : Host
bare = record { getenv = λ name. ""; gh = none }

abbrev this_client : HelloParams
this_client = record { client = "differ.nvim"; protocol = pos 1 }

abbrev unread : {A : Type 0} → String → Decoded A
unread t = undecodable t

abbrev sample_params : ParamCodec
sample_params = record {
  hello = λ t. decoded this_client;
  list_prs = unread;
  pr = λ t. decoded (record { owner = "o"; repo = "r"; number = pos 1 });
  file_versions = unread;
  submit_review = unread;
  discard_review = unread;
  post_comment = unread;
  issue_comment = unread;
  delete_comment = unread;
  resolve_thread = unread;
  file_viewed = unread;
  merge = unread;
  pr_state = unread;
}

abbrev pub sample_deps : Deps
sample_deps = record {
  gh = sample_env;
  codec = sample_params;
  binary = "0.1.0";
  base_first = λ s. true;
}

-- A frame of one byte: `h` for `hello`, any other for `get_checks`.
abbrev sample_request : List ℕ → Option Request
sample_request [] = none
sample_request (b ∷ c ∷ line) = none
sample_request (b ∷ []) =
    some
      (record { id = pos b; method = if eqb b b'h' then "hello" else "get_checks"; params = "{}" })

abbrev sample_input : List ℕ
sample_input = b'h' ∷ newline ∷ b'c' ∷ newline ∷ []

-- The sidecar at the end of its input.
abbrev ended : Host → Engine Session Answer
ended host = (run_closes (sidecar host sample_deps) sample_request (main_engine sample_input)).0.0

ending :
    (host : Host)
    → Reach (sidecar host sample_deps) sample_request (main_engine sample_input) (ended host)
ending host = (run_closes (sidecar host sample_deps) sample_request (main_engine sample_input)).0.1

sidecar_answers_example : All IsWire (ended ready).outbound × All IsWire (ended ready).written
sidecar_answers_example =
    sidecar_answers ready sample_deps sample_request sample_input (ending ready)

sidecar_cache_example :
    IsValid (ended ready).shared.cache × ((ended ready).shared.cache.bytes ≤ 64 * 1024 * 1024)
sidecar_cache_example = sidecar_cache ready sample_deps sample_request sample_input (ending ready)

abbrev no_gh : GoError
no_gh =
    coded (
      new_error code_gh_missing "no token in GH_TOKEN/GITHUB_TOKEN and the gh CLI is not installed")

bare_fails : resolve_token bare ≡ err no_gh
unfolding resolve_token first_token token_of_gh trim_space
bare_fails = refl

sidecar_without_token_example : (ended bare).shared.sent ≡ []
sidecar_without_token_example =
    sidecar_without_token bare sample_deps sample_request sample_input no_gh bare_fails
      (ending bare)

hello-Greeted_example :
    Greeted ready this_client
      (hello sample_env.itoa "0.1.0"
        (some (error_of (resolve_token ready)))
        this_client
        fresh_session).0
    × ((hello sample_env.itoa "0.1.0"
          (some (error_of (resolve_token ready)))
          this_client
          fresh_session).1
        ≡ fresh_session)
hello-Greeted_example = hello-Greeted ready sample_env.itoa "0.1.0" this_client fresh_session

-- A `get_checks` before any `hello` is refused.
abbrev early_input : List ℕ
early_input = b'c' ∷ newline ∷ []

abbrev early_frame : Frame
early_frame = record { line = b'c' ∷ []; oversized = false; status = fine; rest = [] }

abbrev too_early : Engine Session Answer
too_early = receive (sidecar ready sample_deps) sample_request early_frame (main_engine early_input)

early_read : Reach (sidecar ready sample_deps) sample_request (main_engine early_input) too_early
unfolding main_engine start receive read_frame frame_loop read_slice trim_suffix take_frame
    take_line report_oversized take_request dispatch admit emit
early_read = next here (read (main_engine early_input) early_frame refl refl (omega arith))

still_waiting : too_early.hello_ok ≡ false
unfolding main_engine start receive take_frame take_line report_oversized take_request dispatch
    admit emit
still_waiting = refl

sidecar_before_hello_example : too_early.shared ≡ fresh_client
sidecar_before_hello_example =
    sidecar_before_hello ready sample_deps sample_request early_input early_read still_waiting
