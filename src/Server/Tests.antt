-- ===== src/Server/Tests.antt =====
-- Runs of the server on a small input: the requests `h` (hello) and `p` (ping), one to a line.
use differ_nvim.Common.{
  subst, ℕ, ◌≡◌, refl, ◌<◌, ◌+◌, true, false, String, Option, none, some, List, [], ◌∷◌, eqb, ◌==◌,
  if◌then◌else◌, arith, All,
}
use differ_nvim.Common.Int.{pos}
use differ_nvim.Protocol.{Request, ok}
use differ_nvim.Server.Frame.{
  Frame, fine, read_slice, trim_suffix, frame_loop, discard_frame, read_frame, newline,
}
use differ_nvim.Server.Frame.Cut.{split_line}
use differ_nvim.Server.Frame.Lines.{frame_of, read_frame-frame_of}
use differ_nvim.Server.Run.{
  Handler, Registry, returned, panicked, run, settle, fail, bad_request, rpc_error,
}
use differ_nvim.Server.Run.Wire.{IsTame}
use differ_nvim.Server.Session.{
  Engine, start, emit, admit, dispatch, take_request, report_oversized, take_line, take_frame,
  receive, Step, read, Reach, here, next,
}
use differ_nvim.Server.Session.Account.{count, response_ids, input_ids, ids_loop}
use differ_nvim.Server.Session.Gate.{IsFailure, handshake_gate}
use differ_nvim.Server.Session.Answers.{answers_once}
use differ_nvim.Server.Session.Ending.{run_closes, measure}

abbrev greeting : Handler ℕ String
greeting params n = (returned (ok "differ"), n)

abbrev broken : Handler ℕ String
broken params n = (panicked, n + 1)

abbrev sample_registry : Registry ℕ String
sample_registry m =
    if m == "hello" then some greeting else if m == "ping" then some broken else none

abbrev sample_request : List ℕ → Option Request
sample_request [] = none
sample_request (b ∷ c ∷ line) = none
sample_request (b ∷ []) =
    if eqb b b'h'
    then some (record { id = pos 1; method = "hello"; params = "" })
    else if eqb b b'p'
    then some (record { id = pos 2; method = "ping"; params = "" })
    else none

abbrev ping_first : List ℕ
ping_first = b'p' ∷ newline ∷ b'h' ∷ newline ∷ []

abbrev ping_frame : Frame
ping_frame = record {
  line = b'p' ∷ [];
  oversized = false;
  status = fine;
  rest = b'h' ∷ newline ∷ [];
}

-- The engine at the start, and after the first frame.
abbrev at_start : Engine ℕ String
at_start = start 0 ping_first

abbrev after_ping : Engine ℕ String
after_ping = receive sample_registry sample_request ping_frame at_start

ping_read : Reach sample_registry sample_request at_start after_ping
unfolding start receive read_frame frame_loop read_slice trim_suffix take_frame take_line
    report_oversized take_request dispatch admit emit
ping_read = next here (read at_start ping_frame refl refl (omega arith))

-- The answer to a method other than `hello` is refused before the handshake.
refused_first : (after_ping.inflight ≡ []) × (response_ids after_ping.outbound ≡ pos 2 ∷ [])
unfolding start receive take_frame take_line report_oversized take_request dispatch admit emit
    bad_request fail
refused_first = (refl, refl)

still_gated : after_ping.hello_ok ≡ false
unfolding start receive take_frame take_line report_oversized take_request dispatch admit emit
still_gated = refl

handshake_gate_example :
    (after_ping.inflight ≡ [])
    × All IsFailure after_ping.outbound
    × All IsFailure after_ping.written
handshake_gate_example =
    handshake_gate sample_registry sample_request 0 ping_first ping_read still_gated

-- An engine that answers the two requests and ends.
abbrev ended : Engine ℕ String
ended = (run_closes sample_registry sample_request at_start).0.0

answers_once_example :
    count (pos 1) (response_ids ended.written) ≡ count (pos 1) (input_ids sample_request ping_first)
answers_once_example =
    answers_once sample_registry sample_request 0 ping_first
      (run_closes sample_registry sample_request at_start).0.1
      (run_closes sample_registry sample_request at_start).0.2 (pos 1)

-- The greeting and the refusal have one answer each.
two_answers : input_ids sample_request ping_first ≡ pos 2 ∷ pos 1 ∷ []
unfolding input_ids ids_loop read_frame frame_loop read_slice trim_suffix split_line frame_of
two_answers = refl

run_closes_example :
    ((f : Engine ℕ String) × Reach sample_registry sample_request at_start f × (f.closed ≡ true))
    × ((f : Engine ℕ String)
        → Step sample_registry sample_request at_start f
        → measure sample_registry sample_request f
          < measure sample_registry sample_request at_start)
run_closes_example = run_closes sample_registry sample_request at_start

-- With a buffer of two bytes, and a limit of three bytes a line.
read_frame-frame_of_example : read_frame 2 3 ping_first ≡ some (frame_of 3 (split_line ping_first))
read_frame-frame_of_example = read_frame-frame_of 2 (omega arith) 3 ping_first

-- A line of four bytes is past that limit, and the reader stands behind it.
long_line :
    read_frame 2 3 (b'h' ∷ b'e' ∷ b'l' ∷ b'o' ∷ newline ∷ b'p' ∷ [])
    ≡ some (record { line = []; oversized = true; status = fine; rest = b'p' ∷ [] })
unfolding read_frame frame_loop read_slice trim_suffix discard_frame
long_line = refl

-- A panic of a handler answers `internal` and keeps what the handler did to the shared state.
panic_answer :
    run sample_registry (record { id = pos 2; method = "ping"; params = "" }) 4
    ≡ (fail (pos 2) (rpc_error "internal" "internal error"), 5)
unfolding run settle fail
panic_answer = refl

abbrev ping_request : Request
ping_request = record { id = pos 2; method = "ping"; params = "" }

panic-IsTame :
    (h : Handler ℕ String) → sample_registry ping_request.method ≡ some h → IsTame (h "" 4).0
panic-IsTame h known =
    let same : broken ≡ h = cc known in subst (λ (k : Handler ℕ String). IsTame (k "" 4).0) same tt
