-- ===== src/Plugin/Process.antt =====
-- lua/differ/sidecar/init.lua: what the process makes the client do: its output, its log and its exit.
use differ_nvim.Common.{
  ℕ, String, Bool, true, false, Option, none, some, List, [], ◌∷◌, ◌++◌, if◌then◌else◌,
}
use differ_nvim.Common.Int.{ℤ}
use differ_nvim.Common.Text.{codes}
use differ_nvim.Plugin.Streams.{Line, consume_lines, push_line, with_tail}
use differ_nvim.Plugin.State.{
  Value, nil, text, number, other, ErrorField, no_error, indexed, unindexed, Callback, Outcome,
  failed, answered, Reply, Json, Client, call, Shell,
}
use differ_nvim.Plugin.Client.{
  mkerr, pending_at, forget, schedule, lose, fail_pending, schedule_restart,
}

-- `msg.error.code or "internal"`
abbrev pub code_of : Value → Value
code_of nil = text (codes "internal")
code_of (text code) = text code
code_of (number code) = number code
code_of (other code) = other code

abbrev pub outcome_with : ErrorField → Option String → Option Outcome
outcome_with no_error result = some (answered result)
outcome_with (indexed e) result =
    some
      (failed (record { code = code_of e.code; message = e.message; retry_after = e.retry_after }))
outcome_with unindexed result = none

-- The error or the result that an answer carries; none where the index of its error raises one.
unfoldable pub outcome_of : Reply → Option Outcome
outcome_of r = outcome_with r.error r.result

-- What follows `take` in `dispatch_line`: the call is scheduled, or the error drops it.
abbrev pub settle_with : Option Outcome → ℕ → Callback → Client → Shell → Client × Shell
settle_with none id cb c sh = (record c { pending = forget id c.pending }, lose (cb ∷ []) sh)
settle_with (some o) id cb c sh =
    (record c { pending = forget id c.pending }, schedule (call cb o ∷ []) sh)

-- A frame in `dispatch_line` whose id may be pending.
abbrev pub settle : Reply → Option Callback → Client → Shell → Client × Shell
settle r none c sh = (c, sh)
settle r (some cb) c sh = settle_with (outcome_of r) r.id cb c sh

abbrev pub dispatch_reply : Option Reply → Client → Shell → Client × Shell
dispatch_reply none c sh = (c, sh)
dispatch_reply (some r) c sh = settle r (pending_at r.id c.pending) c sh

-- If `dispatch_line` raises an error.
abbrev pub raises_at : Option Outcome → Option Callback → Bool
raises_at o none = false
raises_at none (some cb) = true
raises_at (some o) (some cb) = false

abbrev pub raises_reply : Option Reply → Client → Bool
raises_reply none c = false
raises_reply (some r) c = raises_at (outcome_of r) (pending_at r.id c.pending)

abbrev pub with_buffer : List ℕ → Client × Shell → Client × Shell
with_buffer buf (c, sh) = (record c { stdout_buf = buf }, sh)

-- `on_stderr` with data
unfoldable pub push_lines : List Line → List Line → List Line
unfolding push_line
push_lines [] log = log
push_lines (l ∷ ls) log = push_lines ls (push_line l log)

unfoldable pub on_stderr : List ℕ → Client → Client
unfolding consume_lines push_lines
on_stderr chunk c =
    let (lines, rest) = consume_lines (c.stderr_buf ++ chunk) in
    record c { stderr_buf = rest; stderr_log = push_lines lines c.stderr_log }

-- The last line of a log with no newline.
abbrev pub flush_stderr : List ℕ → List Line → List Line
flush_stderr [] log = log
flush_stderr (b ∷ buf) log = push_line (b ∷ buf) log

module _ (json : Json) where
  -- `dispatch_line`
  unfoldable pub dispatch_line : Line → Client → Shell → Client × Shell
  unfolding outcome_of pending_at forget
  dispatch_line line c sh = dispatch_reply (json.reply line) c sh

  abbrev pub raises_line : Line → Client → Bool
  raises_line line c = raises_reply (json.reply line) c

  -- The lines of a chunk; an error leaves those behind it.
  unfoldable pub dispatch_lines : List Line → Client → Shell → Client × Shell
  unfolding dispatch_line
  dispatch_lines [] c sh = (c, sh)
  dispatch_lines (l ∷ ls) c sh =
      let out = dispatch_line l c sh in
      let later = dispatch_lines ls out.0 out.1 in if raises_line l c then out else later

  unfoldable pub raises_lines : List Line → Client → Shell → Bool
  unfolding dispatch_line
  raises_lines [] c sh = false
  raises_lines (l ∷ ls) c sh =
      let out = dispatch_line l c sh in
      let later = raises_lines ls out.0 out.1 in if raises_line l c then true else later

  -- `on_stdout` with data; an error leaves the buffer as it was.
  unfoldable pub on_stdout : List ℕ → Client → Shell → Client × Shell
  unfolding consume_lines dispatch_lines raises_lines
  on_stdout chunk c sh =
      let (lines, rest) = consume_lines (c.stdout_buf ++ chunk) in
      let out = dispatch_lines lines c sh in
      if raises_lines lines c sh then out else with_buffer rest out

  -- The message of the errors of `on_exit`.
  unfoldable pub exit_message : ℤ → List Line → List ℕ
  unfolding with_tail
  exit_message code lines =
      with_tail (codes "sidecar exited (code " ++ (json.itoa code ++ codes ")")) lines

  -- `on_exit`
  unfoldable pub on_exit : ℤ → Client → Shell → Client × Shell
  unfolding push_line exit_message fail_pending schedule_restart
  on_exit code c sh =
      let log = flush_stderr c.stderr_buf c.stderr_log in
      let dead = record c {
        running = false;
        ready = false;
        proc = none;
        stderr_buf = [];
        stderr_log = log;
      } in
      let (c', sh') =
        fail_pending (mkerr "internal" (exit_message code log)) dead
          (record sh { last_exit = some (code, log) }) in
      if c'.stopping then (record c' { stopping = false }, sh') else schedule_restart json c' sh'
