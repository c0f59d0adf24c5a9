-- ===== src/Plugin/Tests.antt =====
-- Runs of the plugin's client. In a line of the process, the first byte is the id of the answer; a second
-- byte is an error.
use differ_nvim.Common.{
  ℕ, suc, ◌+◌, ◌≡◌, ◌⊎◌, refl, true, false, ◌||◌, Option, none, some, List, [], ◌∷◌, ◌++◌, map,
  arith, eqb, ◌==◌, if◌then◌else◌,
}
use differ_nvim.Common.Int.{pos}
use differ_nvim.Common.Text.{codes}
use differ_nvim.Protocol.{Request, Response}
use differ_nvim.Server.Frame.{newline}
use differ_nvim.Server.Frame.Cut.{split_line}
use differ_nvim.Server.Run.{is_ok}
use differ_nvim.Handlers.Methods.{Answer}
use differ_nvim.Sidecar.{sidecar, main_engine}
use differ_nvim.Sidecar.Tests.{ready, sample_deps}
use differ_nvim.Plugin.Streams.{Line, with_tail, join_lines}
use differ_nvim.Plugin.State.{
  nil, no_error, indexed, unindexed, encodable, caller, Outgoing, Queued, answered, Reply, Json,
  Client, Shell, given,
}
use differ_nvim.Plugin.Client.{hello_frame, spawned, new_client}
use differ_nvim.Plugin.Process.{with_buffer, dispatch_lines}
use differ_nvim.Plugin.Events.{
  Plugin, here, Event, asks, stops, turns, prints, logs, exits, happen, history, at_load,
}
use differ_nvim.Plugin.Callers.{dropped_times, in_job, waited, called_times}
use differ_nvim.Plugin.Answered.{history-callers}
use differ_nvim.Plugin.Answered.Stopped.{many_turns, stop-calls_all}
use differ_nvim.Plugin.Lines.{cut, stream_of}
use differ_nvim.Plugin.Lines.Chunks.{prints-joined, prints-stream}
use differ_nvim.Plugin.Lines.Logs.{logging, logs-newest}
use differ_nvim.Plugin.Live.{greets, hears, arms}
use differ_nvim.Plugin.Waiting.{queue-waits}
use differ_nvim.Plugin.Frames.{IsRising}
use differ_nvim.Plugin.Frames.Run.{frames-greet_first}
use differ_nvim.Plugin.Served.{served, asked, plugin-admitted}
use differ_nvim.Plugin.Tail.{Tail, with_tail-Tail}

abbrev sample_reply : Line → Option Reply
sample_reply [] = none
sample_reply (id ∷ []) = some (record { id = id; error = no_error; result = some "{}" })
sample_reply (id ∷ b ∷ line) = some (record {
  id = id;
  error =
      if eqb b b'?'
      then unindexed
      else indexed (record { code = nil; message = nil; retry_after = nil });
  result = none;
})

abbrev sample_json : Json
sample_json = record {
  reply = sample_reply;
  hello = λ r. some (record { protocol = some (pos 1); binary = some "0.1.0" });
  itoa = λ n. b'0' ∷ [];
}

abbrev ask_of : ℕ → Queued
ask_of k = record { method = "get_pr"; params = encodable (some "{}"); owner = k }

-- A caller asks; the process answers the handshake, and then the caller.
abbrev started : List Event
started = asks spawned (ask_of 7) ∷ []

abbrev greeted_well : List Event
greeted_well = asks spawned (ask_of 7) ∷ prints 0 (1 ∷ newline ∷ []) ∷ turns spawned ∷ []

abbrev served_once : List Event
served_once = greeted_well ++ prints 0 (2 ∷ []) ∷ prints 0 (newline ∷ []) ∷ turns spawned ∷ []

-- The process dies before it has answered the handshake, and another caller starts it again before the
-- main loop has called the callback of the first handshake.
abbrev stale_greeting : List Event
stale_greeting =
    asks spawned (ask_of 7) ∷ exits 0 (pos 2) ∷ asks spawned (ask_of 8) ∷ turns spawned ∷ []

abbrev after : List Event → Plugin
after es = history sample_json es at_load

abbrev client_of : Plugin → Client
client_of (none, sh) = new_client 0
client_of (some c, sh) = c

abbrev the_client : List Event → Client
the_client es = client_of (after es)

-- The caller is answered, from two chunks.
served_once-called : (after served_once).1.called ≡ (7, answered (some "{}")) ∷ []
unfolding history at_load happen split_line
served_once-called = refl

-- The failure of the first handshake ends the process that was started since, and fails its caller.
stale_greeting-ends :
    ((after stale_greeting).0 ≡ none)
    × (map (in_job 8) (after stale_greeting).1.jobs ≡ 0 ∷ 0 ∷ 1 ∷ [])
unfolding history at_load happen split_line
stale_greeting-ends = (refl, refl)

-- A line with a null error drops the callback that it answers, and the line behind it.
abbrev null_error : List Event
null_error = greeted_well ++ prints 0 (2 ∷ b'?' ∷ newline ∷ []) ∷ turns spawned ∷ []

null_error-drops :
    ((after null_error).1.called ≡ []) × ((after null_error).1.raised ≡ caller 7 ∷ [])
unfolding history at_load happen split_line
null_error-drops = (refl, refl)

history-callers_example : waited 7 (after served_once) + called_times 7 (after served_once) ≡ 1
unfolding history at_load happen split_line
history-callers_example = history-callers sample_json 7 served_once

stop-calls_all_example :
    called_times 7 (history sample_json (started ++ stops ∷ many_turns spawned 2) at_load)
      + dropped_times 7 (history sample_json (started ++ stops ∷ many_turns spawned 2) at_load)
    ≡ 1
unfolding history at_load happen split_line
stop-calls_all_example = stop-calls_all sample_json 7 started spawned 2 (omega arith)

-- The process has died, and its restart waits.
abbrev died : List Event
died = asks spawned (ask_of 7) ∷ exits 0 (pos 2) ∷ []

queue-waits_example :
    (arms 0 (after died).1 ≡ true)
    ⊎ (((the_client died).running ≡ true)
        × ((the_client died).ready ≡ false)
        × ((greets 0 (the_client died).pending || hears 0 (after died).1.jobs) ≡ true))
unfolding history at_load happen split_line
queue-waits_example = queue-waits sample_json died (the_client died) (after died).1 refl refl refl

abbrev call_frame : Outgoing
call_frame = record { id = 2; method = "get_pr"; params = given (some "{}") }

abbrev two_frames : List Outgoing
two_frames = hello_frame 1 ∷ call_frame ∷ []

frames-greet_first_example :
    (id : ℕ) × (rest : List Outgoing) × (two_frames ≡ hello_frame id ∷ rest)
    × IsRising (suc id) 3 rest
    × ((the_client greeted_well).ready ≡ false → rest ≡ [])
unfolding history at_load happen split_line
frames-greet_first_example =
    frames-greet_first sample_json greeted_well (the_client greeted_well) (after greeted_well).1
      two_frames refl refl

-- Frames as lines of two bytes.
abbrev encoded : Outgoing → List ℕ
encoded f = f.id ∷ (if f.method == "hello" then b'h' else b'c') ∷ []

abbrev decoded_line : List ℕ → Option Request
decoded_line [] = none
decoded_line (id ∷ []) = none
decoded_line (id ∷ b ∷ line) =
    some (record { id = pos id; method = if eqb b b'h' then "hello" else "get_pr"; params = "{}" })

plugin-admitted_example :
    ((served (sidecar ready sample_deps) decoded_line encoded two_frames (main_engine [])).inflight
      ≡ asked (λ p. "{}") call_frame ∷ [])
    × ((answer : Response Answer) × ((served
            (sidecar ready sample_deps)
            decoded_line
            encoded
            two_frames
            (main_engine [])).outbound
          ≡ answer ∷ [])
        × (is_ok answer ≡ true))
unfolding history at_load happen split_line
plugin-admitted_example =
    plugin-admitted ready sample_deps (λ p. "{}") sample_json greeted_well (the_client greeted_well)
      (after greeted_well).1 two_frames decoded_line encoded []
      ((1, b'h' ∷ [], refl, refl), ((2, b'c' ∷ [], refl, refl), tt)) refl refl refl refl (refl, tt)

abbrev two_chunks : List (List ℕ)
two_chunks = (1 ∷ newline ∷ 2 ∷ []) ∷ (newline ∷ []) ∷ []

abbrev the_world : Shell
the_world = at_load.1

prints-joined_example :
    history sample_json (map (prints 0) two_chunks) (some (new_client 0), the_world)
    ≡ happen sample_json
        (prints 0 (1 ∷ newline ∷ 2 ∷ newline ∷ []))
        (some (new_client 0), the_world)
unfolding new_client cut
prints-joined_example =
    prints-joined sample_json two_chunks (new_client 0) the_world refl (refl, (refl, tt))

prints-stream_example :
    history sample_json (map (prints 0) two_chunks) (some (new_client 0), the_world)
    ≡ here (
        with_buffer []
          (dispatch_lines sample_json ((1 ∷ []) ∷ (2 ∷ []) ∷ []) (new_client 0) the_world))
unfolding new_client stream_of
prints-stream_example =
    prints-stream sample_json ((1 ∷ []) ∷ (2 ∷ []) ∷ []) two_chunks (new_client 0) the_world
      ((refl, λ e. cc e), ((refl, λ e. cc e), tt)) (refl, (refl, tt)) refl refl

logs-newest_example :
    history sample_json (map (logs 0) two_chunks) (some (new_client 0), the_world)
    ≡ (some (logging (cut [] (1 ∷ newline ∷ 2 ∷ newline ∷ [])) (new_client 0)), the_world)
unfolding new_client cut
logs-newest_example = logs-newest sample_json two_chunks (new_client 0) the_world refl (omega arith)

with_tail-Tail_example :
    (tail : List Line) × (with_tail (codes "exited") (codes "first" ∷ codes "last" ∷ [])
      ≡ codes "exited" ++ newline ∷ join_lines tail)
    × Tail (codes "first" ∷ codes "last" ∷ []) tail
with_tail-Tail_example = with_tail-Tail (codes "exited") (codes "first") (codes "last" ∷ [])
