-- ===== src/Plugin/Events.antt =====
-- lua/differ/sidecar/init.lua: what the main loop, libuv and the callers make the client do.
use differ_nvim.Common.{
  ℕ, suc, String, Bool, true, false, not, ◌||◌, Option, none, some, List, [], ◌∷◌, ◌++◌, eqb,
  if◌then◌else◌,
}
use differ_nvim.Common.Int.{ℤ, eqb_ℤ}
use differ_nvim.Common.Text.{codes}
use differ_nvim.Plugin.State.{
  Value, nil, text, number, other, Callback, caller, greeter, Failure, Outcome, failed, answered,
  Queued, Hello, Json, Client, Job, call, timed_out, retry, Shell,
}
use differ_nvim.Plugin.Client.{
  mkerr, new_client, pending_at, forget, schedule, lose, dropped_by, flush_dropped, teardown,
  do_request, flush_queue, Spawn, start, schedule_restart, protocol,
}
use differ_nvim.Plugin.Process.{on_exit, on_stderr, on_stdout}

-- `client` of the module, and everything else.
abbrev pub Plugin : Type 0
Plugin = Option Client × Shell

abbrev pub here : Client × Shell → Plugin
here (c, sh) = (some c, sh)

-- `err.message or err.code`, as a part of a string; none where it cannot be joined to one.
abbrev pub joinable : Value → Option (List ℕ)
joinable nil = none
joinable (text t) = some t
joinable (number t) = some t
joinable (other json) = none

abbrev pub reason_with : Value → Value → Option (List ℕ)
reason_with nil code = joinable code
reason_with (text t) code = some t
reason_with (number t) code = some t
reason_with (other json) code = none

abbrev pub reason : Failure → Option (List ℕ)
reason e = reason_with e.message e.code

abbrev pub speaks : Option Hello → Bool
speaks none = false
speaks (some h) = elim h.protocol [ none ↦ false | some p ↦ eqb_ℤ p protocol ]

abbrev pub binary_of : Option Hello → Option String
binary_of none = none
binary_of (some h) = h.binary

-- A failed handshake of a running client; an error in the making of its text leaves all as it is.
abbrev pub handshake_failed : Option (List ℕ) → Client → Shell → Plugin
handshake_failed none c sh = (some c, lose (greeter c.self ∷ []) sh)
handshake_failed (some why) c sh =
    (none, teardown (mkerr "internal" (codes "sidecar handshake failed: " ++ why)) c sh)

module _ (json : Json) where
  abbrev pub made_ready : Option String → Client → Client
  made_ready result c = record c {
    ready = true;
    attempts = 0;
    binary = binary_of (json.hello result);
  }

  -- The callback of `handshake`, when the client is the one that it belongs to.
  unfoldable pub greeted : Outcome → Client → Shell → Plugin
  unfolding teardown flush_queue flush_dropped
  greeted (failed e) c sh = if not c.running then (some c, sh) else handshake_failed (reason e) c sh
  greeted (answered result) c sh =
      if not (speaks (json.hello result))
      then (
        none,
        teardown
            (mkerr "internal"
              (codes "sidecar protocol mismatch; rebuild it with make go-build or go install"))
            c sh,
      )
      else if not c.running
      then (some c, sh)
      else (some (flush_queue (made_ready result c)), lose (flush_dropped (made_ready result c)) sh)

  -- A call of a callback.
  unfoldable pub run_callback : Callback → Outcome → Plugin → Plugin
  unfolding greeted
  run_callback (caller k) o (client, sh) = (client, record sh { called = sh.called ++ (k, o) ∷ [] })
  run_callback (greeter g) o (none, sh) = (none, sh)
  run_callback (greeter g) o (some c, sh) = if eqb g c.self then greeted o c sh else (some c, sh)

  -- The end of a timeout in the main loop, whose client is there: `take`, then the call.
  abbrev pub expire : ℕ → Option Callback → Client → Shell → Plugin
  expire id none c sh = (some c, sh)
  expire id (some cb) c sh =
      run_callback cb (failed (mkerr "network" (codes "the sidecar did not answer in time")))
        (some (record c { pending = forget id c.pending }), sh)

  abbrev pub after_start : Client × Option (List ℕ) → Shell → Plugin
  after_start (c, none) sh = (some c, sh)
  after_start (c, some why) sh = here (schedule_restart json c sh)

  -- A job of the main loop; a restart meets `spawn` if it starts the process.
  unfoldable pub run_job : Spawn → Job → Plugin → Plugin
  unfolding run_callback pending_at forget start schedule_restart
  run_job spawn (call cb o) p = run_callback cb o p
  run_job spawn (timed_out g id) (none, sh) = (none, sh)
  run_job spawn (timed_out g id) (some c, sh) =
      if eqb g c.self then expire id (pending_at id c.pending) c sh else (some c, sh)
  run_job spawn (retry g) (none, sh) = (none, sh)
  run_job spawn (retry g) (some c, sh) =
      if not (eqb g c.self) || c.stopping || c.running
      then (some c, sh)
      else after_start (start spawn c) sh

-- `M.request` with the client that it finds or makes; an error is raised to the caller.
abbrev pub ask : Queued → Client → Shell → Client × Shell
ask q c sh =
    if c.ready
    then (do_request q c, lose (dropped_by q c) sh)
    else (record c { queue = c.queue ++ q ∷ [] }, sh)

abbrev pub ask_started : Queued → Client × Option (List ℕ) → Shell → Client × Shell
ask_started q (c, none) sh = ask q c sh
ask_started q (c, some why) sh =
    (c, schedule (call (caller q.owner) (failed (mkerr "internal" why)) ∷ []) sh)

unfoldable pub request_of : Spawn → Queued → Client → Shell → Client × Shell
unfolding do_request start
request_of spawn q c sh = if not c.running then ask_started q (start spawn c) sh else ask q c sh

-- `M.request`
unfoldable pub request : Spawn → Queued → Plugin → Plugin
unfolding new_client request_of
request spawn q (none, sh) = here (
    request_of spawn q (new_client sh.next_client) (record sh { next_client = suc sh.next_client }))
request spawn q (some c, sh) = here (request_of spawn q c sh)

-- `M.stop`
unfoldable pub stop : Plugin → Plugin
unfolding teardown
stop (none, sh) = (none, sh)
stop (some c, sh) = (none, teardown (mkerr "internal" (codes "sidecar stopped")) c sh)

-- What happens to the client: a call of `request` or `stop`, the turn of the oldest job, data and the
-- exit of a process, with the client that started it, the end of a timeout, and that of a delay.
pub data Event : Type 0 where
  asks : Spawn → Queued → Event
  stops : Event
  turns : Spawn → Event
  prints logs : ℕ → List ℕ → Event
  exits : ℕ → ℤ → Event
  expires : ℕ → ℕ → Event
  is_due : ℕ → Event

-- `owned`: a process that an earlier client started is not listened to.
abbrev pub owned : ℕ → (Client → Shell → Client × Shell) → Plugin → Plugin
owned g f (none, sh) = (none, sh)
owned g f (some c, sh) = if eqb g c.self then here (f c sh) else (some c, sh)

abbrev pub keep_delay : ℕ × ℕ → Option (List (ℕ × ℕ)) → Option (List (ℕ × ℕ))
keep_delay d none = none
keep_delay d (some l) = some (d ∷ l)

-- The delay of a restart of the client, if one runs, ends.
unfoldable pub drop_delay : ℕ → List (ℕ × ℕ) → Option (List (ℕ × ℕ))
drop_delay g [] = none
drop_delay g ((k, ms) ∷ rest) =
    let later = drop_delay g rest in if eqb g k then some rest else keep_delay (k, ms) later

abbrev pub ended : Option (List (ℕ × ℕ)) → ℕ → Shell → Shell
ended none g sh = sh
ended (some l) g sh = schedule (retry g ∷ []) (record sh { delayed = l })

unfoldable pub delay_over : ℕ → Shell → Shell
unfolding drop_delay
delay_over g sh = ended (drop_delay g sh.delayed) g sh

module _ (json : Json) where
  unfoldable pub turn : Spawn → List Job → Plugin → Plugin
  unfolding run_job
  turn spawn [] p = p
  turn spawn (j ∷ js) (client, sh) = run_job json spawn j (client, record sh { jobs = js })

  unfoldable pub happen : Event → Plugin → Plugin
  unfolding request stop turn on_stdout on_stderr on_exit delay_over
  happen (asks spawn q) p = request spawn q p
  happen stops p = stop p
  happen (turns spawn) p = turn spawn p.1.jobs p
  happen (prints g chunk) p = owned g (on_stdout json chunk) p
  happen (logs g chunk) p = owned g (λ c sh. (on_stderr chunk c, sh)) p
  happen (exits g code) p = owned g (on_exit json code) p
  happen (expires g id) (client, sh) = (client, schedule (timed_out g id ∷ []) sh)
  happen (is_due g) (client, sh) = (client, delay_over g sh)

  unfoldable pub history : List Event → Plugin → Plugin
  unfolding happen
  history [] p = p
  history (e ∷ es) p = history es (happen e p)

-- The module as it is loaded.
unfoldable pub at_load : Plugin
at_load = (
  none,
  record { jobs = []; delayed = []; last_exit = none; next_client = 0; called = []; raised = [] },
)
