-- ===== src/Plugin/Client.antt =====
-- lua/differ/sidecar/init.lua: the functions on the client, up to `schedule_restart`.
use differ_nvim.Common.{
  ℕ, zero, suc, ◌-◌, ◌*◌, String, Bool, true, false, Option, none, some, List, [], ◌∷◌, ◌++◌, map,
  eqb, ltb, leb, if◌then◌else◌,
}
use differ_nvim.Common.Int.{ℤ, pos}
use differ_nvim.Common.Text.{codes}
use differ_nvim.Plugin.Streams.{Line, with_tail}
use differ_nvim.Plugin.State.{
  Callback, Client, nil, text, Given, encodable, unencodable, Failure, Job, Json, Outgoing, Queued,
  Shell, call, caller, failed, given, greeter, hello_params,
}

-- `PROTOCOL` and the numbers of the backoff.
abbrev pub protocol : ℤ
protocol = pos 1

abbrev pub base_backoff_ms : ℕ
base_backoff_ms = 200

abbrev pub max_backoff_ms : ℕ
max_backoff_ms = 8000

abbrev pub max_attempts : ℕ
max_attempts = 5

-- `mkerr`
abbrev pub mkerr : String → List ℕ → Failure
mkerr code message = record { code = text (codes code); message = text message; retry_after = nil }

-- `new_client`
unfoldable pub new_client : ℕ → Client
new_client n = record {
  self = n;
  proc = none;
  running = false;
  ready = false;
  stopping = false;
  next_id = 1;
  pending = [];
  queue = [];
  stdout_buf = [];
  stderr_buf = [];
  stderr_log = [];
  attempts = 0;
  binary = none;
}

-- `client.pending[id]`
unfoldable pub pending_at : ℕ → List (ℕ × Callback) → Option Callback
pending_at id [] = none
pending_at id ((k, cb) ∷ rest) = if eqb id k then some cb else pending_at id rest

-- `client.pending[id] = nil`
unfoldable pub forget : ℕ → List (ℕ × Callback) → List (ℕ × Callback)
forget id [] = []
forget id ((k, cb) ∷ rest) =
    let others = forget id rest in if eqb id k then others else (k, cb) ∷ others

-- `await`; the timer is the entry's presence.
abbrev pub await : ℕ → Callback → Client → Client
await id cb c = record c { pending = forget id c.pending ++ (id, cb) ∷ [] }

abbrev pub schedule : List Job → Shell → Shell
schedule js sh = record sh { jobs = sh.jobs ++ js }

-- An error of Lua drops callbacks.
abbrev pub lose : List Callback → Shell → Shell
lose cbs sh = record sh { raised = sh.raised ++ cbs }

abbrev pub failing : Failure → ℕ × Callback → Job
failing e (id, cb) = call cb (failed e)

-- `fail_pending`; `pairs` gives the entries in some order, here in that of their registration.
unfoldable pub fail_pending : Failure → Client → Shell → Client × Shell
fail_pending e c sh = (record c { pending = [] }, schedule (map (failing e) c.pending) sh)

abbrev pub failing_queued : Failure → Queued → Job
failing_queued e q = call (caller q.owner) (failed e)

-- `fail_all`
unfoldable pub fail_all : Failure → Client → Shell → Client × Shell
unfolding fail_pending
fail_all e c sh =
    let (c', sh') = fail_pending e c sh in
    (record c' { queue = [] }, schedule (map (failing_queued e) c'.queue) sh')

-- `teardown`, after which there is no client.
unfoldable pub teardown : Failure → Client → Shell → Shell
unfolding fail_all
teardown e c sh = (fail_all e (record c { stopping = true; ready = false; running = false }) sh).1

-- `do_request`, with a process or without one. Without one the parameters are not encoded; with one, an
-- error of the encoding ends it before it writes.
abbrev pub request_with : Option (List Outgoing) → Given → Queued → Client → Client
request_with none params q c = record c { next_id = suc c.next_id; queue = c.queue ++ q ∷ [] }
request_with (some frames) unencodable q c = record c { next_id = suc c.next_id }
request_with (some frames) (encodable params) q c = await c.next_id (caller q.owner) (record c {
  next_id = suc c.next_id;
  proc = some (frames ++ record { id = c.next_id; method = q.method; params = given params } ∷ []);
})

unfoldable pub do_request : Queued → Client → Client
do_request q c = request_with c.proc q.params q c

-- If `do_request` raises an error.
abbrev pub raises_with : Option (List Outgoing) → Given → Bool
raises_with none params = false
raises_with (some frames) unencodable = true
raises_with (some frames) (encodable params) = false

abbrev pub raises : Queued → Client → Bool
raises q c = raises_with c.proc q.params

abbrev pub owner_of : Queued → Callback
owner_of q = caller q.owner

-- The callbacks that a request drops.
abbrev pub dropped_by : Queued → Client → List Callback
dropped_by q c = if raises q c then owner_of q ∷ [] else []

-- The loop of `flush_queue`, which an error ends.
unfoldable pub request_each : List Queued → Client → Client
unfolding do_request
request_each [] c = c
request_each (q ∷ qs) c =
    let later = request_each qs (do_request q c) in if raises q c then do_request q c else later

-- The callbacks that it drops: that of the error, and all behind it.
unfoldable pub dropped_each : List Queued → Client → List Callback
unfolding do_request
dropped_each [] c = []
dropped_each (q ∷ qs) c =
    let later = dropped_each qs (do_request q c) in
    if raises q c then map owner_of (q ∷ qs) else later

-- `flush_queue`
unfoldable pub flush_queue : Client → Client
unfolding request_each
flush_queue c = request_each c.queue (record c { queue = [] })

unfoldable pub flush_dropped : Client → List Callback
unfolding dropped_each
flush_dropped c = dropped_each c.queue (record c { queue = [] })

abbrev pub hello_frame : ℕ → Outgoing
hello_frame id = record { id = id; method = "hello"; params = hello_params "differ.nvim" protocol }

-- `send` in `handshake`, for a process that is there or not.
abbrev pub written : Outgoing → Option (List Outgoing) → Option (List Outgoing)
written f none = none
written f (some frames) = some (frames ++ f ∷ [])

-- `handshake`
unfoldable pub handshake : Client → Client
handshake c =
    let waiting = await c.next_id (greeter c.self) (record c { next_id = suc c.next_id }) in
    record waiting { proc = written (hello_frame c.next_id) c.proc }

-- What a call of `start` meets: no binary, an error of `vim.system`, or a process.
pub data Spawn : Type 0 where
  no_binary : Spawn
  spawn_error : List ℕ → Spawn
  spawned : Spawn

abbrev pub fresh_streams : Client → Client
fresh_streams c = record c { stdout_buf = []; stderr_buf = []; stderr_log = []; ready = false }

-- `start`: the client, and the reason if it failed.
unfoldable pub start : Spawn → Client → Client × Option (List ℕ)
unfolding handshake
start no_binary c =
    (c, some (codes "sidecar binary not found (run `make go-build`, or set sidecar_bin)"))
start (spawn_error why) c = (fresh_streams c, some why)
start spawned c = (handshake (record (fresh_streams c) { proc = some []; running = true }), none)

-- The delay before the restart of an attempt, which is at least 1.
abbrev pub two_to : ℕ → ℕ
two_to zero = 1
two_to (suc n) = 2 * two_to n

abbrev pub min : ℕ → ℕ → ℕ
min m n = if leb m n then m else n

unfoldable pub backoff : ℕ → ℕ
backoff attempt = min max_backoff_ms (base_backoff_ms * two_to (attempt - 1))

module _ (json : Json) where
  open json use {itoa}

  -- The message and the log of `schedule_restart` past the last attempt.
  unfoldable pub unavailable : Option (ℤ × List Line) → List ℕ
  unfolding with_tail
  unavailable none = codes "sidecar unavailable"
  unavailable (some (code, lines)) =
      with_tail
        (codes "sidecar unavailable after "
          ++ (itoa (pos max_attempts)
              ++ (codes " restarts (last exit code " ++ (itoa code ++ codes ")"))))
        lines

  -- `schedule_restart`
  unfoldable pub schedule_restart : Client → Shell → Client × Shell
  unfolding fail_all unavailable backoff
  schedule_restart c sh =
      let n = suc c.attempts in
      let tried = record c { attempts = n } in
      if ltb max_attempts n
      then fail_all (mkerr "internal" (unavailable sh.last_exit)) tried sh
      else (tried, record sh { delayed = sh.delayed ++ (c.self, backoff n) ∷ [] })
