-- ===== src/Plugin/Frames/Run.antt =====
-- lua/differ/sidecar/init.lua: over a history of the client, what its process is written.
use differ_nvim.Common.{
  ℕ, suc, ◌≡◌, refl, ap, subst, Bool, false, not, ◌||◌, Option, none, some, List, [], ◌∷◌, ◌++◌,
  arith, if_both, if_split, eqb, if◌then◌else◌,
}
use differ_nvim.Common.Int.{ℤ}
use differ_nvim.Common.Text.{codes}
use differ_nvim.Plugin.Streams.{Line, consume_lines}
use differ_nvim.Plugin.State.{
  Callback, caller, greeter, Outcome, failed, answered, Outgoing, Json, Client, Job, call,
  timed_out, retry, Shell,
}
use differ_nvim.Plugin.Client.{
  lose, flush_dropped, pending_at, forget, fail_pending, teardown, flush_queue, hello_frame, Spawn,
  start, schedule_restart, mkerr,
}
use differ_nvim.Plugin.Process.{
  raises_line, raises_lines, with_buffer, dispatch_line, dispatch_lines, on_stdout, on_stderr,
  flush_stderr, exit_message, on_exit,
}
use differ_nvim.Plugin.Events.{
  handshake_failed, made_ready, Plugin, reason, speaks, binary_of, greeted, run_callback, expire,
  after_start, run_job, Event, asks, stops, turns, prints, logs, exits, expires, is_due, turn,
  happen, history, at_load,
}
use differ_nvim.Plugin.Frames.{
  IsRising, Session, IsSpoken, IsSpokenPair, readied-IsSpoken, flush_queue-IsSpoken, start-IsSpoken,
  schedule_restart-IsSpoken,
}
use differ_nvim.Plugin.Frames.Calls.{
  IsSpokenPlugin, dispatch_reply-IsSpoken, owned-IsSpoken, request-IsSpoken, stop-IsSpoken,
}

module _ (json : Json) where
  dispatch_lines-IsSpoken :
      (ls : List Line) (c : Client) (sh : Shell)
      → IsSpoken c
      → IsSpokenPair (dispatch_lines json ls c sh)
  unfolding dispatch_lines
  dispatch_lines-IsSpoken [] c sh spoken = spoken
  dispatch_lines-IsSpoken (l ∷ ls) c sh spoken =
      let next = dispatch_line json l c sh in
      let first = dispatch_reply-IsSpoken (json.reply l) c sh spoken in
      if_both IsSpokenPair (raises_line json l c) next (dispatch_lines json ls next.0 next.1) first
        (dispatch_lines-IsSpoken ls next.0 next.1 first)

  on_stdout-IsSpoken :
      (chunk : List ℕ) (c : Client) (sh : Shell)
      → IsSpoken c
      → IsSpokenPair (on_stdout json chunk c sh)
  unfolding on_stdout
  on_stdout-IsSpoken chunk c sh spoken =
      let cut = consume_lines (c.stdout_buf ++ chunk) in
      let out = dispatch_lines json cut.0 c sh in
      let all = dispatch_lines-IsSpoken cut.0 c sh spoken in
      if_both IsSpokenPair (raises_lines json cut.0 c sh) out (with_buffer cut.1 out) all
        (record { down = all.down; session = all.session })

  on_stderr-IsSpoken : (chunk : List ℕ) (c : Client) → IsSpoken c → IsSpoken (on_stderr chunk c)
  unfolding on_stderr
  on_stderr-IsSpoken chunk c spoken = record { down = spoken.down; session = spoken.session }

  on_exit-IsSpoken :
      (code : ℤ) (c : Client) (sh : Shell) → IsSpoken c → IsSpokenPair (on_exit json code c sh)
  unfolding on_exit fail_pending
  on_exit-IsSpoken code c sh spoken =
      let log = flush_stderr c.stderr_buf c.stderr_log in
      let dead = record c {
        running = false;
        ready = false;
        proc = none;
        stderr_buf = [];
        stderr_log = log;
      } in
      let crashed = record sh { last_exit = some (code, log) } in
      let after = fail_pending (mkerr "internal" (exit_message json code log)) dead crashed in
      if_both IsSpokenPair c.stopping (record (after.0) { stopping = false }, after.1)
        (schedule_restart json after.0 after.1) (record { down = λ stands. refl; session = tt })
        (schedule_restart-IsSpoken json after.0 after.1
          (record { down = λ stands. refl; session = tt }))

  handshake_failed-IsSpoken :
      (why : Option (List ℕ)) (c : Client) (sh : Shell)
      → IsSpoken c
      → IsSpokenPlugin (handshake_failed why c sh)
  handshake_failed-IsSpoken none c sh spoken = spoken
  handshake_failed-IsSpoken (some why) c sh spoken = tt

  greeted-IsSpoken :
      (o : Outcome) (c : Client) (sh : Shell) → IsSpoken c → IsSpokenPlugin (greeted json o c sh)
  unfolding greeted
  greeted-IsSpoken (failed e) c sh spoken =
      if_both IsSpokenPlugin (not c.running) (some c, sh) (handshake_failed (reason e) c sh) spoken
        (handshake_failed-IsSpoken (reason e) c sh spoken)
  greeted-IsSpoken (answered result) c sh spoken =
      let why =
        mkerr "internal"
          (codes "sidecar protocol mismatch; rebuild it with make go-build or go install") in
      let ready = made_ready json result c in
      let flushed : Plugin = (some (flush_queue ready), lose (flush_dropped ready) sh) in
      if_both IsSpokenPlugin (not (speaks (json.hello result))) (none, teardown why c sh)
        (if not c.running then (some c, sh) else flushed) tt
        (if_both IsSpokenPlugin (not c.running) (some c, sh) flushed spoken
          (flush_queue-IsSpoken ready refl
            (readied-IsSpoken c (binary_of (json.hello result)) spoken)))

  run_callback-IsSpoken :
      (cb : Callback) (o : Outcome) (p : Plugin)
      → IsSpokenPlugin p
      → IsSpokenPlugin (run_callback json cb o p)
  unfolding run_callback
  run_callback-IsSpoken (caller k) o (none, sh) spoken = tt
  run_callback-IsSpoken (caller k) o (some c, sh) spoken = spoken
  run_callback-IsSpoken (greeter g) o (none, sh) spoken = tt
  run_callback-IsSpoken (greeter g) o (some c, sh) spoken =
      if_both IsSpokenPlugin (eqb g c.self) (greeted json o c sh) (some c, sh)
        (greeted-IsSpoken o c sh spoken) spoken

  expire-IsSpoken :
      (id : ℕ) (o : Option Callback) (c : Client) (sh : Shell)
      → IsSpoken c
      → IsSpokenPlugin (expire json id o c sh)
  expire-IsSpoken id none c sh spoken = spoken
  expire-IsSpoken id (some cb) c sh spoken =
      run_callback-IsSpoken cb
        (failed (mkerr "network" (codes "the sidecar did not answer in time")))
        (some (record c { pending = forget id c.pending }), sh)
        (record { down = spoken.down; session = spoken.session })

  after_start-IsSpoken :
      (s : Client × Option (List ℕ)) (sh : Shell)
      → IsSpoken s.0
      → IsSpokenPlugin (after_start json s sh)
  after_start-IsSpoken (c, none) sh spoken = spoken
  after_start-IsSpoken (c, some why) sh spoken = schedule_restart-IsSpoken json c sh spoken

  run_job-IsSpoken :
      (spawn : Spawn) (j : Job) (p : Plugin)
      → IsSpokenPlugin p
      → IsSpokenPlugin (run_job json spawn j p)
  unfolding run_job
  run_job-IsSpoken spawn (call cb o) p spoken = run_callback-IsSpoken cb o p spoken
  run_job-IsSpoken spawn (timed_out g id) (none, sh) spoken = tt
  run_job-IsSpoken spawn (timed_out g id) (some c, sh) spoken =
      let at = pending_at id c.pending in
      if_both IsSpokenPlugin (eqb g c.self) (expire json id at c sh) (some c, sh)
        (expire-IsSpoken id at c sh spoken) spoken
  run_job-IsSpoken spawn (retry g) (none, sh) spoken = tt
  run_job-IsSpoken spawn (retry g) (some c, sh) spoken =
      if_split IsSpokenPlugin (not (eqb g c.self) || c.stopping || c.running) (some c, sh)
        (after_start json (start spawn c) sh) (λ stays. spoken)
        (λ starts.
          after_start-IsSpoken (start spawn c) sh
            (start-IsSpoken spawn c (ground (arith, starts)) spoken))

  turn-IsSpoken :
      (spawn : Spawn) (js : List Job) (client : Option Client) (sh : Shell)
      → IsSpokenPlugin (client, sh)
      → IsSpokenPlugin (turn json spawn js (client, sh))
  unfolding turn
  turn-IsSpoken spawn [] client sh spoken = spoken
  turn-IsSpoken spawn (j ∷ js) none sh spoken =
      run_job-IsSpoken spawn j (none, record sh { jobs = js }) tt
  turn-IsSpoken spawn (j ∷ js) (some c) sh spoken =
      run_job-IsSpoken spawn j (some c, record sh { jobs = js }) spoken

  happen-IsSpoken :
      (e : Event) (client : Option Client) (sh : Shell)
      → IsSpokenPlugin (client, sh)
      → IsSpokenPlugin (happen json e (client, sh))
  unfolding happen
  happen-IsSpoken (asks spawn q) client sh spoken = request-IsSpoken spawn q (client, sh) spoken
  happen-IsSpoken stops client sh spoken = stop-IsSpoken (client, sh)
  happen-IsSpoken (turns spawn) client sh spoken = turn-IsSpoken spawn sh.jobs client sh spoken
  happen-IsSpoken (prints g chunk) client sh spoken =
      owned-IsSpoken g (on_stdout json chunk) (client, sh) (on_stdout-IsSpoken chunk) spoken
  happen-IsSpoken (logs g chunk) client sh spoken =
      owned-IsSpoken g (λ c s. (on_stderr chunk c, s)) (client, sh)
        (λ c s h. on_stderr-IsSpoken chunk c h) spoken
  happen-IsSpoken (exits g code) client sh spoken =
      owned-IsSpoken g (on_exit json code) (client, sh) (on_exit-IsSpoken code) spoken
  happen-IsSpoken (expires g id) none sh spoken = tt
  happen-IsSpoken (expires g id) (some c) sh spoken = spoken
  happen-IsSpoken (is_due g) none sh spoken = tt
  happen-IsSpoken (is_due g) (some c) sh spoken = spoken

  history-IsSpoken :
      (es : List Event) (p : Plugin) → IsSpokenPlugin p → IsSpokenPlugin (history json es p)
  unfolding history
  history-IsSpoken [] p spoken = spoken
  history-IsSpoken (e ∷ es) (client, sh) spoken =
      history-IsSpoken es (happen json e (client, sh)) (happen-IsSpoken e client sh spoken)

session-first :
    (next : ℕ) (ready : Bool) (frames : List Outgoing)
    → Session next ready (some frames)
    → (id : ℕ) × (rest : List Outgoing) × (frames ≡ hello_frame id ∷ rest)
      × IsRising (suc id) next rest
      × (ready ≡ false → rest ≡ [])
session-first next ready [] s = elim s [ ]
session-first next ready (f ∷ fs) (hello, rising, quiet) =
    (f.id, fs, ap (λ g. g ∷ fs) hello, rising, quiet)

-- Wherever a history of the module since it was loaded ends with a client that has a process: what was
-- written to the process is the handshake, and then further frames whose ids rise from one to the next,
-- above that of the handshake and below the client's next one; there are none as long as the client is
-- not ready. So no id is used twice for a process, and no request is written before the handshake.
pub frames-greet_first :
    (json : Json) (es : List Event) (c : Client) (sh : Shell) (frames : List Outgoing)
    → history json es at_load ≡ (some c, sh)
    → c.proc ≡ some frames
    → (id : ℕ) × (rest : List Outgoing) × (frames ≡ hello_frame id ∷ rest)
      × IsRising (suc id) c.next_id rest
      × (c.ready ≡ false → rest ≡ [])
unfolding at_load
frames-greet_first json es c sh frames reached there =
    let spoken : IsSpoken c = subst IsSpokenPlugin reached (history-IsSpoken json es at_load tt) in
    session-first c.next_id c.ready frames
      (subst (Session c.next_id c.ready) there (spoken.session))
