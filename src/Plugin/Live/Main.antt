-- ===== src/Plugin/Live/Main.antt =====
-- lua/differ/sidecar/init.lua: what the main loop, the process and the callers do keeps `IsLive`.
use differ_nvim.Common.{
  ℕ, ◌≡◌, refl, true, false, not, ◌||◌, Option, none, some, List, [], ◌∷◌, ◌++◌, arith, if_both,
  if_split, if◌then◌else◌,
}
use differ_nvim.Common.Int.{ℤ}
use differ_nvim.Common.Text.{codes}
use differ_nvim.Plugin.Streams.{Line, consume_lines}
use differ_nvim.Plugin.State.{
  greeter, Callback, Outcome, failed, answered, Reply, Json, Client, call, Shell,
}
use differ_nvim.Plugin.Client.{
  lose, flush_dropped, pending_at, fail_pending, teardown, flush_queue, schedule_restart, mkerr,
}
use differ_nvim.Plugin.Process.{
  settle_with, raises_line, raises_lines, with_buffer, outcome_of, settle, dispatch_reply,
  dispatch_line, dispatch_lines, on_stdout, on_stderr, flush_stderr, exit_message, on_exit,
}
use differ_nvim.Plugin.Events.{handshake_failed, made_ready, Plugin, reason, speaks, greeted}
use differ_nvim.Plugin.Callers.{IsOrdered, IsOrdered-forget}
use differ_nvim.Plugin.Live.{
  is_empty, misses-append, is_spawned, greets-forget, hears-append, retries-append, IsLive,
}
use differ_nvim.Plugin.Live.Steps.{IsLivePair, flush_queue-IsLive, schedule_restart-IsLive}

-- A module with no client waits for nothing.
abbrev pub IsLivePlugin : Plugin → Type 0
IsLivePlugin (none, sh) = Unit
IsLivePlugin (some c, sh) = IsLive c sh

-- The callback that is answered becomes a job, or is dropped, the one of the handshake too.
settle_with-IsLive :
    (o : Option Outcome) (id : ℕ) (cb : Callback) (c : Client) (sh : Shell)
    → pending_at id c.pending ≡ some cb
    → IsLive c sh
    → IsLivePair (settle_with o id cb c sh)
settle_with-IsLive none id cb c sh at live =
    let less = greets-forget c.self 0 c.next_id id c.pending cb live.tracked at in
    record {
      tracked = IsOrdered-forget 0 c.next_id id c.pending live.tracked;
      steady = live.steady;
      fed = live.fed;
      up = live.up;
      sent = live.sent;
      greeting = ground (arith, live.greeting, less, misses-append c.self sh.raised (cb ∷ []));
      arming = live.arming;
    }
settle_with-IsLive (some o) id cb c sh at live =
    let less = greets-forget c.self 0 c.next_id id c.pending cb live.tracked at in
    record {
      tracked = IsOrdered-forget 0 c.next_id id c.pending live.tracked;
      steady = live.steady;
      fed = live.fed;
      up = live.up;
      sent = live.sent;
      greeting = ground (arith, live.greeting, less, hears-append c.self sh.jobs (call cb o ∷ []));
      arming = ground (arith, live.arming, retries-append c.self sh.jobs (call cb o ∷ []));
    }

settle-IsLive :
    (r : Reply) (o : Option Callback) (c : Client) (sh : Shell)
    → pending_at r.id c.pending ≡ o
    → IsLive c sh
    → IsLivePair (settle r o c sh)
settle-IsLive r none c sh at live = live
settle-IsLive r (some cb) c sh at live = settle_with-IsLive (outcome_of r) r.id cb c sh at live

dispatch_reply-IsLive :
    (r : Option Reply) (c : Client) (sh : Shell) → IsLive c sh → IsLivePair (dispatch_reply r c sh)
dispatch_reply-IsLive none c sh live = live
dispatch_reply-IsLive (some r) c sh live =
    settle-IsLive r (pending_at r.id c.pending) c sh refl live

module _ (json : Json) where
  dispatch_lines-IsLive :
      (ls : List Line) (c : Client) (sh : Shell)
      → IsLive c sh
      → IsLivePair (dispatch_lines json ls c sh)
  unfolding dispatch_lines
  dispatch_lines-IsLive [] c sh live = live
  dispatch_lines-IsLive (l ∷ ls) c sh live =
      let next = dispatch_line json l c sh in
      let first = dispatch_reply-IsLive (json.reply l) c sh live in
      if_both IsLivePair (raises_line json l c) next (dispatch_lines json ls next.0 next.1) first
        (dispatch_lines-IsLive ls next.0 next.1 first)

  rebuffered :
      (c : Client) (sh : Shell) (out err : List ℕ) (log : List Line)
      → IsLive c sh
      → IsLive (record c { stdout_buf = out; stderr_buf = err; stderr_log = log }) sh
  rebuffered c sh out err log live = record {
    tracked = live.tracked;
    steady = live.steady;
    fed = live.fed;
    up = live.up;
    sent = live.sent;
    greeting = live.greeting;
    arming = live.arming;
  }

  pub on_stdout-IsLive :
      (chunk : List ℕ) (c : Client) (sh : Shell)
      → IsLive c sh
      → IsLivePair (on_stdout json chunk c sh)
  unfolding on_stdout
  on_stdout-IsLive chunk c sh live =
      let cut = consume_lines (c.stdout_buf ++ chunk) in
      let out = dispatch_lines json cut.0 c sh in
      let all = dispatch_lines-IsLive cut.0 c sh live in
      if_both IsLivePair (raises_lines json cut.0 c sh) out (with_buffer cut.1 out) all
        (rebuffered out.0 out.1 cut.1 out.0.stderr_buf out.0.stderr_log all)

  pub on_stderr-IsLive :
      (chunk : List ℕ) (c : Client) (sh : Shell) → IsLive c sh → IsLive (on_stderr chunk c) sh
  unfolding on_stderr
  on_stderr-IsLive chunk c sh live =
      let next = on_stderr chunk c in
      rebuffered c sh c.stdout_buf next.stderr_buf next.stderr_log live

  pub on_exit-IsLive :
      (code : ℤ) (c : Client) (sh : Shell) → IsLive c sh → IsLivePair (on_exit json code c sh)
  unfolding on_exit fail_pending
  on_exit-IsLive code c sh live =
      let log = flush_stderr c.stderr_buf c.stderr_log in
      let dead = record c {
        running = false;
        ready = false;
        proc = none;
        stderr_buf = [];
        stderr_log = log;
      } in
      let crashed = record sh { last_exit = some (code, log) } in
      let after = fail_pending (mkerr "internal" (exit_message json code log)) dead crashed in
      let restarts =
        schedule_restart-IsLive json after.0 after.1 refl refl live.steady (omega arith) in
      if_split IsLivePair c.stopping (record (after.0) { stopping = false }, after.1)
        (schedule_restart json after.0 after.1) (λ stops. cc (live.steady, stops))
        (λ goes. restarts)

  -- A running client whose handshake failed is gone, or its callback was dropped.
  handshake_failed-IsLive :
      (why : Option (List ℕ)) (c : Client) (sh : Shell)
      → IsOrdered 0 c.next_id c.pending
      → c.running ≡ true
      → c.stopping ≡ false
      → (not c.running || is_spawned c.proc) ≡ true
      → (not c.ready || is_empty c.queue) ≡ true
      → IsLivePlugin (handshake_failed why c sh)
  handshake_failed-IsLive none c sh tracked up steady fed sent = record {
    tracked = tracked;
    steady = steady;
    fed = fed;
    up = ground (arith, up);
    sent = sent;
    greeting = ground (arith, misses-append c.self sh.raised (greeter c.self ∷ []));
    arming = ground (arith, up);
  }
  handshake_failed-IsLive (some why) c sh tracked up steady fed sent = tt

  -- The answer to `hello`, or its failure, is in.
  pub greeted-IsLive :
      (o : Outcome) (c : Client) (sh : Shell)
      → IsOrdered 0 c.next_id c.pending
      → (c.running ≡ false → IsLive c sh)
      → c.stopping ≡ false
      → (not c.running || is_spawned c.proc) ≡ true
      → (not c.ready || is_empty c.queue) ≡ true
      → IsLivePlugin (greeted json o c sh)
  unfolding greeted
  greeted-IsLive (failed e) c sh tracked down steady fed sent =
      if_split IsLivePlugin (not c.running) (some c, sh) (handshake_failed (reason e) c sh)
        (λ stands. down (ground (arith, stands)))
        (λ runs.
          handshake_failed-IsLive (reason e) c sh tracked (ground (arith, runs)) steady fed sent)
  greeted-IsLive (answered result) c sh tracked down steady fed sent =
      let why =
        mkerr "internal"
          (codes "sidecar protocol mismatch; rebuild it with make go-build or go install") in
      let ready = made_ready json result c in
      let flushed : Plugin = (some (flush_queue ready), lose (flush_dropped ready) sh) in
      if_both IsLivePlugin (not (speaks (json.hello result))) (none, teardown why c sh)
        (if not c.running then (some c, sh) else flushed) tt
        (if_split IsLivePlugin (not c.running) (some c, sh) flushed
          (λ stands. down (ground (arith, stands)))
          (λ runs.
            let up : c.running ≡ true = ground (arith, runs) in
            flush_queue-IsLive ready sh up refl steady (ground (arith, fed, up)) tracked))
