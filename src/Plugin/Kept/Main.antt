-- ===== src/Plugin/Kept/Main.antt =====
-- lua/differ/sidecar/init.lua: the jobs of the main loop, and the calls of callers, keep the callbacks that
-- they do not call.
use differ_nvim.Common.{
  ℕ, suc, ◌≡◌, refl, not, ◌||◌, Option, none, some, List, [], ◌∷◌, ◌++◌, arith, if_both, eqb,
  if◌then◌else◌,
}
use differ_nvim.Common.Text.{codes}
use differ_nvim.Plugin.State.{
  Callback, caller, greeter, Outcome, failed, answered, Queued, Json, Client, Job, call, timed_out,
  retry, Shell,
}
use differ_nvim.Plugin.Client.{
  lose, dropped_by, flush_dropped, pending_at, forget, teardown, do_request, flush_queue, Spawn,
  start, mkerr, new_client,
}
use differ_nvim.Plugin.Events.{
  handshake_failed, made_ready, Plugin, here, reason, speaks, greeted, run_callback, expire,
  after_start, run_job, ask, ask_started, request_of, request, stop,
}
use differ_nvim.Plugin.Callers.{
  in_callbacks-append, in_callback, in_job, in_jobs-append, in_called-append, in_queue-append,
  in_pending-forget, IsOrdered-forget,
}
use differ_nvim.Plugin.Kept.{
  IsTracked, IsKept, IsKept-twice, teardown-IsKept, do_request-IsKept, flush_queue-IsKept,
  start-IsKept, schedule_restart-IsKept,
}

module _ (k : ℕ) where
  -- A handshake that failed; the callback that an error can end is no caller's.
  handshake_failed-IsKept :
      (why : Option (List ℕ)) (c : Client) (sh : Shell)
      → IsTracked (some c, sh)
      → IsKept k 0 (some c, sh) (handshake_failed why c sh)
  handshake_failed-IsKept none c sh t = record {
    tracked = t;
    same = omega (arith, in_callbacks-append k sh.raised (greeter c.self ∷ []));
  }
  handshake_failed-IsKept (some why) c sh t =
      teardown-IsKept k (mkerr "internal" (codes "sidecar handshake failed: " ++ why)) c sh

  -- The answer to `hello`.
  greeted-IsKept :
      (json : Json) (o : Outcome) (c : Client) (sh : Shell)
      → IsTracked (some c, sh)
      → IsKept k 0 (some c, sh) (greeted json o c sh)
  unfolding greeted
  greeted-IsKept json (failed e) c sh t =
      let why = reason e in
      if_both (IsKept k 0 (some c, sh)) (not c.running) (some c, sh) (handshake_failed why c sh)
        (record { tracked = t; same = omega arith }) (handshake_failed-IsKept why c sh t)
  greeted-IsKept json (answered result) c sh t =
      let why =
        mkerr "internal"
          (codes "sidecar protocol mismatch; rebuild it with make go-build or go install") in
      let ready = made_ready json result c in
      let flushed : Plugin = (some (flush_queue ready), lose (flush_dropped ready) sh) in
      let sent = flush_queue-IsKept k ready sh t in
      if_both (IsKept k 0 (some c, sh)) (not (speaks (json.hello result))) (none, teardown why c sh)
        (if not c.running then (some c, sh) else flushed) (teardown-IsKept k why c sh)
        (if_both (IsKept k 0 (some c, sh)) (not c.running) (some c, sh) flushed
          (record { tracked = t; same = omega arith })
          (record { tracked = sent.tracked; same = sent.same }))

  -- A callback that is called: a caller's is counted as called.
  run_callback-IsKept :
      (json : Json) (cb : Callback) (o : Outcome) (p : Plugin)
      → IsTracked p
      → IsKept k (in_callback k cb) p (run_callback json cb o p)
  unfolding run_callback
  run_callback-IsKept json (caller j) o (none, sh) t = record {
    tracked = t;
    same = omega (arith, in_called-append k sh.called j o);
  }
  run_callback-IsKept json (caller j) o (some c, sh) t = record {
    tracked = t;
    same = omega (arith, in_called-append k sh.called j o);
  }
  run_callback-IsKept json (greeter g) o (none, sh) t = record { tracked = t; same = omega arith }
  run_callback-IsKept json (greeter g) o (some c, sh) t =
      if_both (IsKept k 0 (some c, sh)) (eqb g c.self) (greeted json o c sh) (some c, sh)
        (greeted-IsKept json o c sh t) (record { tracked = t; same = omega arith })

  -- The end of a timeout: the callback, if it still waits, is called.
  expire-IsKept :
      (json : Json) (id : ℕ) (o : Option Callback) (c : Client) (sh : Shell)
      → IsTracked (some c, sh)
      → pending_at id c.pending ≡ o
      → IsKept k 0 (some c, sh) (expire json id o c sh)
  expire-IsKept json id none c sh t at = record { tracked = t; same = omega arith }
  expire-IsKept json id (some cb) c sh t at =
      let late = mkerr "network" (codes "the sidecar did not answer in time") in
      let taken = record c { pending = forget id c.pending } in
      let fewer = IsOrdered-forget 0 c.next_id id c.pending t in
      let calls = run_callback-IsKept json cb (failed late) (some taken, sh) fewer in
      record {
        tracked = calls.tracked;
        same = omega (arith, calls.same, in_pending-forget k 0 c.next_id id c.pending cb t at);
      }

  after_start-IsKept :
      (json : Json) (s : Client × Option (List ℕ)) (sh : Shell)
      → IsTracked (some s.0, sh)
      → IsKept k 0 (some s.0, sh) (after_start json s sh)
  after_start-IsKept json (c, none) sh t = record { tracked = t; same = omega arith }
  after_start-IsKept json (c, some why) sh t = schedule_restart-IsKept k json c sh t

  pub run_job-IsKept :
      (json : Json) (spawn : Spawn) (j : Job) (p : Plugin)
      → IsTracked p
      → IsKept k (in_job k j) p (run_job json spawn j p)
  unfolding run_job
  run_job-IsKept json spawn (call cb o) p t = run_callback-IsKept json cb o p t
  run_job-IsKept json spawn (timed_out g id) (none, sh) t = record {
    tracked = t;
    same = omega arith;
  }
  run_job-IsKept json spawn (timed_out g id) (some c, sh) t =
      let at = pending_at id c.pending in
      if_both (IsKept k 0 (some c, sh)) (eqb g c.self) (expire json id at c sh) (some c, sh)
        (expire-IsKept json id at c sh t refl) (record { tracked = t; same = omega arith })
  run_job-IsKept json spawn (retry g) (none, sh) t = record { tracked = t; same = omega arith }
  run_job-IsKept json spawn (retry g) (some c, sh) t =
      let starts = start-IsKept k spawn c sh t in
      let begun = start spawn c in
      if_both (IsKept k 0 (some c, sh)) (not (eqb g c.self) || c.stopping || c.running) (some c, sh)
        (after_start json begun sh) (record { tracked = t; same = omega arith })
        (IsKept-twice k 0 0 (some c, sh) (some begun.0, sh) (after_start json begun sh) starts
          (after_start-IsKept json begun sh starts.tracked))

  -- A call of `request`: the caller waits from here on.
  ask-IsKept :
      (q : Queued) (c : Client) (sh : Shell)
      → IsTracked (some c, sh)
      → IsKept k (in_callback k (caller q.owner)) (some c, sh) (here (ask q c sh))
  ask-IsKept q c sh t =
      if_both (λ r. IsKept k (in_callback k (caller q.owner)) (some c, sh) (here r)) c.ready
        (do_request q c, lose (dropped_by q c) sh) (record c { queue = c.queue ++ q ∷ [] }, sh)
        (do_request-IsKept k q c sh t)
        (record { tracked = t; same = omega (arith, in_queue-append k c.queue q) })

  ask_started-IsKept :
      (q : Queued) (s : Client × Option (List ℕ)) (sh : Shell)
      → IsTracked (some s.0, sh)
      → IsKept k (in_callback k (caller q.owner)) (some s.0, sh) (here (ask_started q s sh))
  ask_started-IsKept q (c, none) sh t = ask-IsKept q c sh t
  ask_started-IsKept q (c, some why) sh t = record {
    tracked = t;
    same = omega (
      arith,
      in_jobs-append k sh.jobs (call (caller q.owner) (failed (mkerr "internal" why)) ∷ []),
    );
  }

  request_of-IsKept :
      (spawn : Spawn) (q : Queued) (c : Client) (sh : Shell)
      → IsTracked (some c, sh)
      → IsKept k (in_callback k (caller q.owner)) (some c, sh) (here (request_of spawn q c sh))
  unfolding request_of
  request_of-IsKept spawn q c sh t =
      let starts = start-IsKept k spawn c sh t in
      let begun = start spawn c in
      let n = in_callback k (caller q.owner) in
      let first = ask_started-IsKept q begun sh starts.tracked in
      if_both (λ r. IsKept k n (some c, sh) (here r)) (not c.running) (ask_started q begun sh)
        (ask q c sh)
        (record { tracked = first.tracked; same = omega (arith, starts.same, first.same) })
        (ask-IsKept q c sh t)

  pub request-IsKept :
      (spawn : Spawn) (q : Queued) (p : Plugin)
      → IsTracked p
      → IsKept k (in_callback k (caller q.owner)) p (request spawn q p)
  unfolding request new_client
  request-IsKept spawn q (none, sh) t =
      let made = record sh { next_client = suc sh.next_client } in
      let asks = request_of-IsKept spawn q (new_client sh.next_client) made (omega arith) in
      record { tracked = asks.tracked; same = omega (arith, asks.same) }
  request-IsKept spawn q (some c, sh) t = request_of-IsKept spawn q c sh t

  pub stop-IsKept : (p : Plugin) → IsTracked p → IsKept k 0 p (stop p)
  unfolding stop
  stop-IsKept (none, sh) t = record { tracked = t; same = omega arith }
  stop-IsKept (some c, sh) t = teardown-IsKept k (mkerr "internal" (codes "sidecar stopped")) c sh
