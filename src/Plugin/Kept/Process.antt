-- ===== src/Plugin/Kept/Process.antt =====
-- lua/differ/sidecar/init.lua: the output of the process, and its exit, keep the callbacks that they do not
-- call.
use differ_nvim.Common.{
  ℕ, ◌≡◌, refl, false, Option, none, some, List, [], ◌∷◌, ◌++◌, arith, if_both,
}
use differ_nvim.Common.Int.{ℤ}
use differ_nvim.Plugin.Streams.{Line, consume_lines}
use differ_nvim.Plugin.State.{Outcome, Callback, Reply, Json, Client, call, Shell}
use differ_nvim.Plugin.Client.{pending_at, fail_pending, schedule_restart, mkerr}
use differ_nvim.Plugin.Process.{
  outcome_of, settle_with, raises_line, raises_lines, with_buffer, settle, dispatch_reply,
  dispatch_line, dispatch_lines, on_stdout, flush_stderr, exit_message, on_exit,
}
use differ_nvim.Plugin.Events.{here}
use differ_nvim.Plugin.Callers.{
  in_callbacks-append, in_jobs-append, in_pending-forget, IsOrdered-forget,
}
use differ_nvim.Plugin.Kept.{
  IsTracked, IsKept, IsKept-twice, fail_pending-IsKept, schedule_restart-IsKept,
}

module _ (k : ℕ) where
  -- A callback that is answered leaves `pending` for the main loop, or is dropped.
  settle_with-IsKept :
      (o : Option Outcome) (id : ℕ) (cb : Callback) (c : Client) (sh : Shell)
      → IsTracked (some c, sh)
      → pending_at id c.pending ≡ some cb
      → IsKept k 0 (some c, sh) (here (settle_with o id cb c sh))
  settle_with-IsKept none id cb c sh t at = record {
    tracked = IsOrdered-forget 0 c.next_id id c.pending t;
    same = omega (
      arith,
      in_pending-forget k 0 c.next_id id c.pending cb t at,
      in_callbacks-append k sh.raised (cb ∷ []),
    );
  }
  settle_with-IsKept (some o) id cb c sh t at = record {
    tracked = IsOrdered-forget 0 c.next_id id c.pending t;
    same = omega (
      arith,
      in_pending-forget k 0 c.next_id id c.pending cb t at,
      in_jobs-append k sh.jobs (call cb o ∷ []),
    );
  }

  settle-IsKept :
      (r : Reply) (o : Option Callback) (c : Client) (sh : Shell)
      → IsTracked (some c, sh)
      → pending_at r.id c.pending ≡ o
      → IsKept k 0 (some c, sh) (here (settle r o c sh))
  settle-IsKept r none c sh t at = record { tracked = t; same = omega arith }
  settle-IsKept r (some cb) c sh t at = settle_with-IsKept (outcome_of r) r.id cb c sh t at

  dispatch_reply-IsKept :
      (r : Option Reply) (c : Client) (sh : Shell)
      → IsTracked (some c, sh)
      → IsKept k 0 (some c, sh) (here (dispatch_reply r c sh))
  dispatch_reply-IsKept none c sh t = record { tracked = t; same = omega arith }
  dispatch_reply-IsKept (some r) c sh t = settle-IsKept r (pending_at r.id c.pending) c sh t refl

  dispatch_lines-IsKept :
      (json : Json) (lines : List Line) (c : Client) (sh : Shell)
      → IsTracked (some c, sh)
      → IsKept k 0 (some c, sh) (here (dispatch_lines json lines c sh))
  unfolding dispatch_lines
  dispatch_lines-IsKept json [] c sh t = record { tracked = t; same = omega arith }
  dispatch_lines-IsKept json (l ∷ ls) c sh t =
      let next = dispatch_line json l c sh in
      let later = dispatch_lines json ls next.0 next.1 in
      let first = dispatch_reply-IsKept (json.reply l) c sh t in
      if_both (λ r. IsKept k 0 (some c, sh) (here r)) (raises_line json l c) next later first
        (IsKept-twice k 0 0 (some c, sh) (here next) (here later) first
          (dispatch_lines-IsKept json ls next.0 next.1 first.tracked))

  pub on_stdout-IsKept :
      (json : Json) (chunk : List ℕ) (c : Client) (sh : Shell)
      → IsTracked (some c, sh)
      → IsKept k 0 (some c, sh) (here (on_stdout json chunk c sh))
  unfolding on_stdout
  on_stdout-IsKept json chunk c sh t =
      let cut = consume_lines (c.stdout_buf ++ chunk) in
      let out = dispatch_lines json cut.0 c sh in
      let all = dispatch_lines-IsKept json cut.0 c sh t in
      if_both (λ r. IsKept k 0 (some c, sh) (here r)) (raises_lines json cut.0 c sh) out
        (with_buffer cut.1 out) all (record { tracked = all.tracked; same = all.same })

  -- The exit of the process: the callbacks that waited fail, and the queue waits for the restart.
  pub on_exit-IsKept :
      (json : Json) (code : ℤ) (c : Client) (sh : Shell)
      → IsTracked (some c, sh)
      → IsKept k 0 (some c, sh) (here (on_exit json code c sh))
  unfolding on_exit fail_pending
  on_exit-IsKept json code c sh t =
      let log = flush_stderr c.stderr_buf c.stderr_log in
      let dead = record c {
        running = false;
        ready = false;
        proc = none;
        stderr_buf = [];
        stderr_log = log;
      } in
      let crashed = record sh { last_exit = some (code, log) } in
      let why = mkerr "internal" (exit_message json code log) in
      let after = fail_pending why dead crashed in
      let failed_all = fail_pending-IsKept k why dead crashed in
      let restarts = schedule_restart-IsKept k json after.0 after.1 failed_all.tracked in
      if_both (λ r. IsKept k 0 (some c, sh) (here r)) c.stopping
        (record (after.0) { stopping = false }, after.1) (schedule_restart json after.0 after.1)
        (record { tracked = failed_all.tracked; same = omega (arith, failed_all.same) })
        (record {
          tracked = restarts.tracked;
          same = omega (arith, restarts.same, failed_all.same);
        })
