-- ===== src/Plugin/Live/Jobs.antt =====
-- lua/differ/sidecar/init.lua: a job of the main loop, and a call of a caller, keep `IsLive`.
use differ_nvim.Common.{
  ℕ, ◌≡◌, refl, true, false, not, ◌||◌, Option, none, some, List, [], ◌∷◌, ◌++◌, arith, if_both,
  if_split, eqb,
}
use differ_nvim.Common.Text.{codes}
use differ_nvim.Plugin.State.{
  Callback, caller, greeter, Outcome, failed, Json, Client, Job, call, timed_out, retry, Shell,
}
use differ_nvim.Plugin.Client.{
  pending_at, forget, fresh_streams, Spawn, no_binary, spawn_error, spawned, start, mkerr,
}
use differ_nvim.Plugin.Events.{greeted, run_callback, expire, after_start, run_job}
use differ_nvim.Plugin.Callers.{IsOrdered, IsOrdered-forget}
use differ_nvim.Plugin.Live.{misses, is_empty, greets, greets-forget, hears, arms, IsLive}
use differ_nvim.Plugin.Live.Steps.{handshake-IsLive, schedule_restart-IsLive}
use differ_nvim.Plugin.Live.Main.{IsLivePlugin, greeted-IsLive}

-- The world with a job in front of its jobs.
abbrev before : Job → Shell → Shell
before j sh = record sh { jobs = j ∷ sh.jobs }

-- A job that the client does not wait for is gone.
unheard :
    (j : Job) (c : Client) (sh : Shell) (calls : List (ℕ × Outcome))
    → IsLive c (before j sh)
    → (not c.running
        || c.ready
        || greets c.self c.pending
        || hears c.self sh.jobs
        || misses c.self sh.raised)
      ≡ true
    → (c.running || is_empty c.queue || arms c.self sh) ≡ true
    → IsLive c (record sh { called = calls })
unheard j c sh calls live g a = record {
  tracked = live.tracked;
  steady = live.steady;
  fed = live.fed;
  up = live.up;
  sent = live.sent;
  greeting = g;
  arming = a;
}

-- A callback that leaves `pending` for its call.
forgotten :
    (id : ℕ) (c : Client) (sh : Shell) (calls : List (ℕ × Outcome))
    → IsLive c sh
    → (not c.running
        || c.ready
        || greets c.self (forget id c.pending)
        || hears c.self sh.jobs
        || misses c.self sh.raised)
      ≡ true
    → IsLive (record c { pending = forget id c.pending }) (record sh { called = calls })
forgotten id c sh calls live g = record {
  tracked = IsOrdered-forget 0 c.next_id id c.pending live.tracked;
  steady = live.steady;
  fed = live.fed;
  up = live.up;
  sent = live.sent;
  greeting = g;
  arming = live.arming;
}

module _ (json : Json) where
  expire-IsLive :
      (id : ℕ) (o : Option Callback) (c : Client) (sh : Shell)
      → pending_at id c.pending ≡ o
      → IsLive c sh
      → IsLivePlugin (expire json id o c sh)
  unfolding run_callback
  expire-IsLive id none c sh at live = live
  expire-IsLive id (some (caller k)) c sh at live =
      let late = mkerr "network" (codes "the sidecar did not answer in time") in
      let less = greets-forget c.self 0 c.next_id id c.pending (caller k) live.tracked at in
      forgotten id c sh (sh.called ++ (k, failed late) ∷ []) live
        (ground (arith, live.greeting, less))
  expire-IsLive id (some (greeter g)) c sh at live =
      let late = mkerr "network" (codes "the sidecar did not answer in time") in
      let taken = record c { pending = forget id c.pending } in
      let less = greets-forget c.self 0 c.next_id id c.pending (greeter g) live.tracked at in
      if_split IsLivePlugin (eqb g c.self) (greeted json (failed late) taken sh) (some taken, sh)
        (λ same.
          greeted-IsLive json (failed late) taken sh
            (IsOrdered-forget 0 c.next_id id c.pending live.tracked)
            (λ down. forgotten id c sh sh.called live (ground (arith, down))) live.steady live.fed
            live.sent)
        (λ other. forgotten id c sh sh.called live (ground (arith, live.greeting, less, other)))

  -- A restart that has come: the process starts, or another restart is asked for.
  restart-IsLive :
      (spawn : Spawn) (c : Client) (sh : Shell)
      → c.running ≡ false
      → c.ready ≡ false
      → c.stopping ≡ false
      → IsOrdered 0 c.next_id c.pending
      → IsLivePlugin (after_start json (start spawn c) sh)
  unfolding start
  restart-IsLive no_binary c sh down r steady tracked =
      schedule_restart-IsLive json c sh down r steady tracked
  restart-IsLive (spawn_error why) c sh down r steady tracked =
      schedule_restart-IsLive json (fresh_streams c) sh down refl steady tracked
  restart-IsLive spawned c sh down r steady tracked =
      handshake-IsLive (record (fresh_streams c) { proc = some []; running = true }) sh refl refl
        steady refl tracked

  pub run_job_alone-IsLive :
      (spawn : Spawn) (j : Job) (sh : Shell) → IsLivePlugin (run_job json spawn j (none, sh))
  unfolding run_job run_callback
  run_job_alone-IsLive spawn (call (caller k) o) sh = tt
  run_job_alone-IsLive spawn (call (greeter g) o) sh = tt
  run_job_alone-IsLive spawn (timed_out g id) sh = tt
  run_job_alone-IsLive spawn (retry g) sh = tt

  pub run_job-IsLive :
      (spawn : Spawn) (j : Job) (c : Client) (sh : Shell)
      → IsLive c (before j sh)
      → IsLivePlugin (run_job json spawn j (some c, sh))
  unfolding run_job run_callback
  run_job-IsLive spawn (call (caller k) o) c sh live =
      unheard (call (caller k) o) c sh (sh.called ++ (k, o) ∷ []) live live.greeting live.arming
  run_job-IsLive spawn (call (greeter g) o) c sh live =
      if_split IsLivePlugin (eqb g c.self) (greeted json o c sh) (some c, sh)
        (λ same.
          greeted-IsLive json o c sh live.tracked
            (λ down.
              unheard (call (greeter g) o) c sh sh.called live (ground (arith, down)) live.arming)
            live.steady live.fed live.sent)
        (λ other.
          unheard (call (greeter g) o) c sh sh.called live (ground (arith, live.greeting, other))
            live.arming)
  run_job-IsLive spawn (timed_out g id) c sh live =
      let quiet = unheard (timed_out g id) c sh sh.called live live.greeting live.arming in
      let at = pending_at id c.pending in
      if_both IsLivePlugin (eqb g c.self) (expire json id at c sh) (some c, sh)
        (expire-IsLive id at c sh refl quiet) quiet
  run_job-IsLive spawn (retry g) c sh live =
      if_split IsLivePlugin (not (eqb g c.self) || c.stopping || c.running) (some c, sh)
        (after_start json (start spawn c) sh)
        (λ stays.
          unheard (retry g) c sh sh.called live live.greeting
            (ground (arith, stays, live.steady, live.arming)))
        (λ starts.
          restart-IsLive spawn c sh (ground (arith, starts)) (ground (arith, starts, live.up))
            live.steady live.tracked)
