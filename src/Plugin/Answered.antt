-- ===== src/Plugin/Answered.antt =====
-- lua/differ/sidecar/init.lua: over a history of the client, no caller is lost and none is called twice.
pub mod Stopped
use Prim.Native.String
use differ_nvim.Common.{
  ℕ, zero, suc, ◌+◌, ◌≡◌, refl, ap, Bool, true, false, Option, none, some, List, [], ◌∷◌, ◌++◌,
  arith, if_both, eqb, if◌then◌else◌, Option-cases, inl, inr,
}
use differ_nvim.Common.Int.{ℤ}
use differ_nvim.Plugin.State.{Json, Client, Job, timed_out, retry, Shell}
use differ_nvim.Plugin.Client.{Spawn, schedule}
use differ_nvim.Plugin.Process.{on_stdout, on_stderr, on_exit}
use differ_nvim.Plugin.Events.{
  Plugin, here, run_job, Event, asks, stops, turns, prints, logs, exits, expires, is_due, owned,
  drop_delay, ended, delay_over, turn, happen, history, at_load,
}
use differ_nvim.Plugin.Callers.{
  in_jobs, in_jobs-append, in_called, waited, called_times, dropped_times, asked, asked_times,
}
use differ_nvim.Plugin.Kept.{IsTracked, held, IsKept, IsKept-twice}
use differ_nvim.Plugin.Kept.Process.{on_stdout-IsKept, on_exit-IsKept}
use differ_nvim.Plugin.Kept.Main.{run_job-IsKept, request-IsKept, stop-IsKept}

module _ (json : Json) (k : ℕ) where
  turn-IsKept :
      (spawn : Spawn) (js : List Job) (client : Option Client) (sh : Shell)
      → sh.jobs ≡ js
      → IsTracked (client, sh)
      → IsKept k 0 (client, sh) (turn json spawn js (client, sh))
  unfolding turn
  turn-IsKept spawn [] client sh e t = record { tracked = t; same = omega arith }
  turn-IsKept spawn (j ∷ js) none sh e t =
      let runs = run_job-IsKept k json spawn j (none, record sh { jobs = js }) t in
      record { tracked = runs.tracked; same = omega (arith, runs.same, ap (in_jobs k) e) }
  turn-IsKept spawn (j ∷ js) (some c) sh e t =
      let runs = run_job-IsKept k json spawn j (some c, record sh { jobs = js }) t in
      record { tracked = runs.tracked; same = omega (arith, runs.same, ap (in_jobs k) e) }

  owned-IsKept :
      (g : ℕ) (f : Client → Shell → Client × Shell) (p : Plugin)
      → ((c : Client) (sh : Shell)
          → IsTracked (some c, sh)
          → IsKept k 0 (some c, sh) (here (f c sh)))
      → IsTracked p
      → IsKept k 0 p (owned g f p)
  owned-IsKept g f (none, sh) keeps t = record { tracked = t; same = omega arith }
  owned-IsKept g f (some c, sh) keeps t =
      if_both (IsKept k 0 (some c, sh)) (eqb g c.self) (here (f c sh)) (some c, sh) (keeps c sh t)
        (record { tracked = t; same = omega arith })

  on_stderr-IsKept :
      (chunk : List ℕ) (c : Client) (sh : Shell)
      → IsTracked (some c, sh)
      → IsKept k 0 (some c, sh) (some (on_stderr chunk c), sh)
  unfolding on_stderr
  on_stderr-IsKept chunk c sh t = record { tracked = t; same = omega arith }

  ended-held :
      (d : Option (List (ℕ × ℕ))) (g : ℕ) (client : Option Client) (sh : Shell)
      → held k (client, ended d g sh) ≡ held k (client, sh)
  ended-held none g client sh = refl
  ended-held (some l) g client sh = omega (arith, in_jobs-append k sh.jobs (retry g ∷ []))

  delay_over-held :
      (g : ℕ) (client : Option Client) (sh : Shell)
      → held k (client, delay_over g sh) ≡ held k (client, sh)
  unfolding delay_over
  delay_over-held g client sh = ended-held (drop_delay g sh.delayed) g client sh

  happen-IsKept :
      (e : Event) (client : Option Client) (sh : Shell)
      → IsTracked (client, sh)
      → IsKept k (asked k e) (client, sh) (happen json e (client, sh))
  unfolding happen
  happen-IsKept (asks spawn q) client sh t = request-IsKept k spawn q (client, sh) t
  happen-IsKept stops client sh t = stop-IsKept k (client, sh) t
  happen-IsKept (turns spawn) client sh t = turn-IsKept spawn sh.jobs client sh refl t
  happen-IsKept (prints g chunk) client sh t =
      owned-IsKept g (on_stdout json chunk) (client, sh) (on_stdout-IsKept k json chunk) t
  happen-IsKept (logs g chunk) client sh t =
      owned-IsKept g (λ c s. (on_stderr chunk c, s)) (client, sh) (on_stderr-IsKept chunk) t
  happen-IsKept (exits g code) client sh t =
      owned-IsKept g (on_exit json code) (client, sh) (on_exit-IsKept k json code) t
  happen-IsKept (expires g id) none sh t = record {
    tracked = t;
    same = omega (arith, in_jobs-append k sh.jobs (timed_out g id ∷ []));
  }
  happen-IsKept (expires g id) (some c) sh t = record {
    tracked = t;
    same = omega (arith, in_jobs-append k sh.jobs (timed_out g id ∷ []));
  }
  happen-IsKept (is_due g) none sh t = record {
    tracked = t;
    same = omega (arith, delay_over-held g none sh);
  }
  happen-IsKept (is_due g) (some c) sh t = record {
    tracked = t;
    same = omega (arith, delay_over-held g (some c) sh);
  }

  pub history-IsKept :
      (es : List Event) (p : Plugin)
      → IsTracked p
      → IsKept k (asked_times k es) p (history json es p)
  unfolding history
  history-IsKept [] p t = record { tracked = t; same = omega arith }
  history-IsKept (e ∷ es) (client, sh) t =
      let next = happen json e (client, sh) in
      let first = happen-IsKept e client sh t in
      IsKept-twice k (asked k e) (asked_times k es) (client, sh) next (history json es next) first
        (history-IsKept es next first.tracked)

-- Whatever the history of the module since it was loaded, with its starts and their failures, answers,
-- garbage on the streams, crashes, restarts, timeouts and stops, in any order and for any parameters:
-- how often each caller asked is how often it was called, how often it still waits, in `pending`, in
-- `queue` or for its turn in the main loop, and how often an error of Lua dropped it. So no callback is
-- called twice, and none is lost but to such an error: of the index of an answer's field `error`, which
-- drops the answered callback, or of the encoding of parameters, which drops that request and in the
-- flush of the queue those behind it.
pub history-callers :
    (json : Json) (k : ℕ) (es : List Event)
    → waited k (history json es at_load)
        + called_times k (history json es at_load)
        + dropped_times k (history json es at_load)
      ≡ asked_times k es
unfolding at_load
history-callers json k es = let all = history-IsKept json k es at_load tt in omega (arith, all.same)
