-- ===== src/Plugin/Answered/Stopped.antt =====
-- lua/differ/sidecar/init.lua: what `M.stop` leaves behind.
use differ_nvim.Common.{
  ℕ, zero, suc, ◌+◌, ◌≤◌, ◌≡◌, refl, Option, none, some, List, [], ◌∷◌, ◌++◌, arith, length, drop,
}
use differ_nvim.Plugin.State.{caller, greeter, Json, Client, Job, call, timed_out, retry, Shell}
use differ_nvim.Plugin.Client.{Spawn}
use differ_nvim.Plugin.Events.{
  Plugin, stop, run_job, run_callback, Event, stops, turns, turn, happen, history, at_load,
}
use differ_nvim.Plugin.Callers.{waited, called_times, dropped_times, asked_times}
use differ_nvim.Plugin.Answered.{history-callers}

-- So many turns of the main loop.
abbrev pub many_turns : Spawn → ℕ → List Event
many_turns spawn zero = []
many_turns spawn (suc n) = turns spawn ∷ many_turns spawn n

module _ (json : Json) where
  history-append :
      (es later : List Event) (p : Plugin)
      → history json (es ++ later) p ≡ history json later (history json es p)
  unfolding history
  history-append [] later p = refl
  history-append (e ∷ es) later p = history-append es later (happen json e p)

  stop-client : (p : Plugin) → (stop p).0 ≡ none
  unfolding stop
  stop-client (none, sh) = refl
  stop-client (some c, sh) = refl

  -- With no client, a job of the main loop leaves only a call behind.
  run_job-alone :
      (spawn : Spawn) (j : Job) (sh : Shell)
      → ((run_job json spawn j (none, sh)).0 ≡ none)
        × ((run_job json spawn j (none, sh)).1.jobs ≡ sh.jobs)
  unfolding run_job run_callback
  run_job-alone spawn (call (caller j) o) sh = (refl, refl)
  run_job-alone spawn (call (greeter g) o) sh = (refl, refl)
  run_job-alone spawn (timed_out g id) sh = (refl, refl)
  run_job-alone spawn (retry g) sh = (refl, refl)

  turn-alone :
      (spawn : Spawn) (js : List Job) (client : Option Client) (sh : Shell)
      → client ≡ none
      → sh.jobs ≡ js
      → ((turn json spawn js (client, sh)).0 ≡ none)
        × ((turn json spawn js (client, sh)).1.jobs ≡ drop 1 js)
  unfolding turn
  turn-alone spawn [] client sh gone e = (gone, e)
  turn-alone spawn (j ∷ js) client sh gone e =
      rw gone (run_job-alone spawn j (record sh { jobs = js }))

  fewer_jobs : (js : List Job) (n : ℕ) → length js ≤ suc n → length (drop 1 js) ≤ n
  fewer_jobs [] n l = omega arith
  fewer_jobs (j ∷ js) n l = omega arith

  no_jobs : (js : List Job) → length js ≤ 0 → js ≡ []
  no_jobs [] l = refl
  no_jobs (j ∷ js) l = elim l [ ]

  turns-alone :
      (spawn : Spawn) (n : ℕ) (client : Option Client) (sh : Shell)
      → client ≡ none
      → length sh.jobs ≤ n
      → ((history json (many_turns spawn n) (client, sh)).0 ≡ none)
        × ((history json (many_turns spawn n) (client, sh)).1.jobs ≡ [])
  unfolding history happen
  turns-alone spawn zero client sh gone l = (gone, no_jobs sh.jobs l)
  turns-alone spawn (suc n) client sh gone l =
      let next = turn json spawn sh.jobs (client, sh) in
      let alone = turn-alone spawn sh.jobs client sh gone refl in
      turns-alone spawn n next.0 next.1 (alone.0) (rw (alone.1) (fewer_jobs sh.jobs n l))

  asked_times-append :
      (k : ℕ) (es later : List Event)
      → asked_times k (es ++ later) ≡ asked_times k es + asked_times k later
  asked_times-append k [] later = omega arith
  asked_times-append k (e ∷ es) later = omega (arith, asked_times-append k es later)

  asked_times-turns : (k : ℕ) (spawn : Spawn) (n : ℕ) → asked_times k (many_turns spawn n) ≡ 0
  asked_times-turns k spawn zero = refl
  asked_times-turns k spawn (suc n) = omega (arith, asked_times-turns k spawn n)

  waited-none : (k : ℕ) (p : Plugin) → p.0 ≡ none → p.1.jobs ≡ [] → waited k p ≡ 0
  waited-none k (client, sh) gone empty = rw (gone, empty) refl

  -- After any history of the module, a stop, and as many turns of the main loop as it then has jobs, or
  -- more: each caller was called, or dropped by an error of Lua, exactly as often as it asked; nothing
  -- waits any more.
  pub stop-calls_all :
      (k : ℕ) (es : List Event) (spawn : Spawn) (n : ℕ)
      → length (stop (history json es at_load)).1.jobs ≤ n
      → called_times k (history json (es ++ stops ∷ many_turns spawn n) at_load)
          + dropped_times k (history json (es ++ stops ∷ many_turns spawn n) at_load)
        ≡ asked_times k es
  unfolding history happen
  stop-calls_all k es spawn n enough =
      let p = history json es at_load in
      let ends = turns-alone spawn n (stop p).0 (stop p).1 (stop-client p) enough in
      let last = history json (es ++ stops ∷ many_turns spawn n) at_load in
      let split : last ≡ history json (many_turns spawn n) (stop p) =
        history-append es (stops ∷ many_turns spawn n) at_load in
      let quiet : waited k last ≡ 0 =
        rw split (waited-none k (history json (many_turns spawn n) (stop p)) (ends.0) (ends.1)) in
      omega (
        arith,
        quiet,
        history-callers json k (es ++ stops ∷ many_turns spawn n),
        asked_times-append k es (stops ∷ many_turns spawn n),
        asked_times-turns k spawn n,
      )
