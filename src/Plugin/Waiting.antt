-- ===== src/Plugin/Waiting.antt =====
-- lua/differ/sidecar/init.lua: over a history of the client, no queued request is forgotten.
use differ_nvim.Common.{
  ℕ, suc, ◌≡◌, ◌⊎◌, refl, subst, true, false, not, ◌||◌, Option, none, some, List, [], ◌∷◌, ◌++◌,
  arith, if_both, if_split, eqb, Bool-cases, inl, inr,
}
use differ_nvim.Plugin.State.{
  caller, failed, Queued, Json, Client, Job, call, timed_out, retry, Shell,
}
use differ_nvim.Plugin.Client.{lose, dropped_by, do_request, Spawn, start, mkerr, new_client}
use differ_nvim.Plugin.Process.{on_stdout, on_stderr, on_exit}
use differ_nvim.Plugin.Events.{
  Plugin, here, ask, ask_started, request_of, request, stop, Event, asks, stops, turns, prints,
  logs, exits, expires, is_due, owned, drop_delay, ended, delay_over, turn, happen, history,
  at_load,
}
use differ_nvim.Plugin.Live.{
  misses, is_empty, greets, hears, in_delays-drop, retries-append, hears-append, arms, IsLive,
}
use differ_nvim.Plugin.Live.Steps.{
  lose-IsLive, IsLivePair, schedule-IsLive, do_request-IsLive, start-IsLive, start-running,
}
use differ_nvim.Plugin.Live.Main.{IsLivePlugin, on_stdout-IsLive, on_stderr-IsLive, on_exit-IsLive}
use differ_nvim.Plugin.Live.Jobs.{run_job-IsLive, run_job_alone-IsLive}

-- A request to a running client is written or queued.
queued-IsLive :
    (q : Queued) (c : Client) (sh : Shell)
    → c.running ≡ true
    → c.ready ≡ false
    → IsLive c sh
    → IsLive (record c { queue = c.queue ++ q ∷ [] }) sh
queued-IsLive q c sh up r live = record {
  tracked = live.tracked;
  steady = live.steady;
  fed = live.fed;
  up = live.up;
  sent = ground (arith, r);
  greeting = live.greeting;
  arming = ground (arith, up);
}

ask-IsLive :
    (q : Queued) (c : Client) (sh : Shell)
    → c.running ≡ true
    → IsLive c sh
    → IsLivePair (ask q c sh)
ask-IsLive q c sh up live =
    if_split IsLivePair c.ready (do_request q c, lose (dropped_by q c) sh)
      (record c { queue = c.queue ++ q ∷ [] }, sh)
      (λ is_ready.
        lose-IsLive (dropped_by q c) (do_request q c) sh (do_request-IsLive q c sh is_ready live))
      (λ waits. queued-IsLive q c sh up waits live)

ask_started-IsLive :
    (q : Queued) (s : Client × Option (List ℕ)) (sh : Shell)
    → (s.1 ≡ none → s.0.running ≡ true)
    → IsLive s.0 sh
    → IsLivePair (ask_started q s sh)
ask_started-IsLive q (c, none) sh up live = ask-IsLive q c sh (up refl) live
ask_started-IsLive q (c, some why) sh up live =
    schedule-IsLive (call (caller q.owner) (failed (mkerr "internal" why)) ∷ []) c sh live

request_of-IsLive :
    (spawn : Spawn) (q : Queued) (c : Client) (sh : Shell)
    → IsLive c sh
    → IsLivePair (request_of spawn q c sh)
unfolding request_of
request_of-IsLive spawn q c sh live =
    if_split IsLivePair (not c.running) (ask_started q (start spawn c) sh) (ask q c sh)
      (λ stands.
        ask_started-IsLive q (start spawn c) sh (start-running spawn c)
          (start-IsLive spawn c sh (ground (arith, stands)) live))
      (λ runs. ask-IsLive q c sh (ground (arith, runs)) live)

new_client-IsLive : (n : ℕ) (sh : Shell) → IsLive (new_client n) sh
unfolding new_client
new_client-IsLive n sh = record {
  tracked = omega arith;
  steady = refl;
  fed = refl;
  up = refl;
  sent = refl;
  greeting = refl;
  arming = refl;
}

request-IsLive :
    (spawn : Spawn) (q : Queued) (p : Plugin) → IsLivePlugin p → IsLivePlugin (request spawn q p)
unfolding request
request-IsLive spawn q (none, sh) live =
    let made = record sh { next_client = suc sh.next_client } in
    request_of-IsLive spawn q (new_client sh.next_client) made
      (new_client-IsLive sh.next_client made)
request-IsLive spawn q (some c, sh) live = request_of-IsLive spawn q c sh live

stop-IsLive : (p : Plugin) → IsLivePlugin p → IsLivePlugin (stop p)
unfolding stop
stop-IsLive (none, sh) live = tt
stop-IsLive (some c, sh) live = tt

owned-IsLive :
    (g : ℕ) (f : Client → Shell → Client × Shell) (p : Plugin)
    → ((c : Client) (sh : Shell) → IsLive c sh → IsLivePair (f c sh))
    → IsLivePlugin p
    → IsLivePlugin (owned g f p)
owned-IsLive g f (none, sh) keeps live = tt
owned-IsLive g f (some c, sh) keeps live =
    if_both IsLivePlugin (eqb g c.self) (here (f c sh)) (some c, sh) (keeps c sh live) live

ended-IsLive :
    (d : Option (List (ℕ × ℕ))) (g : ℕ) (c : Client) (sh : Shell)
    → drop_delay g sh.delayed ≡ d
    → IsLive c sh
    → IsLive c (ended d g sh)
ended-IsLive none g c sh e live = live
ended-IsLive (some l) g c sh e live = record {
  tracked = live.tracked;
  steady = live.steady;
  fed = live.fed;
  up = live.up;
  sent = live.sent;
  greeting = ground (arith, live.greeting, hears-append c.self sh.jobs (retry g ∷ []));
  arming = ground (
    arith,
    live.arming,
    retries-append c.self sh.jobs (retry g ∷ []),
    in_delays-drop c.self g sh.delayed l e,
  );
}

module _ (json : Json) where
  turn-IsLive :
      (spawn : Spawn) (js : List Job) (client : Option Client) (sh : Shell)
      → IsLivePlugin (client, record sh { jobs = js })
      → IsLivePlugin (client, sh)
      → IsLivePlugin (turn json spawn js (client, sh))
  unfolding turn
  turn-IsLive spawn [] client sh at live = live
  turn-IsLive spawn (j ∷ js) none sh at live =
      run_job_alone-IsLive json spawn j (record sh { jobs = js })
  turn-IsLive spawn (j ∷ js) (some c) sh at live =
      run_job-IsLive json spawn j c (record sh { jobs = js }) at

  happen-IsLive :
      (e : Event) (client : Option Client) (sh : Shell)
      → IsLivePlugin (client, sh)
      → IsLivePlugin (happen json e (client, sh))
  unfolding happen delay_over
  happen-IsLive (asks spawn q) client sh live = request-IsLive spawn q (client, sh) live
  happen-IsLive stops client sh live = stop-IsLive (client, sh) live
  happen-IsLive (turns spawn) client sh live = turn-IsLive spawn sh.jobs client sh live live
  happen-IsLive (prints g chunk) client sh live =
      owned-IsLive g (on_stdout json chunk) (client, sh) (on_stdout-IsLive json chunk) live
  happen-IsLive (logs g chunk) client sh live =
      owned-IsLive g (λ c s. (on_stderr chunk c, s)) (client, sh) (on_stderr-IsLive json chunk) live
  happen-IsLive (exits g code) client sh live =
      owned-IsLive g (on_exit json code) (client, sh) (on_exit-IsLive json code) live
  happen-IsLive (expires g id) none sh live = tt
  happen-IsLive (expires g id) (some c) sh live = schedule-IsLive (timed_out g id ∷ []) c sh live
  happen-IsLive (is_due g) none sh live = tt
  happen-IsLive (is_due g) (some c) sh live =
      ended-IsLive (drop_delay g sh.delayed) g c sh refl live

  pub history-IsLive :
      (es : List Event) (p : Plugin) → IsLivePlugin p → IsLivePlugin (history json es p)
  unfolding history
  history-IsLive [] p live = live
  history-IsLive (e ∷ es) (client, sh) live =
      history-IsLive es (happen json e (client, sh)) (happen-IsLive e client sh live)

  reached-IsLive :
      (es : List Event) (c : Client) (sh : Shell)
      → history json es at_load ≡ (some c, sh)
      → IsLive c sh
  unfolding at_load
  reached-IsLive es c sh e = subst IsLivePlugin e (history-IsLive es at_load tt)

  -- Wherever a history of the module since it was loaded ends with a client that has requests in its
  -- queue, and no error of Lua dropped the callback of a handshake of that client: a restart of that
  -- client is on its way, as a delay that runs or as a job of the main loop, or its process runs, is not
  -- yet ready, and the callback of its handshake waits, under a timeout, or is a job of the main loop. So
  -- a queued request is not left with nothing that will send or fail it.
  pub queue-waits :
      (es : List Event) (c : Client) (sh : Shell)
      → history json es at_load ≡ (some c, sh)
      → is_empty c.queue ≡ false
      → misses c.self sh.raised ≡ false
      → (arms c.self sh ≡ true)
        ⊎ ((c.running ≡ true)
            × (c.ready ≡ false)
            × ((greets c.self c.pending || hears c.self sh.jobs) ≡ true))
  queue-waits es c sh reached asked kept =
      let live = reached-IsLive es c sh reached in
      elim (Bool-cases c.running) [
        | inr down ↦ inl (ground (arith, live.arming, down, asked))
        | inl up ↦
            let waits : c.ready ≡ false = ground (arith, live.sent, asked) in
            inr (up, waits, ground (arith, live.greeting, up, waits, kept))
      ]
