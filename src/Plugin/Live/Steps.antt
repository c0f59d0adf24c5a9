-- ===== src/Plugin/Live/Steps.antt =====
-- lua/differ/sidecar/init.lua: the functions of the client keep `IsLive`.
use differ_nvim.Common.{
  suc, ◌≡◌, refl, ◌∙◌, true, false, Option, none, some, List, [], ◌∷◌, ◌++◌, arith, if_both, ltb,
}
use differ_nvim.Plugin.State.{
  Callback, Given, encodable, unencodable, caller, greeter, Outgoing, Queued, Json, Client, Job,
  Shell,
}
use differ_nvim.Plugin.Client.{
  lose, raises, flush_dropped, schedule, fail_all, request_with, do_request, request_each,
  flush_queue, handshake, Spawn, no_binary, spawn_error, spawned, start, fresh_streams, backoff,
  schedule_restart, max_attempts, mkerr, unavailable,
}
use differ_nvim.Plugin.Callers.{IsOrdered-later, IsOrdered, IsOrdered-await}
use differ_nvim.Plugin.Live.{
  misses-append, is_spawned, hears-append, retries-append, in_delays-snoc, greets-await, IsLive,
}

abbrev pub IsLivePair : Client × Shell → Type 0
IsLivePair (c, sh) = IsLive c sh

-- More jobs change nothing that a client waits for.
pub schedule-IsLive :
    (js : List Job) (c : Client) (sh : Shell) → IsLive c sh → IsLive c (schedule js sh)
schedule-IsLive js c sh live = record {
  tracked = live.tracked;
  steady = live.steady;
  fed = live.fed;
  up = live.up;
  sent = live.sent;
  greeting = ground (arith, live.greeting, hears-append c.self sh.jobs js);
  arming = ground (arith, live.arming, retries-append c.self sh.jobs js);
}

-- Neither do more callbacks that an error dropped.
pub lose-IsLive :
    (cbs : List Callback) (c : Client) (sh : Shell) → IsLive c sh → IsLive c (lose cbs sh)
lose-IsLive cbs c sh live = record {
  tracked = live.tracked;
  steady = live.steady;
  fed = live.fed;
  up = live.up;
  sent = live.sent;
  greeting = ground (arith, live.greeting, misses-append c.self sh.raised cbs);
  arming = live.arming;
}

-- A client that is ready writes what it is asked, or the request is dropped.
request_with-IsLive :
    (proc : Option (List Outgoing)) (params : Given) (q : Queued) (c : Client) (sh : Shell)
    → is_spawned proc ≡ true
    → c.ready ≡ true
    → IsLive c sh
    → IsLive (request_with proc params q c) sh
request_with-IsLive none params q c sh p r live = cc
request_with-IsLive (some frames) unencodable q c sh p r live = record {
  tracked = IsOrdered-later 0 c.next_id c.pending live.tracked;
  steady = live.steady;
  fed = live.fed;
  up = live.up;
  sent = live.sent;
  greeting = live.greeting;
  arming = live.arming;
}
request_with-IsLive (some frames) (encodable params) q c sh p r live = record {
  tracked = IsOrdered-await c.next_id c.pending (caller q.owner) live.tracked;
  steady = live.steady;
  fed = ground (arith, live.fed);
  up = live.up;
  sent = live.sent;
  greeting = ground (arith, r);
  arming = live.arming;
}

request_with-ready :
    (proc : Option (List Outgoing)) (params : Given) (q : Queued) (c : Client)
    → (request_with proc params q c).ready ≡ c.ready
request_with-ready none params q c = refl
request_with-ready (some frames) unencodable q c = refl
request_with-ready (some frames) (encodable params) q c = refl

ready-spawned : (c : Client) (sh : Shell) → c.ready ≡ true → IsLive c sh → is_spawned c.proc ≡ true
ready-spawned c sh r live = ground (arith, r, live.fed, live.up)

pub do_request-IsLive :
    (q : Queued) (c : Client) (sh : Shell)
    → c.ready ≡ true
    → IsLive c sh
    → IsLive (do_request q c) sh
unfolding do_request
do_request-IsLive q c sh r live =
    request_with-IsLive c.proc q.params q c sh (ready-spawned c sh r live) r live

pub do_request-ready : (q : Queued) (c : Client) → (do_request q c).ready ≡ c.ready
unfolding do_request
do_request-ready q c = request_with-ready c.proc q.params q c

request_each-IsLive :
    (qs : List Queued) (c : Client) (sh : Shell)
    → c.ready ≡ true
    → IsLive c sh
    → IsLive (request_each qs c) sh
unfolding request_each
request_each-IsLive [] c sh r live = live
request_each-IsLive (q ∷ qs) c sh r live =
    let next = do_request q c in
    let first = do_request-IsLive q c sh r live in
    if_both (λ d. IsLive d sh) (raises q c) next (request_each qs next) first
      (request_each-IsLive qs next sh (do_request-ready q c ∙ r) first)

-- The queue of a running client that has become ready is sent.
pub flush_queue-IsLive :
    (c : Client) (sh : Shell)
    → c.running ≡ true
    → c.ready ≡ true
    → c.stopping ≡ false
    → is_spawned c.proc ≡ true
    → IsOrdered 0 c.next_id c.pending
    → IsLive (flush_queue c) (lose (flush_dropped c) sh)
unfolding flush_queue
flush_queue-IsLive c sh up r steady fed tracked = lose-IsLive (flush_dropped c) (flush_queue c) sh (
    request_each-IsLive c.queue (record c { queue = [] }) sh r
      (record {
        tracked = tracked;
        steady = steady;
        fed = ground (arith, fed);
        up = ground (arith, up);
        sent = ground arith;
        greeting = ground (arith, r);
        arming = ground arith;
      }))

-- A process that was started, and awaits `hello`.
pub handshake-IsLive :
    (c : Client) (sh : Shell)
    → c.running ≡ true
    → c.ready ≡ false
    → c.stopping ≡ false
    → c.proc ≡ some []
    → IsOrdered 0 c.next_id c.pending
    → IsLive (handshake c) sh
unfolding handshake
handshake-IsLive c sh up r steady fed tracked = record {
  tracked = IsOrdered-await c.next_id c.pending (greeter c.self) tracked;
  steady = steady;
  fed = rw fed (ground arith);
  up = ground (arith, r);
  sent = ground (arith, r);
  greeting = ground (arith, greets-await c.self c.next_id c.pending);
  arming = ground (arith, up);
}

-- Whatever the start of the process gives, for a client that has none.
pub start-IsLive :
    (spawn : Spawn) (c : Client) (sh : Shell)
    → c.running ≡ false
    → IsLive c sh
    → IsLive (start spawn c).0 sh
unfolding start
start-IsLive no_binary c sh down live = live
start-IsLive (spawn_error why) c sh down live = record {
  tracked = live.tracked;
  steady = live.steady;
  fed = live.fed;
  up = ground arith;
  sent = ground arith;
  greeting = ground (arith, down);
  arming = live.arming;
}
start-IsLive spawned c sh down live =
    handshake-IsLive (record (fresh_streams c) { proc = some []; running = true }) sh refl refl
      live.steady refl live.tracked

-- A start that gives no reason has a process.
pub start-running :
    (spawn : Spawn) (c : Client) → (start spawn c).1 ≡ none → (start spawn c).0.running ≡ true
unfolding start handshake
start-running no_binary c e = cc
start-running (spawn_error why) c e = cc
start-running spawned c e = refl

-- A client that is not running asks for a restart, or gives up all that waits.
pub schedule_restart-IsLive :
    (json : Json) (c : Client) (sh : Shell)
    → c.running ≡ false
    → c.ready ≡ false
    → c.stopping ≡ false
    → IsOrdered 0 c.next_id c.pending
    → IsLivePair (schedule_restart json c sh)
unfolding schedule_restart fail_all
schedule_restart-IsLive json c sh down r steady tracked =
    let n = suc c.attempts in
    let why = mkerr "internal" (unavailable json sh.last_exit) in
    let tried = record c { attempts = n } in
    let delays = sh.delayed ++ (c.self, backoff n) ∷ [] in
    if_both IsLivePair (ltb max_attempts n) (fail_all why tried sh)
      (tried, record sh { delayed = delays })
      (record {
        tracked = omega arith;
        steady = steady;
        fed = ground (arith, down);
        up = ground (arith, r);
        sent = ground arith;
        greeting = ground (arith, down);
        arming = ground arith;
      })
      (record {
        tracked = tracked;
        steady = steady;
        fed = ground (arith, down);
        up = ground (arith, r);
        sent = ground (arith, r);
        greeting = ground (arith, down);
        arming = ground (arith, in_delays-snoc c.self (backoff n) sh.delayed);
      })
