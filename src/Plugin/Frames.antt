-- ===== src/Plugin/Frames.antt =====
-- lua/differ/sidecar/init.lua: the frames that a process is written, by the functions of the client.
pub mod Run
pub mod Calls
use Prim.Native.String
use differ_nvim.Common.{
  ℕ, zero, suc, ◌+◌, String, ◌<◌, ◌≤◌, ◌≡◌, refl, ap, ◌∙◌, sym, Bool, true, false, not, Option,
  none, some, List, [], ◌∷◌, ◌++◌, arith, if_both, if◌then◌else◌, ltb, Bool-cases, inl, inr,
}
use differ_nvim.Plugin.State.{
  Given, encodable, unencodable, Failure, Outgoing, Queued, Json, Client, Shell,
}
use differ_nvim.Plugin.Client.{
  raises, fail_all, fail_pending, request_with, do_request, request_each, flush_queue, hello_frame,
  handshake, Spawn, no_binary, spawn_error, spawned, start, schedule_restart, max_attempts, mkerr,
  unavailable, backoff,
}
use differ_nvim.Plugin.Live.Steps.{do_request-ready}

-- The ids of the frames rise, from a bound on and below the next one.
abbrev pub IsRising : ℕ → ℕ → List Outgoing → Type 0
IsRising low next [] = low ≤ next
IsRising low next (f ∷ fs) = (low ≤ f.id) × IsRising (suc f.id) next fs

IsRising-bounds : (low next : ℕ) (fs : List Outgoing) → IsRising low next fs → low ≤ next
IsRising-bounds low next [] h = h
IsRising-bounds low next (f ∷ fs) (l, h) =
    let b = IsRising-bounds (suc f.id) next fs h in omega arith

IsRising-later :
    (low next : ℕ) (fs : List Outgoing) → IsRising low next fs → IsRising low (suc next) fs
IsRising-later low next [] h = omega arith
IsRising-later low next (f ∷ fs) (l, h) = (l, IsRising-later (suc f.id) next fs h)

IsRising-snoc :
    (low next : ℕ) (fs : List Outgoing) (f : Outgoing)
    → f.id ≡ next
    → IsRising low next fs
    → IsRising low (suc next) (fs ++ f ∷ [])
IsRising-snoc low next [] f e h = (omega arith, omega arith)
IsRising-snoc low next (g ∷ fs) f e (l, h) = (l, IsRising-snoc (suc g.id) next fs f e h)

-- What a process was written: its handshake first, under a rising id each, and nothing more while the
-- client is not ready.
abbrev pub Session : ℕ → Bool → Option (List Outgoing) → Type 0
Session next ready none = Unit
Session next ready (some []) = ⊥
Session next ready (some (f ∷ fs)) =
    (f ≡ hello_frame f.id) × IsRising (suc f.id) next fs × (ready ≡ false → fs ≡ [])

pub record IsSpoken (c : Client) : Type 0 where
  pub down : c.running ≡ false → c.proc ≡ none
  pub session : Session c.next_id c.ready c.proc

Session-ready :
    (next : ℕ) (ready : Bool) (proc : Option (List Outgoing))
    → Session next ready proc
    → Session next true proc
Session-ready next ready none s = tt
Session-ready next ready (some []) s = s
Session-ready next ready (some (f ∷ fs)) (hello, rising, quiet) = (hello, rising, λ odd. cc odd)

-- The client becomes ready.
pub readied-IsSpoken :
    (c : Client) (binary : Option String)
    → IsSpoken c
    → IsSpoken (record c { ready = true; attempts = 0; binary = binary })
readied-IsSpoken c binary spoken = record {
  down = spoken.down;
  session = Session-ready c.next_id c.ready c.proc spoken.session;
}

request_with-IsSpoken :
    (proc : Option (List Outgoing)) (params : Given) (q : Queued) (c : Client)
    → c.ready ≡ true
    → (c.running ≡ false → proc ≡ none)
    → c.proc ≡ proc
    → Session c.next_id c.ready proc
    → IsSpoken (request_with proc params q c)
request_with-IsSpoken none params q c r down e s = record { down = λ stands. e; session = rw e tt }
request_with-IsSpoken (some []) params q c r down e s = elim s [ ]
request_with-IsSpoken (some (f ∷ fs)) unencodable q c r down e (hello, rising, quiet) = record {
  down = λ stands. cc (down stands);
  session = rw e (hello, IsRising-later (suc f.id) c.next_id fs rising, quiet);
}
request_with-IsSpoken (some (f ∷ fs)) (encodable params) q c r down e (hello, rising, quiet) =
    record {
      down = λ stands. cc (down stands);
      session = (hello, IsRising-snoc (suc f.id) c.next_id fs _ refl rising, λ odd. cc (r, odd));
    }

pub do_request-IsSpoken :
    (q : Queued) (c : Client) → c.ready ≡ true → IsSpoken c → IsSpoken (do_request q c)
unfolding do_request
do_request-IsSpoken q c r spoken =
    request_with-IsSpoken c.proc q.params q c r spoken.down refl spoken.session

request_each-IsSpoken :
    (qs : List Queued) (c : Client) → c.ready ≡ true → IsSpoken c → IsSpoken (request_each qs c)
unfolding request_each
request_each-IsSpoken [] c r spoken = spoken
request_each-IsSpoken (q ∷ qs) c r spoken =
    let next = do_request q c in
    let first = do_request-IsSpoken q c r spoken in
    if_both IsSpoken (raises q c) next (request_each qs next) first
      (request_each-IsSpoken qs next (do_request-ready q c ∙ r) first)

pub flush_queue-IsSpoken : (c : Client) → c.ready ≡ true → IsSpoken c → IsSpoken (flush_queue c)
unfolding flush_queue
flush_queue-IsSpoken c r spoken =
    request_each-IsSpoken c.queue (record c { queue = [] }) r
      (record { down = spoken.down; session = spoken.session })

-- A client with no process tries to start one.
pub start-IsSpoken :
    (spawn : Spawn) (c : Client) → c.running ≡ false → IsSpoken c → IsSpoken (start spawn c).0
unfolding start handshake
start-IsSpoken no_binary c down spoken = spoken
start-IsSpoken (spawn_error why) c down spoken = record {
  down = spoken.down;
  session = rw (spoken.down down) tt;
}
start-IsSpoken spawned c down spoken = record {
  down = λ odd. cc odd;
  session = (refl, omega arith, λ waits. refl);
}

abbrev pub IsSpokenPair : Client × Shell → Type 0
IsSpokenPair (c, sh) = IsSpoken c

pub schedule_restart-IsSpoken :
    (json : Json) (c : Client) (sh : Shell) → IsSpoken c → IsSpokenPair (schedule_restart json c sh)
unfolding schedule_restart fail_all
schedule_restart-IsSpoken json c sh spoken =
    let n = suc c.attempts in
    let tried = record c { attempts = n } in
    if_both IsSpokenPair (ltb max_attempts n)
      (fail_all (mkerr "internal" (unavailable json sh.last_exit)) tried sh)
      (tried, record sh { delayed = sh.delayed ++ (c.self, backoff n) ∷ [] })
      (record { down = spoken.down; session = spoken.session })
      (record { down = spoken.down; session = spoken.session })
