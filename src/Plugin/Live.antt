-- ===== src/Plugin/Live.antt =====
-- lua/differ/sidecar/init.lua: what a client that still has requests to send waits for.
pub mod Steps
pub mod Main
pub mod Jobs
use Prim.Native.String
use differ_nvim.Common.{
  ℕ, zero, suc, ◌+◌, ◌<◌, ◌≤◌, ◌≡◌, refl, ap, ◌∙◌, sym, Bool, true, false, not, ◌||◌, Option, none,
  some, List, [], ◌∷◌, ◌++◌, map, arith, if_both, eqb, if◌then◌else◌, ltb, Bool-cases, Option-cases,
  inl, inr,
}
use differ_nvim.Plugin.State.{
  Callback, caller, greeter, Failure, Outcome, Outgoing, Queued, Json, Client, Job, call, timed_out,
  retry, Shell,
}
use differ_nvim.Plugin.Client.{pending_at, forget}
use differ_nvim.Plugin.Events.{Plugin, drop_delay}
use differ_nvim.Plugin.Callers.{IsOrdered, forget-older}

abbrev pub is_empty : List Queued → Bool
is_empty [] = true
is_empty (q ∷ qs) = false

abbrev pub is_spawned : Option (List Outgoing) → Bool
is_spawned none = false
is_spawned (some frames) = true

-- The callback of a client's handshake, in `pending` or among the jobs.
abbrev pub is_greeter : ℕ → Callback → Bool
is_greeter g (caller k) = false
is_greeter g (greeter h) = eqb h g

abbrev pub greets : ℕ → List (ℕ × Callback) → Bool
greets g [] = false
greets g ((id, cb) ∷ rest) = is_greeter g cb || greets g rest

abbrev pub hears_in : ℕ → Job → Bool
hears_in g (call cb o) = is_greeter g cb
hears_in g (timed_out h id) = false
hears_in g (retry h) = false

abbrev pub hears : ℕ → List Job → Bool
hears g [] = false
hears g (j ∷ js) = hears_in g j || hears g js

-- The callback of a client's handshake, among those that an error dropped.
abbrev pub misses : ℕ → List Callback → Bool
misses g [] = false
misses g (cb ∷ cbs) = is_greeter g cb || misses g cbs

-- A restart of a client, with its delay, or among the jobs.
abbrev pub in_delays : ℕ → List (ℕ × ℕ) → Bool
in_delays g [] = false
in_delays g ((k, ms) ∷ rest) = eqb k g || in_delays g rest

abbrev pub retries_in : ℕ → Job → Bool
retries_in g (call cb o) = false
retries_in g (timed_out h id) = false
retries_in g (retry h) = eqb h g

abbrev pub retries : ℕ → List Job → Bool
retries g [] = false
retries g (j ∷ js) = retries_in g j || retries g js

abbrev pub arms : ℕ → Shell → Bool
arms g sh = in_delays g sh.delayed || retries g sh.jobs

-- The state of a client between two events: the one that is running has a process; the one that is
-- ready is running, and has sent what was queued; the one that is running, and not yet ready, waits for
-- the answer to its `hello`, unless an error dropped the callback for it; and one that is not running has nothing queued, or waits for a restart.
pub record IsLive (c : Client) (sh : Shell) : Type 0 where
  pub tracked : IsOrdered 0 c.next_id c.pending
  pub steady : c.stopping ≡ false
  pub fed : (not c.running || is_spawned c.proc) ≡ true
  pub up : (not c.ready || c.running) ≡ true
  pub sent : (not c.ready || is_empty c.queue) ≡ true
  pub greeting :
      (not c.running
        || c.ready
        || greets c.self c.pending
        || hears c.self sh.jobs
        || misses c.self sh.raised)
      ≡ true
  pub arming : (c.running || is_empty c.queue || arms c.self sh) ≡ true

pub hears-append : (g : ℕ) (js ks : List Job) → hears g (js ++ ks) ≡ (hears g js || hears g ks)
hears-append g [] ks = refl
hears-append g (j ∷ js) ks = ground (arith, hears-append g js ks)

pub misses-append :
    (g : ℕ) (xs ys : List Callback) → misses g (xs ++ ys) ≡ (misses g xs || misses g ys)
misses-append g [] ys = refl
misses-append g (x ∷ xs) ys = ground (arith, misses-append g xs ys)

pub retries-append :
    (g : ℕ) (js ks : List Job) → retries g (js ++ ks) ≡ (retries g js || retries g ks)
retries-append g [] ks = refl
retries-append g (j ∷ js) ks = ground (arith, retries-append g js ks)

pub in_delays-snoc : (g ms : ℕ) (ds : List (ℕ × ℕ)) → in_delays g (ds ++ (g, ms) ∷ []) ≡ true
in_delays-snoc g ms [] = ground arith
in_delays-snoc g ms ((k, m) ∷ ds) = ground (arith, in_delays-snoc g ms ds)

greets-snoc : (g id : ℕ) (p : List (ℕ × Callback)) → greets g (p ++ (id, greeter g) ∷ []) ≡ true
greets-snoc g id [] = ground arith
greets-snoc g id ((i, cb) ∷ p) = ground (arith, greets-snoc g id p)

pub greets-await :
    (g id : ℕ) (p : List (ℕ × Callback)) → greets g (forget id p ++ (id, greeter g) ∷ []) ≡ true
greets-await g id p = greets-snoc g id (forget id p)

-- A callback that leaves `pending` is the one of the handshake, or that one stays.
pub greets-forget :
    (g low next i : ℕ) (p : List (ℕ × Callback)) (cb : Callback)
    → IsOrdered low next p
    → pending_at i p ≡ some cb
    → greets g p ≡ (is_greeter g cb || greets g (forget i p))
unfolding pending_at forget
greets-forget g low next i [] cb h at = cc
greets-forget g low next i ((id, b) ∷ p) cb (l, h) at = elim (Bool-cases (eqb i id)) [
  | inl same ↦
      let this : b ≡ cb = cc (rw same at at) in
      rw (same, forget-older (suc id) next i p h (ground arith), this) refl
  | inr other ↦
      let later = rw other at at in
      rw other (ground (arith, greets-forget g (suc id) next i p cb h later))
]

-- The end of a delay makes its restart a job.
pub in_delays-drop :
    (g h : ℕ) (ds l : List (ℕ × ℕ))
    → drop_delay h ds ≡ some l
    → in_delays g ds ≡ (eqb h g || in_delays g l)
unfolding drop_delay
in_delays-drop g h [] l e = cc
in_delays-drop g h ((k, ms) ∷ ds) l e = elim (Bool-cases (eqb h k)) [
  | inl same ↦
      let rest : ds ≡ l = cc (rw same at e) in
      let this : h ≡ k = ground arith in rw (rest, this) refl
  | inr other ↦ elim (Option-cases (drop_delay h ds)) [
    | inl none_left ↦ let bad = rw (other, none_left) at e in cc bad
    | inr (rest, found) ↦
        let this : (k, ms) ∷ rest ≡ l = cc (rw (other, found) at e) in
        rw (sym this) (ground (arith, in_delays-drop g h ds rest found))
  ]
]
