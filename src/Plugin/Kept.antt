-- ===== src/Plugin/Kept.antt =====
-- lua/differ/sidecar/init.lua: the functions of the client keep the callbacks that they do not call.
pub mod Main
pub mod Process
use Prim.Native.String
use differ_nvim.Common.{
  ℕ, zero, suc, ◌+◌, ◌<◌, ◌≤◌, ◌≡◌, refl, ap, ◌∙◌, Bool, true, false, Option, none, some, List, [],
  ◌∷◌, ◌++◌, map, arith, if_both, eqb, if◌then◌else◌, ltb, Bool-cases, Option-cases, inl, inr,
}
use differ_nvim.Plugin.State.{
  Callback, caller, greeter, Failure, Outcome, Params, Outgoing, Given, encodable, unencodable,
  Queued, Json, Client, Job, call, timed_out, retry, Shell,
}
use differ_nvim.Plugin.Client.{
  pending_at, forget, failing, failing_queued, schedule, fail_pending, fail_all, teardown, lose,
  owner_of, raises_with, raises, dropped_by, dropped_each, flush_dropped, request_with, do_request,
  request_each, flush_queue, handshake, Spawn, no_binary, spawn_error, spawned, start,
  fresh_streams, backoff, schedule_restart, max_attempts, mkerr, unavailable,
}
use differ_nvim.Plugin.Events.{Plugin, here}
use differ_nvim.Plugin.Callers.{
  in_callback, in_pending, in_queue, in_jobs, in_client, in_callbacks, in_callbacks-append,
  in_callbacks-owners, waited, called_times, dropped_times, in_pending-append, in_queue-append,
  in_jobs-append, in_jobs-failing, in_jobs-failing_queued, IsOrdered, IsOrdered-bounds,
  IsOrdered-later, IsOrdered-await, in_pending-await,
}

-- The ids of the client's callbacks rise below the next one.
abbrev pub IsTracked : Plugin → Type 0
IsTracked (none, sh) = Unit
IsTracked (some c, sh) = IsOrdered 0 c.next_id c.pending

-- How often a caller is waited for, was called, or was dropped by an error.
abbrev pub held : ℕ → Plugin → ℕ
held k p = waited k p + called_times k p + dropped_times k p

pub record IsKept (k added : ℕ) (p p' : Plugin) : Type 0 where
  pub tracked : IsTracked p'
  pub same : held k p' ≡ added + held k p

module _ (k : ℕ) where
  pub IsKept-twice :
      (m n : ℕ) (p p' p'' : Plugin) → IsKept k m p p' → IsKept k n p' p'' → IsKept k (m + n) p p''
  IsKept-twice m n p p' p'' a b = record {
    tracked = b.tracked;
    same = omega (arith, a.same, b.same);
  }

  pub fail_pending-IsKept :
      (e : Failure) (c : Client) (sh : Shell) → IsKept k 0 (some c, sh) (here (fail_pending e c sh))
  unfolding fail_pending
  fail_pending-IsKept e c sh = record {
    tracked = omega arith;
    same = omega (
      arith,
      in_jobs-append k sh.jobs (map (failing e) c.pending),
      in_jobs-failing k e c.pending,
    );
  }

  pub fail_all-IsKept :
      (e : Failure) (c : Client) (sh : Shell) → IsKept k 0 (some c, sh) (here (fail_all e c sh))
  unfolding fail_all
  fail_all-IsKept e c sh = record {
    tracked = omega arith;
    same = omega (
      arith,
      in_jobs-append k sh.jobs (map (failing e) c.pending),
      in_jobs-failing k e c.pending,
      in_jobs-append k (sh.jobs ++ map (failing e) c.pending) (map (failing_queued e) c.queue),
      in_jobs-failing_queued k e c.queue,
    );
  }

  pub teardown-IsKept :
      (e : Failure) (c : Client) (sh : Shell) → IsKept k 0 (some c, sh) (none, teardown e c sh)
  unfolding teardown fail_all
  teardown-IsKept e c sh = record {
    tracked = tt;
    same =
        (fail_all-IsKept e (record c { stopping = true; ready = false; running = false }) sh).same;
  }

  -- A caller's frame is written, or queued, or its callback is dropped.
  request_with-IsKept :
      (proc : Option (List Outgoing)) (params : Given) (q : Queued) (c : Client) (sh : Shell)
      → IsTracked (some c, sh)
      → IsKept k
          (in_callback k (caller q.owner))
          (some c, sh)
          (
            some (request_with proc params q c),
            lose (if raises_with proc params then owner_of q ∷ [] else []) sh,
          )
  request_with-IsKept none params q c sh t = record {
    tracked = IsOrdered-later 0 c.next_id c.pending t;
    same = omega (arith, in_queue-append k c.queue q, in_callbacks-append k sh.raised []);
  }
  request_with-IsKept (some frames) unencodable q c sh t = record {
    tracked = IsOrdered-later 0 c.next_id c.pending t;
    same = omega (arith, in_callbacks-append k sh.raised (owner_of q ∷ []));
  }
  request_with-IsKept (some frames) (encodable params) q c sh t = record {
    tracked = IsOrdered-await c.next_id c.pending (caller q.owner) t;
    same = omega (
      arith,
      in_pending-await c.next_id c.pending (caller q.owner) t k,
      in_callbacks-append k sh.raised [],
    );
  }

  pub do_request-IsKept :
      (q : Queued) (c : Client) (sh : Shell)
      → IsTracked (some c, sh)
      → IsKept k
          (in_callback k (caller q.owner))
          (some c, sh)
          (some (do_request q c), lose (dropped_by q c) sh)
  unfolding do_request
  do_request-IsKept q c sh t = request_with-IsKept c.proc q.params q c sh t

  request_each-IsKept :
      (qs : List Queued) (c : Client) (sh : Shell)
      → IsTracked (some c, sh)
      → IsKept k
          (in_queue k qs)
          (some c, sh)
          (some (request_each qs c), lose (dropped_each qs c) sh)
  unfolding request_each dropped_each
  request_each-IsKept [] c sh t = record {
    tracked = t;
    same = omega (arith, in_callbacks-append k sh.raised []);
  }
  request_each-IsKept (q ∷ qs) c sh t =
      let first = do_request-IsKept q c sh t in
      let next = do_request q c in
      elim (Bool-cases (raises q c)) [
        | inl stops ↦
            let one : IsKept k (in_callback k (caller q.owner)) (some c, sh)
                (some next, lose (owner_of q ∷ []) sh) =
              rw stops at first in
            simp stops (record {
              tracked = one.tracked;
              same = omega (
                arith,
                one.same,
                in_callbacks-append k sh.raised (owner_of q ∷ []),
                in_callbacks-append k sh.raised (map owner_of (q ∷ qs)),
                in_callbacks-owners k qs,
              );
            })
        | inr goes ↦
            let one : IsKept k (in_callback k (caller q.owner)) (some c, sh)
                (some next, lose [] sh) =
              rw goes at first in
            let later = request_each-IsKept qs next sh one.tracked in
            simp goes (record {
              tracked = later.tracked;
              same = omega (arith, one.same, later.same, in_callbacks-append k sh.raised []);
            })
      ]

  pub flush_queue-IsKept :
      (c : Client) (sh : Shell)
      → IsTracked (some c, sh)
      → IsKept k 0 (some c, sh) (some (flush_queue c), lose (flush_dropped c) sh)
  unfolding flush_queue flush_dropped
  flush_queue-IsKept c sh t =
      let sent = request_each-IsKept c.queue (record c { queue = [] }) sh t in
      record { tracked = sent.tracked; same = omega (arith, sent.same) }

  pub handshake-IsKept :
      (c : Client) (sh : Shell)
      → IsTracked (some c, sh)
      → IsKept k 0 (some c, sh) (some (handshake c), sh)
  unfolding handshake
  handshake-IsKept c sh t = record {
    tracked = IsOrdered-await c.next_id c.pending (greeter c.self) t;
    same = omega (arith, in_pending-await c.next_id c.pending (greeter c.self) t k);
  }

  -- Whatever the start of the process gives.
  pub start-IsKept :
      (spawn : Spawn) (c : Client) (sh : Shell)
      → IsTracked (some c, sh)
      → IsKept k 0 (some c, sh) (some (start spawn c).0, sh)
  unfolding start
  start-IsKept no_binary c sh t = record { tracked = t; same = omega arith }
  start-IsKept (spawn_error why) c sh t = record { tracked = t; same = omega arith }
  start-IsKept spawned c sh t =
      let greets =
        handshake-IsKept (record (fresh_streams c) { proc = some []; running = true }) sh t in
      record { tracked = greets.tracked; same = greets.same }

  pub schedule_restart-IsKept :
      (json : Json) (c : Client) (sh : Shell)
      → IsTracked (some c, sh)
      → IsKept k 0 (some c, sh) (here (schedule_restart json c sh))
  unfolding schedule_restart
  schedule_restart-IsKept json c sh t =
      let tried = record c { attempts = suc c.attempts } in
      let why = mkerr "internal" (unavailable json sh.last_exit) in
      let again = record sh { delayed = sh.delayed ++ (c.self, backoff (suc c.attempts)) ∷ [] } in
      let ends = fail_all-IsKept why tried sh in
      if_both (λ r. IsKept k 0 (some c, sh) (here r)) (ltb max_attempts (suc c.attempts))
        (fail_all why tried sh) (tried, again) (record { tracked = ends.tracked; same = ends.same })
        (record { tracked = t; same = omega arith })
