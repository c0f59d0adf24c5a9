-- ===== src/Plugin/Callers.antt =====
-- lua/differ/sidecar/init.lua: whose callbacks the client holds, and how often.
use differ_nvim.Common.{
  ℕ, suc, ◌+◌, ◌<◌, ◌≤◌, ◌≡◌, refl, Option, none, some, List, [], ◌∷◌, ◌++◌, map, arith, eqb,
  if◌then◌else◌, Bool-cases, inl, inr,
}
use differ_nvim.Plugin.State.{
  Callback, caller, greeter, Failure, Outcome, Queued, Client, Job, call, timed_out, retry,
}
use differ_nvim.Plugin.Client.{pending_at, forget, failing, failing_queued, owner_of}
use differ_nvim.Plugin.Events.{
  Plugin, Event, asks, stops, turns, prints, logs, exits, expires, is_due,
}

-- How often a caller's callback is in a list.
abbrev pub in_callback : ℕ → Callback → ℕ
in_callback k (caller j) = if eqb k j then 1 else 0
in_callback k (greeter g) = 0

abbrev pub in_pending : ℕ → List (ℕ × Callback) → ℕ
in_pending k [] = 0
in_pending k ((id, cb) ∷ rest) = in_callback k cb + in_pending k rest

abbrev pub in_queue : ℕ → List Queued → ℕ
in_queue k [] = 0
in_queue k (q ∷ rest) = in_callback k (caller q.owner) + in_queue k rest

abbrev pub in_job : ℕ → Job → ℕ
in_job k (call cb o) = in_callback k cb
in_job k (timed_out g id) = 0
in_job k (retry g) = 0

abbrev pub in_jobs : ℕ → List Job → ℕ
in_jobs k [] = 0
in_jobs k (j ∷ rest) = in_job k j + in_jobs k rest

abbrev pub in_called : ℕ → List (ℕ × Outcome) → ℕ
in_called k [] = 0
in_called k ((j, o) ∷ rest) = in_callback k (caller j) + in_called k rest

-- The callbacks that an error of Lua dropped.
abbrev pub in_callbacks : ℕ → List Callback → ℕ
in_callbacks k [] = 0
in_callbacks k (cb ∷ rest) = in_callback k cb + in_callbacks k rest

-- How often a caller is waited for: by the client, and by the main loop.
abbrev pub in_client : ℕ → Option Client → ℕ
in_client k none = 0
in_client k (some c) = in_pending k c.pending + in_queue k c.queue

abbrev pub waited : ℕ → Plugin → ℕ
waited k (client, sh) = in_client k client + in_jobs k sh.jobs

abbrev pub called_times : ℕ → Plugin → ℕ
called_times k (client, sh) = in_called k sh.called

abbrev pub dropped_times : ℕ → Plugin → ℕ
dropped_times k (client, sh) = in_callbacks k sh.raised

-- How often the caller asked.
abbrev pub asked : ℕ → Event → ℕ
asked k (asks spawn q) = in_callback k (caller q.owner)
asked k stops = 0
asked k (turns spawn) = 0
asked k (prints g chunk) = 0
asked k (logs g chunk) = 0
asked k (exits g code) = 0
asked k (expires g id) = 0
asked k (is_due g) = 0

abbrev pub asked_times : ℕ → List Event → ℕ
asked_times k [] = 0
asked_times k (e ∷ es) = asked k e + asked_times k es

pub in_pending-append :
    (k : ℕ) (p : List (ℕ × Callback)) (id : ℕ) (cb : Callback)
    → in_pending k (p ++ (id, cb) ∷ []) ≡ in_pending k p + in_callback k cb
in_pending-append k [] id cb = omega arith
in_pending-append k ((j, b) ∷ p) id cb = omega (arith, in_pending-append k p id cb)

pub in_queue-append :
    (k : ℕ) (qs : List Queued) (q : Queued)
    → in_queue k (qs ++ q ∷ []) ≡ in_queue k qs + in_callback k (caller q.owner)
in_queue-append k [] q = omega arith
in_queue-append k (r ∷ qs) q = omega (arith, in_queue-append k qs q)

pub in_called-append :
    (k : ℕ) (cs : List (ℕ × Outcome)) (j : ℕ) (o : Outcome)
    → in_called k (cs ++ (j, o) ∷ []) ≡ in_called k cs + in_callback k (caller j)
in_called-append k [] j o = omega arith
in_called-append k ((i, p) ∷ cs) j o = omega (arith, in_called-append k cs j o)

pub in_jobs-append : (k : ℕ) (js ks : List Job) → in_jobs k (js ++ ks) ≡ in_jobs k js + in_jobs k ks
in_jobs-append k [] ks = omega arith
in_jobs-append k (j ∷ js) ks = omega (arith, in_jobs-append k js ks)

pub in_callbacks-append :
    (k : ℕ) (xs ys : List Callback)
    → in_callbacks k (xs ++ ys) ≡ in_callbacks k xs + in_callbacks k ys
in_callbacks-append k [] ys = omega arith
in_callbacks-append k (x ∷ xs) ys = omega (arith, in_callbacks-append k xs ys)

pub in_callbacks-owners :
    (k : ℕ) (qs : List Queued) → in_callbacks k (map owner_of qs) ≡ in_queue k qs
in_callbacks-owners k [] = refl
in_callbacks-owners k (q ∷ qs) = omega (arith, in_callbacks-owners k qs)

pub in_jobs-failing :
    (k : ℕ) (e : Failure) (p : List (ℕ × Callback)) → in_jobs k (map (failing e) p) ≡ in_pending k p
in_jobs-failing k e [] = refl
in_jobs-failing k e ((id, cb) ∷ p) = omega (arith, in_jobs-failing k e p)

pub in_jobs-failing_queued :
    (k : ℕ) (e : Failure) (qs : List Queued) → in_jobs k (map (failing_queued e) qs) ≡ in_queue k qs
in_jobs-failing_queued k e [] = refl
in_jobs-failing_queued k e (q ∷ qs) = omega (arith, in_jobs-failing_queued k e qs)

-- The ids of the callbacks that wait rise, from a bound on and below the next one.
abbrev pub IsOrdered : ℕ → ℕ → List (ℕ × Callback) → Type 0
IsOrdered low next [] = low ≤ next
IsOrdered low next ((id, cb) ∷ rest) = (low ≤ id) × IsOrdered (suc id) next rest

pub IsOrdered-bounds : (low next : ℕ) (p : List (ℕ × Callback)) → IsOrdered low next p → low ≤ next
IsOrdered-bounds low next [] h = h
IsOrdered-bounds low next ((id, cb) ∷ p) (l, h) =
    let b = IsOrdered-bounds (suc id) next p h in omega arith

pub IsOrdered-lower :
    (low low' next : ℕ) (p : List (ℕ × Callback))
    → low ≤ low'
    → IsOrdered low' next p
    → IsOrdered low next p
IsOrdered-lower low low' next [] l h = omega arith
IsOrdered-lower low low' next ((id, cb) ∷ p) l (m, h) = (omega arith, h)

pub IsOrdered-later :
    (low next : ℕ) (p : List (ℕ × Callback)) → IsOrdered low next p → IsOrdered low (suc next) p
IsOrdered-later low next [] h = omega arith
IsOrdered-later low next ((id, cb) ∷ p) (l, h) = (l, IsOrdered-later (suc id) next p h)

pub IsOrdered-snoc :
    (low next : ℕ) (p : List (ℕ × Callback)) (cb : Callback)
    → IsOrdered low next p
    → IsOrdered low (suc next) (p ++ (next, cb) ∷ [])
IsOrdered-snoc low next [] cb h = (h, omega arith)
IsOrdered-snoc low next ((id, b) ∷ p) cb (l, h) = (l, IsOrdered-snoc (suc id) next p cb h)

pub IsOrdered-forget :
    (low next i : ℕ) (p : List (ℕ × Callback))
    → IsOrdered low next p
    → IsOrdered low next (forget i p)
unfolding forget
IsOrdered-forget low next i [] h = h
IsOrdered-forget low next i ((id, cb) ∷ p) (l, h) =
    let rest = IsOrdered-forget (suc id) next i p h in
    elim (Bool-cases (eqb i id)) [
      | inl same ↦ rw same (IsOrdered-lower low (suc id) next (forget i p) (omega arith) rest)
      | inr other ↦ rw other (l, rest)
    ]

pub forget-fresh :
    (low next i : ℕ) (p : List (ℕ × Callback)) → IsOrdered low next p → next ≤ i → forget i p ≡ p
unfolding forget
forget-fresh low next i [] h n = refl
forget-fresh low next i ((id, cb) ∷ p) (l, h) n =
    let b = IsOrdered-bounds (suc id) next p h in ground (arith, forget-fresh (suc id) next i p h n)

pub forget-older :
    (low next i : ℕ) (p : List (ℕ × Callback)) → IsOrdered low next p → i < low → forget i p ≡ p
unfolding forget
forget-older low next i [] h n = refl
forget-older low next i ((id, cb) ∷ p) (l, h) n =
    ground (arith, forget-older (suc id) next i p h (omega arith))

-- The callback that waits under an id is held once, and forgetting the id forgets it.
pub in_pending-forget :
    (k low next i : ℕ) (p : List (ℕ × Callback)) (cb : Callback)
    → IsOrdered low next p
    → pending_at i p ≡ some cb
    → in_pending k p ≡ in_callback k cb + in_pending k (forget i p)
unfolding pending_at forget
in_pending-forget k low next i [] cb h at = cc
in_pending-forget k low next i ((id, b) ∷ p) cb (l, h) at = elim (Bool-cases (eqb i id)) [
  | inl same ↦
      let this : b ≡ cb = cc (rw same at at) in
      rw (same, forget-older (suc id) next i p h (ground arith), this) refl
  | inr other ↦
      let later = rw other at at in
      rw other (omega (arith, in_pending-forget k (suc id) next i p cb h later))
]

-- A callback that begins to wait under the next id.
module _ (next : ℕ) (p : List (ℕ × Callback)) (cb : Callback) (h : IsOrdered 0 next p) where
  pub IsOrdered-await : IsOrdered 0 (suc next) (forget next p ++ (next, cb) ∷ [])
  IsOrdered-await = rw (forget-fresh 0 next next p h (omega arith)) (IsOrdered-snoc 0 next p cb h)

  pub in_pending-await :
      (k : ℕ) → in_pending k (forget next p ++ (next, cb) ∷ []) ≡ in_pending k p + in_callback k cb
  in_pending-await k =
      rw (forget-fresh 0 next next p h (omega arith)) (in_pending-append k p next cb)
