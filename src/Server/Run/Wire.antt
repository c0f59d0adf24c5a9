-- ===== src/Server/Run/Wire.antt =====
-- internal/server/dispatch.go: the answer of `run`, whatever the handler does.
use differ_nvim.Common.{◌≡◌, refl, none, some, ◌⊎◌, inl, inr, Option-cases}
use differ_nvim.Common.Int.{ℤ}
use differ_nvim.Protocol.{coded, plain, ok, err, RpcError, Request, Response, IsClosed}
use differ_nvim.Server.Run.{
  Outcome, returned, panicked, Handler, Registry, settle, run, unknown_method, bad_request, succeed,
  fail, to_rpc_error,
}

-- An error of the closed set, an error of another kind, a panic, or no error.
abbrev pub IsTame : {R : Type 0} → Outcome R → Type 0
IsTame (returned (ok r)) = Unit {0}
IsTame (returned (err (coded e))) = IsClosed e.code
IsTame (returned (err (plain m))) = Unit {0}
IsTame panicked = Unit {0}

-- An answer to the request with this id: it has a result and no error, or no result and an error of
-- the closed set.
pub record Answers {R : Type 0} (id : ℤ) (r : Response R) : Type 0 where
  pub same_id : r.id ≡ id
  pub content :
      ((x : R) × (r.result ≡ some x) × (r.error ≡ none))
      ⊎ ((e : RpcError) × (r.result ≡ none) × (r.error ≡ some e) × IsClosed e.code)

settle-Answers : {R : Type 0} (id : ℤ) (o : Outcome R) → IsTame o → Answers id (settle id o)
unfolding settle succeed fail to_rpc_error
settle-Answers id (returned (ok r)) h = record { same_id = refl; content = inl (r, refl, refl) }
settle-Answers id (returned (err (coded e))) h = record {
  same_id = refl;
  content = inr (_, refl, refl, h);
}
settle-Answers id (returned (err (plain m))) h = record {
  same_id = refl;
  content = inr (_, refl, refl, record { listed = refl });
}
settle-Answers id panicked h = record {
  same_id = refl;
  content = inr (_, refl, refl, record { listed = refl });
}

-- If the handlers' own coded errors are of the closed set, `run` answers every request, with its id,
-- and with either a result or an error of the closed set: also for a method that is not known, an
-- error of another kind and a panic.
pub run-Answers :
    {S R : Type 0} (reg : Registry S R) (req : Request) (s : S)
    → ((h : Handler S R) → reg req.method ≡ some h → IsTame (h req.params s).0)
    → Answers req.id (run reg req s).0
unfolding run unknown_method bad_request fail
run-Answers reg req s tame = elim (Option-cases (reg req.method)) [
  | inl unknown ↦
      rw (unknown, run)
        (record { same_id = refl; content = inr (_, refl, refl, record { listed = refl }) })
  | inr (h, known) ↦ rw (known, run) (settle-Answers req.id (h req.params s).0 (tame h known))
]
