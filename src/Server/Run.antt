-- ===== src/Server/Run.antt =====
-- internal/server/dispatch.go: `run`, `toRPCError` and `outcome`. A handler takes the raw parameters
-- and the state that all handlers share, and returns or panics.
pub mod Wire
use differ_nvim.Common.{String, Bool, true, false, Option, none, some}
use differ_nvim.Common.Int.{ℤ, pos}
use differ_nvim.Protocol.{
  code_bad_request, code_internal, GoError, coded, plain, Result, ok, err, RpcError, Request,
  Response,
}
use Prim.Native.String

pub data Outcome (R : Type 0) : Type 0 where
  returned : Result R → Outcome R
  panicked : Outcome R

abbrev pub Handler : Type 0 → Type 0 → Type 0
Handler S R = String → S → Outcome R × S

-- `handlers.Registry`
abbrev pub Registry : Type 0 → Type 0 → Type 0
Registry S R = String → Option (Handler S R)

abbrev pub rpc_error : String → String → RpcError
rpc_error code message = record { code = code; message = message; retry_after = pos 0 }

unfoldable pub to_rpc_error : GoError → RpcError
to_rpc_error (coded e) = record { code = e.code; message = e.message; retry_after = e.retry_after }
to_rpc_error (plain _) = rpc_error code_internal "internal error"

module _ {R : Type 0} where
  unfoldable pub succeed : ℤ → R → Response R
  succeed id r = record { id = id; result = some r; error = none }

  unfoldable pub fail : ℤ → RpcError → Response R
  fail id e = record { id = id; result = none; error = some e }

  -- `badRequest`
  unfoldable pub bad_request : ℤ → String → Response R
  unfolding fail
  bad_request id message = fail id (rpc_error code_bad_request message)

  abbrev pub is_ok : Response R → Bool
  is_ok r = elim r.error [ none ↦ true | some _ ↦ false ]

  -- The word of the debug trace for how a request ended.
  unfoldable pub outcome : Response R → String
  outcome r = elim r.error [ none ↦ "ok" | some e ↦ e.code ]

  -- The end of `run`: what a handler's return or panic becomes on the wire.
  unfoldable pub settle : ℤ → Outcome R → Response R
  unfolding succeed fail to_rpc_error
  settle id (returned (ok r)) = succeed id r
  settle id (returned (err e)) = fail id (to_rpc_error e)
  settle id panicked = fail id (rpc_error code_internal "internal error")

  unfoldable pub unknown_method : Request → Response R
  unfolding bad_request
  unknown_method req = bad_request req.id (String.◌++◌ "unknown method: " req.method)

module _ {S R : Type 0} where
  abbrev settled : ℤ → Outcome R × S → Response R × S
  settled id (o, s) = (settle id o, s)

  unfoldable pub run : Registry S R → Request → S → Response R × S
  unfolding settle unknown_method
  run reg req s = elim (reg req.method) [
    | none ↦ (unknown_method req, s)
    | some h ↦ settled req.id (h req.params s)
  ]
