-- ===== src/Protocol.antt =====
-- internal/protocol: the wire contract of frame.go, codes.go and version.go.
use differ_nvim.Common.{◌≡◌, String, true, List, [], ◌∷◌, Option, one_of}
use differ_nvim.Common.Int.{ℤ, pos}

-- The closed set of error codes.
abbrev pub code_auth : String
code_auth = "auth"

abbrev pub code_not_found : String
code_not_found = "not_found"

abbrev pub code_rate_limited : String
code_rate_limited = "rate_limited"

abbrev pub code_network : String
code_network = "network"

abbrev pub code_gh_missing : String
code_gh_missing = "gh_missing"

abbrev pub code_internal : String
code_internal = "internal"

abbrev pub code_bad_request : String
code_bad_request = "bad_request"

abbrev pub code_conflict : String
code_conflict = "conflict"

abbrev pub closed_set : List String
closed_set =
    code_auth ∷ code_not_found ∷ code_rate_limited ∷ code_network ∷ code_gh_missing ∷ code_internal
    ∷ code_bad_request ∷ code_conflict ∷ []

-- A code of the closed set.
pub record IsClosed (code : String) : Type 0 where
  pub listed : one_of code closed_set ≡ true

-- `Error`; `retry_after` is in seconds.
pub record Error : Type 0 where
  pub code : String
  pub message : String
  pub retry_after : ℤ

abbrev pub new_error : String → String → Error
new_error code message = record { code = code; message = message; retry_after = pos 0 }

abbrev pub rate_limited : String → ℤ → Error
rate_limited message retry_after = record {
  code = code_rate_limited;
  message = message;
  retry_after = retry_after;
}

-- A Go `error`: a `*protocol.Error`, or any other error with its text.
pub data GoError : Type 0 where
  coded : Error → GoError
  plain : String → GoError

-- A Go pair `(value, error)` of which the code uses one half.
pub data Result {ℓ} (A : Type ℓ) : Type ℓ where
  ok : A → Result A
  err : GoError → Result A

-- `RPCError`, the failure payload.
pub record RpcError : Type 0 where
  pub code : String
  pub message : String
  pub retry_after : ℤ

-- `Request`; the parameters are the raw JSON text.
pub record Request : Type 0 where
  pub id : ℤ
  pub method : String
  pub params : String

-- `Response`, over the type of the results.
pub record Response {ℓ} (R : Type ℓ) : Type ℓ where
  pub id : ℤ
  pub result : Option R
  pub error : Option RpcError

abbrev pub version : ℤ
version = pos 1
