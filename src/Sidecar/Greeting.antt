-- ===== src/Sidecar/Greeting.antt =====
-- cmd/differ-sidecar and internal/handlers/hello.go: what the handshake tells of the token.
use differ_nvim.Common.{◌≡◌, refl, ◌↔◌, String, true, false, some, Bool-cases, inl, inr}
use differ_nvim.Common.Int.{ℤ, ltb_ℤ}
use differ_nvim.Protocol
use differ_nvim.Protocol.{Result, ok, err, coded, version, code_bad_request}
use differ_nvim.Github.Auth.{Host, resolve_token, error_of}
use differ_nvim.Github.Auth.Tokens.{token_status-ok_iff}
use differ_nvim.Github.Client.{Session, pure, fail_with, throw}
use differ_nvim.Handlers.Reads.{HelloParams, HelloResult, hello, greeting}

-- The two ends of a handshake: a protocol that is not newer is answered with the sidecar's version and
-- the state of the token, and a newer one is refused.
pub data Greeted (host : Host) (p : HelloParams) : Result HelloResult → Type 0 where
  welcome :
      (r : HelloResult)
      → ltb_ℤ version p.protocol ≡ false
      → r.protocol ≡ version
      → (r.auth ≡ "ok") ↔ ((token : String) × (resolve_token host ≡ ok token))
      → Greeted host p (ok r)
  mismatch :
      (e : Protocol.Error)
      → ltb_ℤ version p.protocol ≡ true
      → e.code ≡ code_bad_request
      → Greeted host p (err (coded e))

-- `hello` leaves the shared state as it is, with a token or without one. It welcomes a client exactly if
-- the client's protocol is not newer than the sidecar's, and then reports `ok` exactly if a token was
-- found; otherwise it refuses with `bad_request`.
pub hello-Greeted :
    (host : Host) (itoa : ℤ → String) (binary : String) (p : HelloParams) (s : Session)
    → Greeted host p (hello itoa binary (some (error_of (resolve_token host))) p s).0
      × ((hello itoa binary (some (error_of (resolve_token host))) p s).1 ≡ s)
unfolding hello greeting pure fail_with throw
hello-Greeted host itoa binary p s = elim (Bool-cases (ltb_ℤ version p.protocol)) [
  | inl newer ↦ rw newer (mismatch _ newer refl, refl)
  | inr fits ↦ rw fits (welcome _ fits refl (token_status-ok_iff host), refl)
]
