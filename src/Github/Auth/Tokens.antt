-- ===== src/Github/Auth/Tokens.antt =====
-- internal/github/auth.go: what `ResolveToken` comes to, and what `TokenStatus` says of it.
use differ_nvim.Common.{
  ◌≡◌, refl, ◌↔◌, String, false, Option, none, some, List, [], ◌∷◌, ◌==◌, Bool-cases, inl, inr,
  arith, ◌⊎◌, text_eq,
}
use differ_nvim.Common.Spaces.{trim_space}
use differ_nvim.Protocol
use differ_nvim.Protocol.{GoError, coded, Result, ok, err, IsClosed, code_auth, code_gh_missing}
use differ_nvim.Github.Auth.{
  GhRun, printed, timed_out, exited, Host, token_of_run, token_of_gh, first_token, resolve_token,
  error_of, token_status,
}
use differ_nvim.Github.Client.Closed.{closed, ClosedGo, no_go_error, a_go_error}

-- A token that is not empty, or an error with one of the two codes for a missing token.
pub data Resolved : Result String → Type 0 where
  found : (token : String) → (token == "") ≡ false → Resolved (ok token)
  refused :
      (e : Protocol.Error)
      → (e.code ≡ code_auth) ⊎ (e.code ≡ code_gh_missing)
      → Resolved (err (coded e))

token_of_run-Resolved : (run : GhRun) → Resolved (token_of_run run)
unfolding token_of_run
token_of_run-Resolved timed_out = refused _ (inl refl)
token_of_run-Resolved exited = refused _ (inl refl)
token_of_run-Resolved (printed out) = elim (Bool-cases (trim_space out == "")) [
  | inl nothing ↦ rw nothing (refused _ (inl refl))
  | inr something ↦ rw something (found _ something)
]

token_of_gh-Resolved : (gh : Option GhRun) → Resolved (token_of_gh gh)
unfolding token_of_gh
token_of_gh-Resolved none = refused _ (inr refl)
token_of_gh-Resolved (some run) = token_of_run-Resolved run

first_token-Resolved : (h : Host) (names : List String) → Resolved (first_token h names)
unfolding first_token
first_token-Resolved h [] = token_of_gh-Resolved h.gh
first_token-Resolved h (name ∷ names) = elim (Bool-cases (trim_space (h.getenv name) == "")) [
  | inl nothing ↦ rw nothing (first_token-Resolved h names)
  | inr something ↦ rw something (found _ something)
]

-- `ResolveToken` gives a token that is not empty, or an error whose code is `auth` or `gh_missing`,
-- whatever the environment holds and whatever `gh` does.
pub resolve_token-Resolved : (h : Host) → Resolved (resolve_token h)
unfolding resolve_token
resolve_token-Resolved h = first_token-Resolved h ("GH_TOKEN" ∷ "GITHUB_TOKEN" ∷ [])

closed_of_either : (code : String) → (code ≡ code_auth) ⊎ (code ≡ code_gh_missing) → IsClosed code
closed_of_either code (inl e) = rw e (record { listed = refl })
closed_of_either code (inr e) = rw e (record { listed = refl })

pub Resolved-ClosedGo : {r : Result String} → Resolved r → ClosedGo (error_of r)
Resolved-ClosedGo (found token _) = no_go_error
Resolved-ClosedGo (refused e c) = a_go_error _ (closed e (closed_of_either e.code c))

status_of :
    (r : Result String)
    → Resolved r
    → ((token_status (error_of r)).0 ≡ "ok") ↔ ((token : String) × (r ≡ ok token))
unfolding token_status
status_of _ (found token _) = (λ h. (token, refl), λ h. refl)
status_of _ (refused e (inl c)) =
    (λ h. absurd (ground (arith, c, text_eq "auth" "ok")), λ (t, h). cc h)
status_of _ (refused e (inr c)) =
    (λ h. absurd (ground (arith, c, text_eq "gh_missing" "ok")), λ (t, h). cc h)

-- `TokenStatus` reports "ok" exactly if `ResolveToken` found a token.
pub token_status-ok_iff :
    (h : Host)
    → ((token_status (error_of (resolve_token h))).0 ≡ "ok")
      ↔ ((token : String) × (resolve_token h ≡ ok token))
token_status-ok_iff h = status_of (resolve_token h) (resolve_token-Resolved h)
