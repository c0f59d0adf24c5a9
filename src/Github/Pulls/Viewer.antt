-- ===== src/Github/Pulls/Viewer.antt =====
-- internal/github/prs.go: `viewerLogin` and its memo, and what `ListPRs` makes of the viewer.
use differ_nvim.Common.{
  ◌≡◌, refl, sym, ap, ◌∙◌, subst, String, false, List, [], ◌∷◌, ◌==◌, Bool-cases, inl, inr, text_eq,
  All,
}
use differ_nvim.Protocol.{ok, code_auth}
use differ_nvim.Github.Dtos.{PullDto}
use differ_nvim.Github.Results.{Pr}
use differ_nvim.Github.Files.{◌·◌}
use differ_nvim.Github.Client.{Env, Session, ◌>>=◌, ◌>>◌, pure, get_json}
use differ_nvim.Github.Pages.{get_paged}
use differ_nvim.Github.Reviews.{require}
use differ_nvim.Github.Client.Runs.{through, required}
use differ_nvim.Github.Pulls.{
  keeps, select, pulls_url, known_viewer, memoise_viewer, ask_viewer, viewer_login, list_by,
  list_prs,
}

select-mine :
    (viewer : String) (ps : List PullDto)
    → All (λ (p : Pr). p.author ≡ viewer) (select "mine" viewer ps)
unfolding select keeps
select-mine viewer [] = tt
select-mine viewer (p ∷ ps) = elim (Bool-cases (p.user == viewer)) [
  | inl same ↦ rw same ((text_eq p.user viewer).0 same, select-mine viewer ps)
  | inr other ↦ rw other (select-mine viewer ps)
]

module _ (env : Env) where
  -- The login that was found is in the memo.
  asked :
      (s t : Session) (v : String)
      → ask_viewer env s ≡ (ok v, t)
      → ((v == "") ≡ false) × (t.viewer ≡ v)
  unfolding ask_viewer memoise_viewer pure
  asked s t v h =
      let got =
        through (get_json env env.codec.user (env.rest_url · "/user")) s
          (λ login.
            require login code_auth "could not resolve the authenticated user"
            >> (memoise_viewer login >> pure login))
          v t h in
      let checked =
        through (require got.value code_auth "could not resolve the authenticated user") got.state
          (λ _. memoise_viewer got.value >> pure got.value) v t got.second in
      let found = (required _ _ _ _ _ _ checked.first).0 in
      let same : got.value ≡ v = cc (checked.second) in
      let state : record (checked.state) { viewer = got.value } ≡ t = cc (checked.second) in
      (
        subst (λ (l : String). (l == "") ≡ false) same found,
        sym (ap (λ (u : Session). u.viewer) state) ∙ same,
      )

  memoised :
      (s t : Session) (v : String)
      → viewer_login env s ≡ (ok v, t)
      → ((v == "") ≡ false) × (t.viewer ≡ v)
  unfolding viewer_login known_viewer pure
  memoised s t v h = elim (Bool-cases (s.viewer == "")) [
    | inl unknown ↦ asked s t v (rw unknown at h)
    | inr known ↦
        let e = rw known at h in
        let same : s.viewer ≡ v = cc e in
        let state : s ≡ t = cc e in
        (
          subst (λ (l : String). (l == "") ≡ false) same known,
          sym (ap (λ (u : Session). u.viewer) state) ∙ same,
        )
  ]

  -- Once `viewerLogin` has found the login, it gives the same one again and asks GitHub no more.
  pub viewer_login-again :
      (s t : Session) (v : String) → viewer_login env s ≡ (ok v, t) → viewer_login env t ≡ (ok v, t)
  unfolding viewer_login known_viewer pure
  viewer_login-again s t v h =
      let m = memoised s t v h in
      let there : (t.viewer == "") ≡ false = rw (m.1) (m.0) in rw (there, m.1) refl

  -- With the filter `mine`, `ListPRs` gives only pull requests of the viewer whose login is in the memo when
  -- it returns, and that login is not empty.
  pub list_prs-mine :
      (owner repo : String) (s t : Session) (prs : List Pr)
      → list_prs env owner repo "mine" s ≡ (ok prs, t)
      → ((t.viewer == "") ≡ false) × All (λ (p : Pr). p.author ≡ t.viewer) prs
  unfolding list_prs list_by pure
  list_prs-mine owner repo s t prs h =
      let pulls =
        through (get_paged env env.codec.pulls (pulls_url env owner repo)) s
          (λ pulls. viewer_login env >>= λ viewer. pure (select "mine" viewer pulls)) prs t h in
      let viewer =
        through (viewer_login env) pulls.state (λ viewer. pure (select "mine" viewer pulls.value))
          prs t pulls.second in
      let m = memoised _ _ _ viewer.first in
      let done : (ok (select "mine" viewer.value pulls.value), viewer.state) ≡ (ok prs, t) =
        viewer.second in
      let kept : select "mine" viewer.value pulls.value ≡ prs = cc done in
      let state : viewer.state ≡ t = cc done in
      let named : t.viewer ≡ viewer.value = sym (ap (λ (u : Session). u.viewer) state) ∙ m.1 in
      (
        rw named (m.0),
        rw named (
            subst (λ (l : List Pr). All (λ (p : Pr). p.author ≡ viewer.value) l) kept
              (select-mine viewer.value pulls.value)),
      )
