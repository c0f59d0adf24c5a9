-- ===== src/Sidecar/Whole.antt =====
-- cmd/differ-sidecar: the parts put together.
use differ_nvim.Common.{
  ◌≤◌, ◌*◌, ℕ, ◌≡◌, ◌≢◌, ◌∙◌, refl, subst, String, Option, none, some, List, [], ◌∷◌, ◌++◌, ◌==◌,
  All, All-append, Bool-cases, inl, inr,
}
use differ_nvim.Protocol.{GoError, Result, ok, err, Request}
use differ_nvim.Github.Auth.{Host, resolve_token, error_of}
use differ_nvim.Github.Auth.Tokens.{resolve_token-Resolved, Resolved-ClosedGo}
use differ_nvim.Github.Cache.Within.{IsWithin, new_cache-IsWithin, clear_all-IsWithin}
use differ_nvim.Github.Cache.Valid.{IsValid}
use differ_nvim.Github.Client.{Session, M, Decoded, clear_cache}
use differ_nvim.Github.Client.Closed.{
  Orderly, ClosedResult, closed, refused, closed_bind, closed_pure,
}
use differ_nvim.Handlers.Closed.{AllClosed, methods-AllClosed, decode-closed}
use differ_nvim.Handlers.Methods.{
  Answer, Deps, decoded_then, method, find_method, read_methods, write_methods, new_registry,
}
use differ_nvim.Server.Run.{returned, Handler}
use differ_nvim.Server.Run.Wire.{IsTame}
use differ_nvim.Server.Session.{Engine, Reach}
use differ_nvim.Server.Session.Wire.{IsWire, Reach-AllWire}
use differ_nvim.Server.Session.Shared.{reach_keeps}
use differ_nvim.Handlers.Mutations
use differ_nvim.Sidecar.{fresh_client, new_client, sidecar, main_engine}

-- A handler without coded errors outside of the closed set, which sends nothing where `o`, the error of
-- the token's resolution, is one, and keeps the cache within its limit.
abbrev IsSafe : Option GoError → Handler Session Answer → Type 0
IsSafe o h =
    (params : String) (s : Session)
    → IsTame (h params s).0
      × (o ≢ none → (h params s).1.sent ≡ s.sent)
      × (IsWithin s.cache → IsWithin (h params s).1.cache)

abbrev IsSafeEntry : Option GoError → String × Handler Session Answer → Type 0
IsSafeEntry o (name, h) = IsSafe o h

find_method-IsSafe :
    (o : Option GoError) (l : List (String × Handler Session Answer))
    → All (IsSafeEntry o) l
    → (name : String) (h : Handler Session Answer) → find_method l name ≡ some h
    → IsSafe o h
find_method-IsSafe o [] a name h known = cc known
find_method-IsSafe o ((n, g) ∷ rest) (t, a) name h known = elim (Bool-cases (name == n)) [
  | inl same ↦ let eq : g ≡ h = cc (rw same at known) in subst (IsSafe o) eq t
  | inr other ↦ find_method-IsSafe o rest a name h (rw other at known)
]

IsTame-result : {A : Type 0} (r : Result A) → ClosedResult r → IsTame (returned r)
IsTame-result (ok a) h = tt
IsTame-result (err e) (refused _ (closed x c)) = c

method-IsSafe :
    {P A : Type 0} {o : Option GoError} (wrap : A → Answer) (unmarshal : String → Decoded P)
    (zero_value : P) (work : P → M A)
    → ((p : P) → Orderly o (work p))
    → IsSafe o (method wrap unmarshal zero_value work)
unfolding method decoded_then
method-IsSafe wrap unmarshal zero_value work h params s =
    let c =
      closed_bind _ _ (decode-closed unmarshal zero_value params)
        (λ p. closed_bind _ _ (h p) (λ a. closed_pure (wrap a))) in
    (IsTame-result _ (c.at s), c.silent s, c.within s)

module _ (d : Deps) (a : AllClosed d.gh) where
  read_methods-AreSafe : All (IsSafeEntry d.gh.token_err) (read_methods d)
  unfolding read_methods
  read_methods-AreSafe = (
    method-IsSafe _ _ _ _ (a.on_hello _ _ _),
    (
      method-IsSafe _ _ _ _ a.on_list_prs,
      (
        method-IsSafe _ _ _ _ a.on_get_pr,
        (
          method-IsSafe _ _ _ _ (λ p. record {
            at = λ s. (a.on_file_versions (d.base_first s) p).at s;
            silent = λ s. (a.on_file_versions (d.base_first s) p).silent s;
            within = λ s. (a.on_file_versions (d.base_first s) p).within s;
          }),
          (
            method-IsSafe _ _ _ _ a.on_threads,
            (
              method-IsSafe _ _ _ _ a.on_timeline,
              (method-IsSafe _ _ _ _ a.on_pending_review, (method-IsSafe _ _ _ _ a.on_checks, tt)),
            ),
          ),
        ),
      ),
    ),
  )

  write_methods-AreSafe : All (IsSafeEntry d.gh.token_err) (write_methods d)
  unfolding write_methods Mutations.cache_clear clear_cache
  write_methods-AreSafe = (
    method-IsSafe _ _ _ _ a.on_start_review,
    (
      method-IsSafe _ _ _ _ a.on_submit_review,
      (
        method-IsSafe _ _ _ _ a.on_discard_review,
        (
          method-IsSafe _ _ _ _ a.on_post_comment,
          (
            method-IsSafe _ _ _ _ a.on_issue_comment,
            (
              method-IsSafe _ _ _ _ a.on_delete_comment,
              (
                method-IsSafe _ _ _ _ a.on_resolve_thread,
                (
                  method-IsSafe _ _ _ _ a.on_file_viewed,
                  (
                    method-IsSafe _ _ _ _ a.on_merge,
                    (
                      method-IsSafe _ _ _ _ a.on_pr_state,
                      (λ params s. (tt, λ no. refl, λ w. clear_all-IsWithin s.cache w), tt),
                    ),
                  ),
                ),
              ),
            ),
          ),
        ),
      ),
    ),
  )

  new_registry-IsSafe :
      (name : String) (h : Handler Session Answer)
      → new_registry d name ≡ some h
      → IsSafe d.gh.token_err h
  unfolding new_registry
  new_registry-IsSafe = find_method-IsSafe d.gh.token_err (read_methods d ++ write_methods d) (
      All-append (IsSafeEntry d.gh.token_err) (read_methods d) (write_methods d)
        read_methods-AreSafe write_methods-AreSafe)

sidecar-IsSafe :
    (host : Host) (d : Deps) (name : String) (h : Handler Session Answer)
    → sidecar host d name ≡ some h
    → IsSafe (error_of (resolve_token host)) h
unfolding sidecar new_client
sidecar-IsSafe host d =
    new_registry-IsSafe (record d { gh = new_client host d.gh })
      (methods-AllClosed (new_client host d.gh) (Resolved-ClosedGo (resolve_token-Resolved host)))

-- Whatever standard input holds, whatever the environment, `gh` and GitHub answer, and in whatever
-- order the steps come: every answer of the sidecar, on the channel or written out, has a result
-- and no error, or no result and an error with a code of the closed set.
pub sidecar_answers :
    (host : Host) (d : Deps) (decode_request : List ℕ → Option Request) (input : List ℕ)
    {e : Engine Session Answer}
    → Reach (sidecar host d) decode_request (main_engine input) e
    → All IsWire e.outbound × All IsWire e.written
unfolding main_engine
sidecar_answers host d decode_request input r =
    Reach-AllWire (sidecar host d)
      (λ name h known params s. (sidecar-IsSafe host d name h known params s).0) decode_request _
      input r

-- Where no token could be resolved, the sidecar makes no call to GitHub: whatever it is asked, and in
-- whatever order the steps come.
pub sidecar_without_token :
    (host : Host) (d : Deps) (decode_request : List ℕ → Option Request) (input : List ℕ)
    (why : GoError) {e : Engine Session Answer}
    → resolve_token host ≡ err why
    → Reach (sidecar host d) decode_request (main_engine input) e
    → e.shared.sent ≡ []
unfolding main_engine fresh_client
sidecar_without_token host d decode_request input why failed r =
    reach_keeps (λ (s : Session). s.sent ≡ []) (sidecar host d)
      (λ name h known params s nothing.
        (sidecar-IsSafe host d name h known params s).1 (λ none_left. cc (failed, none_left))
        ∙ nothing)
      decode_request _ input refl r

-- In every state of the sidecar the blob cache is valid: its index leads to exactly its entries, and its
-- byte count is what they are charged; and it holds 64 MiB at most.
pub sidecar_cache :
    (host : Host) (d : Deps) (decode_request : List ℕ → Option Request) (input : List ℕ)
    {e : Engine Session Answer}
    → Reach (sidecar host d) decode_request (main_engine input) e
    → IsValid e.shared.cache × (e.shared.cache.bytes ≤ 64 * 1024 * 1024)
unfolding main_engine fresh_client
sidecar_cache host d decode_request input r =
    let kept =
      reach_keeps (λ (s : Session). IsWithin s.cache) (sidecar host d)
        (λ name h known params s w. (sidecar-IsSafe host d name h known params s).2 w)
        decode_request _ input new_cache-IsWithin r in
    (kept.0, kept.1)
