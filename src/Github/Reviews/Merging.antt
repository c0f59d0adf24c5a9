-- ===== src/Github/Reviews/Merging.antt =====
-- internal/github/merge.go, reviews.go and state.go: when a mutation is sent at all.
use differ_nvim.Common.{
  List, [], ◌∷◌, subst, sym, text_eq, ◌≡◌, refl, ◌⊎◌, inl, inr, String, Bool, true, false, none,
  ◌==◌, if◌then◌else◌, Bool-cases, if_both,
}
use differ_nvim.Common.Int.{ℤ}
use differ_nvim.Protocol.{Result, ok, err, code_not_found}
use differ_nvim.Github.Dtos.{MergeLookupGql, StartReviewLookupGql}
use differ_nvim.Github.Results.{StartReview}
use differ_nvim.Github.Documents.{start_review_lookup_query, merge_lookup_query, is_mutation}
use differ_nvim.Github.Client.{
  M, ◌>>=◌, ◌>>◌, bind_result, Session, Env, pure, fail_with, throw, graphql,
}
use differ_nvim.Github.Client.Reads.{
  ReadsOnly, ReadsAfter, same, reads_then, reads_bind, reads_pure, reads_fail, reads_graphql,
  reads_unless, reads_unless_none,
}
use differ_nvim.Github.Reviews.{
  create_review, first_or_empty, pr_vars, require, merge_blocked, perform_merge, merge_pr,
  pr_and_pending_review, start_review,
}

reads_require : (id code message : String) → ReadsOnly (require id code message)
reads_require id code message =
    if_both ReadsOnly (id == "") _ _ (reads_fail code message) (reads_pure tt)

lookup_reads : is_mutation merge_lookup_query ≡ false
unfolding is_mutation
lookup_reads = refl

draft_lookup_reads : is_mutation start_review_lookup_query ≡ false
unfolding is_mutation
draft_lookup_reads = refl

-- The pull request that `mergeLookupQuery` answers with is open and not blocked.
pub record Mergeable (env : Env) (owner repo : String) (n : ℤ) (s : Session) : Type 0 where
  pub found : MergeLookupGql
  pub later : Session
  pub answered :
      graphql env env.codec.merge_lookup merge_lookup_query (pr_vars owner repo n) s
      ≡ (ok found, later)
  pub open_yet : found.merged ≡ false
  pub unblocked : merge_blocked found.mergeable found.merge_state_status ≡ none

-- The reviews that an answer lists begin with no id.
pub data NoneListed : List String → Type 0 where
  empty : NoneListed []
  blank : (ids : List String) → NoneListed ("" ∷ ids)

NoneListed-first : (ids : List String) → (first_or_empty ids == "") ≡ true → NoneListed ids
NoneListed-first [] h = empty
NoneListed-first (id ∷ ids) h =
    subst (λ x. NoneListed (x ∷ ids)) (sym ((text_eq id "").0 h)) (blank ids)

-- GitHub's answer to `startReviewLookupQuery` knows the pull request, and lists no draft of the viewer.
pub record NoDraft (env : Env) (owner repo : String) (n : ℤ) (s : Session) : Type 0 where
  pub found : StartReviewLookupGql
  pub later : Session
  pub answered :
      graphql env env.codec.start_review_lookup start_review_lookup_query (pr_vars owner repo n) s
      ≡ (ok found, later)
  pub known : (found.id == "") ≡ false
  pub no_draft : NoneListed found.reviews

-- The rest of `StartReview`, behind `prAndPendingReview`.
abbrev started : Env → String × String → M StartReview
started env found =
    if found.1 == "" then create_review env found.0 else pure (record { review_id = found.1 })

bind_after :
    {A B C : Type 0} (r : Result A × Session) (f : A → M B) (g : B → M C)
    → bind_result (bind_result r f) g ≡ bind_result r (λ a. f a >>= g)
bind_after (ok a, s) f g = refl
bind_after (err e, s) f g = refl

module _ (env : Env) (owner repo : String) (n : ℤ) where
  -- From the answer to the lookup on.
  merge_found :
      (pr : MergeLookupGql) (method : String) (delete_branch : Bool) (subject body : String)
      (s t u : Session)
      → graphql env env.codec.merge_lookup merge_lookup_query (pr_vars owner repo n) s ≡ (ok pr, t)
      → Mergeable env owner repo n s
        ⊎ ReadsAfter u.sent
            ((if pr.merged
                then pure (record { merged = true; sha = "" })
                else perform_merge env pr method delete_branch subject body)
              u).1.sent
  unfolding perform_merge pure
  merge_found pr method delete_branch subject body s t u seen = elim (Bool-cases pr.merged) [
    | inl done ↦ inr (rw done same)
    | inr going ↦ elim (reads_unless_none (merge_blocked pr.mergeable pr.merge_state_status) _ u) [
      | inl free ↦
          inl
            (record { found = pr; later = t; answered = seen; open_yet = going; unblocked = free })
      | inr stopped ↦ inr (rw going stopped)
    ]
  ]

  -- `MergePR` sends a mutation, the merge or the deletion of the branch, only for a pull request that
  -- GitHub answered for, that is not merged yet and that `mergeBlocked` lets pass; otherwise all its
  -- calls are reads.
  pub merge_pr-preflight :
      (method : String) (delete_branch : Bool) (subject body : String) (s : Session)
      → Mergeable env owner repo n s
        ⊎ ReadsAfter s.sent (merge_pr env owner repo n method delete_branch subject body s).1.sent
  unfolding merge_pr
  merge_pr-preflight method delete_branch subject body s =
      reads_unless _ _ _ s (reads_graphql env _ _ _ lookup_reads) (λ pr t seen.
        reads_unless _ _ _ t (reads_require _ _ _)
          (λ _ u _. merge_found pr method delete_branch subject body s t u seen))

  pub reads_pending : ReadsOnly (pr_and_pending_review env owner repo n)
  unfolding pr_and_pending_review
  reads_pending =
      reads_bind _ _ (reads_graphql env _ _ _ draft_lookup_reads)
        (λ look. reads_then _ _ (reads_require _ _ _) (reads_pure _))

  -- From the answer to the lookup on.
  start_found :
      (look : StartReviewLookupGql) (s t : Session)
      → graphql env env.codec.start_review_lookup start_review_lookup_query (pr_vars owner repo n) s
        ≡ (ok look, t)
      → NoDraft env owner repo n s
        ⊎ ReadsAfter t.sent
            (((require look.id code_not_found "pull request not found"
                  >> pure (look.id, first_or_empty look.reviews))
                >>= started env)
              t).1.sent
  unfolding pure fail_with throw
  start_found look s t seen = elim (Bool-cases (look.id == "")) [
    | inl absent ↦ inr (rw absent same)
    | inr known ↦ elim (Bool-cases (first_or_empty look.reviews == "")) [
      | inl none_listed ↦ inl (record {
        found = look;
        later = t;
        answered = seen;
        known = known;
        no_draft = NoneListed-first look.reviews none_listed;
      })
      | inr present ↦ inr (rw (known, present) same)
    ]
  ]

  start_review-bind :
      (s : Session)
      → start_review env owner repo n s
        ≡ (graphql env env.codec.start_review_lookup start_review_lookup_query
                (pr_vars owner repo n)
              >>= λ look.
                  ((require look.id code_not_found "pull request not found"
                      >> pure (look.id, first_or_empty look.reviews))
                    >>= started env))
            s
  unfolding start_review pr_and_pending_review
  start_review-bind s =
      bind_after
        (graphql env env.codec.start_review_lookup start_review_lookup_query (pr_vars owner repo n)
          s)
        _ (started env)

  -- `StartReview` creates a review only if GitHub's answer knows the pull request and lists no draft of
  -- the viewer on it; otherwise all its calls are reads.
  pub start_review-once :
      (s : Session)
      → NoDraft env owner repo n s ⊎ ReadsAfter s.sent (start_review env owner repo n s).1.sent
  start_review-once s = rw (start_review-bind s) (
      reads_unless _ _ _ s (reads_graphql env _ _ _ draft_lookup_reads)
        (λ look t seen. start_found look s t seen))
