-- ===== src/Handlers/Guards.antt =====
-- internal/handlers/handlers.go, mutate_comments.go and mutate_reviews.go: `guardHead`, and the two
-- methods that it guards.
use differ_nvim.Common.{
  ◌≡◌, String, false, Option, none, some, ◌==◌, ◌⊎◌, inl, inr, Bool-cases, ap, text_eq,
  if◌then◌else◌,
}
use differ_nvim.Protocol.{Error, GoError, Result, ok, err}
use differ_nvim.Github.Client.{M, Session, Env, ◌>>◌, bind_result, pure, throw, fail_with, check}
use differ_nvim.Github.Client.Reads.{
  ReadsAfter, same, ReadsOnly, reads_bind, reads_pure, reads_get_json,
}
use differ_nvim.Github.Files.{head_sha, pr_refs}
use differ_nvim.Protocol
use differ_nvim.Handlers
use differ_nvim.Handlers.{PrParams, SubmitReviewParams, PostCommentParams, guard_head}
use differ_nvim.Handlers.Mutations.{submit_review, post_comment}

-- The run from `s` ended with an error and sent nothing but reads.
pub data Blocked {A : Type 0} (s : Session) : Result A × Session → Type 0 where
  blocked : (e : GoError) (t : Session) → ReadsAfter s.sent t.sent → Blocked s (err e, t)

-- A check comes first: it fails, or what follows it runs from the same state.
Blocked-check :
    {B : Type 0} (o : Option Error) (k : M B) (s : Session)
    → Blocked s (k s)
    → Blocked s ((check o >> k) s)
unfolding check throw pure
Blocked-check none k s h = h
Blocked-check (some e) k s h = blocked _ s same

-- The same for a disjunction with a fact about the state.
either_check :
    {B : Type 0} (P : Type 0) (o : Option Error) (k : M B) (s : Session)
    → P ⊎ Blocked s (k s)
    → P ⊎ Blocked s ((check o >> k) s)
either_check P o k s (inl p) = inl p
either_check P o k s (inr h) = inr (Blocked-check o k s h)

module _ (env : Env) where
  reads_head : (owner repo : String) (n : _) → ReadsOnly (head_sha env owner repo n)
  unfolding head_sha pr_refs
  reads_head owner repo n = reads_bind _ _ (reads_get_json env _ _) (λ r. reads_pure r.head)

  -- What the comparison of the heads makes of the answer of `HeadSHA`.
  compared :
      {B : Type 0} (expected : String) (k : M B) (r : Result String) (s t : Session)
      → ReadsAfter s.sent t.sent
      → (r ≡ ok expected)
        ⊎ Blocked s (
            bind_result
              (bind_result
                (r, t)
                (λ head.
                  if head == expected
                  then pure tt
                  else fail_with Protocol.code_conflict Handlers.head_moved))
              (λ _. k))
  unfolding fail_with throw
  compared expected k (err e) s t h = inr (blocked e t h)
  compared expected k (ok head) s t h = elim (Bool-cases (head == expected)) [
    | inl e ↦ inl (ap ok ((text_eq head expected).0 e))
    | inr e ↦ inr (rw e (blocked _ t h))
  ]

  either_guard :
      {B : Type 0} (p : PrParams) (expected : String) (k : M B) (s : Session)
      → (expected == "") ≡ false
      → ((head_sha env p.owner p.repo p.number s).0 ≡ ok expected)
        ⊎ Blocked s ((guard_head env p expected >> k) s)
  unfolding guard_head
  either_guard p expected k s pinned = rw pinned (
      compared expected k (head_sha env p.owner p.repo p.number s).0 s
        (head_sha env p.owner p.repo p.number s).1 ((reads_head p.owner p.repo p.number).at s))

  -- A review that was anchored at a head is submitted only while GitHub answers that very head:
  -- otherwise the method ends with an error, and no mutation was sent.
  pub submit_review-guarded :
      (p : SubmitReviewParams) (s : Session)
      → (p.expected_head == "") ≡ false
      → ((head_sha env p.pr.owner p.pr.repo p.pr.number s).0 ≡ ok p.expected_head)
        ⊎ Blocked s (submit_review env p s)
  unfolding submit_review
  submit_review-guarded p s pinned =
      either_check _ _ _ s
        (either_check _ _ _ s (either_check _ _ _ s (either_guard p.pr p.expected_head _ s pinned)))

  -- A comment with a pinned head is posted only while GitHub answers that very head: otherwise the
  -- method ends with an error, and no mutation was sent.
  pub post_comment-guarded :
      (p : PostCommentParams) (s : Session)
      → (p.expected_head == "") ≡ false
      → ((head_sha env p.pr.owner p.pr.repo p.pr.number s).0 ≡ ok p.expected_head)
        ⊎ Blocked s (post_comment env p s)
  unfolding post_comment
  post_comment-guarded p s pinned =
      either_check _ _ _ s
        (either_check _ _ _ s (either_check _ _ _ s (either_guard p.pr p.expected_head _ s pinned)))
