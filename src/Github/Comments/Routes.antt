-- ===== src/Github/Comments/Routes.antt =====
-- internal/github/comments.go: which of the three ways a comment goes, and what is reported of it.
use differ_nvim.Common.{
  ◌≡◌, refl, sym, ap, ◌∙◌, subst, String, true, false, ◌∷◌, ◌==◌, Bool-cases, inl, inr, text_eq,
}
use differ_nvim.Common.Int.{ℤ}
use differ_nvim.Protocol.{Result, ok, err, code_bad_request}
use differ_nvim.Github.Results.{PostComment, PostCommentInput}
use differ_nvim.Github.Client.{
  M, Session, Env, ◌>>=◌, ◌>>◌, bind_result, pure, fail_with, throw, graphql,
}
use differ_nvim.Github.Dtos.{AddThreadGql}
use differ_nvim.Github.Documents.{add_thread_mutation}
use differ_nvim.Github.Reviews.{text_arg, require, pr_and_pending_review}
use differ_nvim.Github.Comments.{
  first_id, as_args, thread_vars, draft_thread, publish_comment, join_draft, post_new_thread,
  post_comment,
}

-- Every result of the computation has the property.
record Yields {A : Type 0} (P : A → Type 0) (m : M A) : Type 0 where
  at : (s : Session) (a : A) (t : Session) → m s ≡ (ok a, t) → P a

yields_next :
    {A B : Type 0} (P : B → Type 0) (r : Result A × Session) (f : A → M B) (b : B) (u : Session)
    → ((a : A) → Yields P (f a))
    → bind_result r f ≡ (ok b, u)
    → P b
yields_next P (ok a, t) f b u k h = (k a).at t b u h
yields_next P (err e, t) f b u k h = cc h

yields_bind :
    {A B : Type 0} (P : B → Type 0) (m : M A) (f : A → M B)
    → ((a : A) → Yields P (f a))
    → Yields P (m >>= f)
yields_bind P m f k = record { at = λ s b u h. yields_next P (m s) f b u k h }

yields_pure : {A : Type 0} (P : A → Type 0) (a : A) → P a → Yields P (pure a)
unfolding pure
yields_pure P a p = record { at = λ s b u h. let same : a ≡ b = cc h in subst P same p }

yields_fail :
    {A : Type 0} (P : A → Type 0) (code message : String)
    → Yields P (fail_with {A = A} code message)
unfolding fail_with throw
yields_fail P code message = record { at = λ s b u h. cc h }

-- What follows `require` may use that the id was there.
yields_require :
    {B : Type 0} (P : B → Type 0) (id code message : String) (k : M B)
    → ((id == "") ≡ false → Yields P k)
    → Yields P (require id code message >> k)
unfolding fail_with throw pure
yields_require P id code message k h = elim (Bool-cases (id == "")) [
  | inl e ↦ record { at = λ s b u ended. let bad = rw e at ended in cc bad }
  | inr e ↦ record { at = λ s b u ended. (h e).at s b u (rw e at ended) }
]

-- What a result that is known tells.
result-same :
    {A B : Type 0} (r q : Result A × B) (a b : A) (s t : B)
    → r ≡ (ok a, s)
    → q ≡ (ok b, t)
    → r ≡ q
    → (a ≡ b) × (s ≡ t)
result-same r q a b s t e f h = (cc (e, f, h), cc (e, f, h))

module _ (env : Env) where
  published :
      (pr_id : String) (i : PostCommentInput)
      → Yields (λ (c : PostComment). c.review_id ≡ "") (publish_comment env pr_id i)
  unfolding publish_comment
  published pr_id i = yields_bind _ _ _ (λ ids. yields_pure _ _ refl)

  joined :
      (pending : String) (i : PostCommentInput)
      → Yields (λ (c : PostComment). c.review_id ≡ pending) (join_draft env pending i)
  unfolding join_draft
  joined pending i = yields_bind _ _ _ (λ pc. yields_pure _ _ refl)

  -- The call of `draftThread`.
  abbrev pub asks_thread : PostCommentInput → M AddThreadGql
  asks_thread i =
      graphql env env.codec.add_thread add_thread_mutation
        (text_arg "reviewId" i.review_id ∷ as_args (thread_vars i))

  anchored_next :
      (r : Result AddThreadGql × Session) (pc : PostComment) (u : Session)
      → bind_result r (λ t.
        require t.id code_bad_request
          "line could not be resolved: the comment must anchor to a line in the diff"
        >> pure (record { id = first_id t.comments; thread_id = t.id; review_id = "" }))
        ≡ (ok pc, u)
      → (t : AddThreadGql) × (r ≡ (ok t, u))
        × ((t.id == "") ≡ false)
        × (pc.thread_id ≡ t.id)
        × (pc.id ≡ first_id t.comments)
  unfolding pure fail_with throw
  anchored_next (err e, s) pc u h = cc h
  anchored_next (ok t, s) pc u h = elim (Bool-cases (t.id == "")) [
    | inl absent ↦ let bad = rw absent at h in cc bad
    | inr given ↦
        let made : PostComment = record {
          id = first_id t.comments;
          thread_id = t.id;
          review_id = "";
        } in
        let done = rw given at h in
        let (same, then_) = result-same (ok made, s) (ok pc, u) made pc s u refl refl done in
        (
          t,
          ap (λ x. (ok t, x)) then_,
          given,
          sym (ap (λ c. c.thread_id) same),
          sym (ap (λ c. c.id) same),
        )
  ]

  anchored :
      (i : PostCommentInput) (pc : PostComment) (s u : Session)
      → draft_thread env i s ≡ (ok pc, u)
      → (t : AddThreadGql) × (asks_thread i s ≡ (ok t, u))
        × ((t.id == "") ≡ false)
        × (pc.thread_id ≡ t.id)
        × (pc.id ≡ first_id t.comments)
  unfolding draft_thread
  anchored i pc s u h = anchored_next (asks_thread i s) pc u h

  -- A new thread that was posted without a review id reports the draft of the viewer that it joined,
  -- and "" where the viewer has none and it was published at once.
  pub post_new_thread-review_id :
      (owner repo : String) (n : ℤ) (i : PostCommentInput) (found : String × String)
      (pc : PostComment) (s t u : Session)
      → pr_and_pending_review env owner repo n s ≡ (ok found, t)
      → post_new_thread env owner repo n i s ≡ (ok pc, u)
      → pc.review_id ≡ found.1
  unfolding post_new_thread
  post_new_thread-review_id owner repo n i found pc s t u looked h =
      let run = rw looked at h in
      elim (Bool-cases (found.1 == "")) [
        | inl absent ↦
            (published found.0 i).at t pc u (rw absent at run) ∙ sym ((text_eq found.1 "").0 absent)
        | inr present ↦ (joined found.1 i).at t pc u (rw present at run)
      ]

  -- A new thread that is posted with a review id is reported as GitHub answered it: the answer to the
  -- mutation has the id of a thread, which is the one reported, with the number of its first comment.
  -- Where GitHub could not anchor it, and so answers no thread, `PostComment` ends with an error.
  pub post_comment-anchored :
      (owner repo : String) (n : ℤ) (i : PostCommentInput) (pc : PostComment) (s u : Session)
      → (i.review_id == "") ≡ false
      → post_comment env owner repo n i s ≡ (ok pc, u)
      → (i.in_reply_to == "") ≡ true
      → (t : AddThreadGql) × (asks_thread i s ≡ (ok t, u))
        × ((t.id == "") ≡ false)
        × (pc.thread_id ≡ t.id)
        × (pc.id ≡ first_id t.comments)
  unfolding post_comment
  post_comment-anchored owner repo n i pc s u drafted h fresh =
      anchored i pc s u (rw (fresh, drafted) at h)
