-- ===== src/Demo/Drafts.antt =====
-- .demo/fake-sidecar/fixtures.go: a draft review and its comments.
use text.Mathlib.TextLemmas
use differ_nvim.Common.{
  ℕ, suc, ◌≡◌, refl, sym, ap, ap₂, ◌∙◌, String, Bool, true, false, not, List, [], ◌∷◌, ◌++◌, ◌==◌,
  if◌then◌else◌, All, All-append, Bool-cases, inl, inr, append-nil, append_assoc,
}
use differ_nvim.Common.Int.{ℤ, pos}
use differ_nvim.Github.Links.Printed.{nil-cons}
use differ_nvim.Github.Results.{Thread, PostCommentInput}
use differ_nvim.Demo.{Fixture, kept_threads, discard_review}
use differ_nvim.Demo.Stamped.{start_review, post_comment, open_thread, drafted_thread}

-- No thread of the list is a draft, or every one is.
abbrev pub AreOpen : List Thread → Type 0
AreOpen ts = All (λ (t : Thread). t.is_pending ≡ false) ts

abbrev AreDrafts : List Thread → Type 0
AreDrafts ts = All (λ (t : Thread). t.is_pending ≡ true) ts

kept_first :
    (b : Bool) (t : Thread) (ts us : List Thread)
    → (if not b then t ∷ (ts ++ us) else ts ++ us) ≡ (if not b then t ∷ ts else ts) ++ us
kept_first true t ts us = refl
kept_first false t ts us = refl

kept-append : (ts us : List Thread) → kept_threads (ts ++ us) ≡ kept_threads ts ++ kept_threads us
unfolding kept_threads
kept-append [] us = refl
kept-append (t ∷ ts) us =
    rw (kept-append ts us) (kept_first t.is_pending t (kept_threads ts) (kept_threads us))

shown_first :
    (b : Bool) (t : Thread) (ts us : List Thread)
    → b ≡ false
    → ts ≡ us
    → (if not b then t ∷ ts else ts) ≡ t ∷ us
shown_first true t ts us h e = cc h
shown_first false t ts us h e = ap (λ l. t ∷ l) e

kept-AreOpen : (ts : List Thread) → AreOpen ts → kept_threads ts ≡ ts
unfolding kept_threads
kept-AreOpen [] h = refl
kept-AreOpen (t ∷ ts) (o, h) = shown_first t.is_pending t (kept_threads ts) ts o (kept-AreOpen ts h)

kept-AreDrafts : (ts : List Thread) → AreDrafts ts → kept_threads ts ≡ []
unfolding kept_threads
kept-AreDrafts [] h = refl
kept-AreDrafts (t ∷ ts) (d, h) = rw d (kept-AreDrafts ts h)

module _ (ago : ℕ → String) (itoa : ℤ → String) where
  -- New threads, one after the other.
  unfoldable pub post_all : List PostCommentInput → Fixture → Fixture
  post_all [] f = f
  post_all (i ∷ is) f = post_all is (post_comment ago itoa i f).1

  -- With a review at hand every new thread is a draft behind those that were there.
  record Drafted (f g : Fixture) : Type 0 where
    drafts : List Thread
    are_drafts : AreDrafts drafts
    behind : g.threads ≡ f.threads ++ drafts
    same_review : g.review_id ≡ f.review_id

  Drafted-trans : {f g h : Fixture} → Drafted f g → Drafted g h → Drafted f h
  Drafted-trans {f} {g} {h} a b = record {
    drafts = a.drafts ++ b.drafts;
    are_drafts = All-append _ a.drafts b.drafts a.are_drafts b.are_drafts;
    behind = b.behind ∙ ap (λ l. l ++ b.drafts) a.behind ∙ append_assoc f.threads a.drafts b.drafts;
    same_review = b.same_review ∙ a.same_review;
  }

  post_comment-Drafted :
      (i : PostCommentInput) (f : Fixture)
      → (f.review_id == "") ≡ false
      → (i.in_reply_to == "") ≡ true
      → Drafted f (post_comment ago itoa i f).1
  unfolding post_comment open_thread
  post_comment-Drafted i f reviewing fresh = rw fresh (record {
    drafts = drafted_thread i _ _ _ ∷ [];
    are_drafts = (rw reviewing refl, tt);
    behind = refl;
    same_review = refl;
  })

  post_all-Drafted :
      (is : List PostCommentInput) (f : Fixture)
      → (f.review_id == "") ≡ false
      → All (λ (i : PostCommentInput). (i.in_reply_to == "") ≡ true) is
      → Drafted f (post_all is f)
  unfolding post_all
  post_all-Drafted [] f reviewing h = record {
    drafts = [];
    are_drafts = tt;
    behind = sym (append-nil f.threads);
    same_review = refl;
  }
  post_all-Drafted (i ∷ is) f reviewing (fresh, h) =
      let first = post_comment-Drafted i f reviewing fresh in
      Drafted-trans first
        (post_all-Drafted is (post_comment ago itoa i f).1 (rw (first.same_review) reviewing) h)

  review_started :
      (f : Fixture)
      → (((start_review ago itoa f).1.review_id == "") ≡ false)
        × ((start_review ago itoa f).1.threads ≡ f.threads)
  unfolding start_review
  review_started f = elim (Bool-cases (f.review_id == "")) [
    | inl none_yet ↦ rw none_yet (
      ap (λ t. t == "") (TextLemmas.cons-append "P" "RR_" (itoa (pos (suc f.seq)))) ∙ nil-cons _ _,
      refl,
    )
    | inr there ↦ rw there (there, refl)
  ]

  -- Where no thread is a draft, a review that is started, given any number of comments that open new
  -- threads, and then discarded, leaves the threads as they were and no review.
  pub discard_review-post_all :
      (is : List PostCommentInput) (f : Fixture)
      → AreOpen f.threads
      → All (λ (i : PostCommentInput). (i.in_reply_to == "") ≡ true) is
      → ((discard_review (post_all is (start_review ago itoa f).1)).threads ≡ f.threads)
        × ((discard_review (post_all is (start_review ago itoa f).1)).review_id ≡ "")
  unfolding discard_review
  discard_review-post_all is f shown fresh =
      let started = review_started f in
      let drafted = post_all-Drafted is (start_review ago itoa f).1 (started.0) fresh in
      let all = drafted.behind ∙ ap (λ l. l ++ drafted.drafts) (started.1) in
      (
        ap kept_threads all
            ∙ kept-append f.threads drafted.drafts
            ∙ ap₂ (λ l m. l ++ m) (kept-AreOpen f.threads shown)
                (kept-AreDrafts drafted.drafts drafted.are_drafts)
            ∙ append-nil f.threads,
        refl,
      )
