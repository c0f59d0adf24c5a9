-- ===== src/Plugin/Lines/Plain.antt =====
-- lua/differ/sidecar/init.lua: the lines of a chunk, where none raises an error of Lua.
use differ_nvim.Common.{
  String, Bool, true, ℕ, ◌≡◌, refl, ◌∙◌, sym, ap, false, Option, none, some, List, [], ◌∷◌, ◌++◌,
}
use differ_nvim.Plugin.Streams.{Line}
use differ_nvim.Plugin.State.{
  Outcome, ErrorField, no_error, indexed, unindexed, Callback, Reply, Json, Client, Shell,
}
use differ_nvim.Plugin.Client.{pending_at}
use differ_nvim.Plugin.Process.{
  settle_with, raises_at, raises_reply, outcome_with, outcome_of, raises_lines, with_buffer, settle,
  dispatch_reply, dispatch_line, dispatch_lines,
}

-- Answers whose field `error` cannot be indexed.
abbrev pub is_unindexed : ErrorField → Bool
is_unindexed no_error = false
is_unindexed (indexed e) = false
is_unindexed unindexed = true

abbrev pub is_odd : Option Reply → Bool
is_odd none = false
is_odd (some r) = is_unindexed r.error

settle-raises :
    (e : ErrorField) (result : Option String) (cb : Option Callback)
    → is_unindexed e ≡ false
    → raises_at (outcome_with e result) cb ≡ false
settle-raises no_error result none fine = refl
settle-raises no_error result (some cb) fine = refl
settle-raises (indexed e) result none fine = refl
settle-raises (indexed e) result (some cb) fine = refl
settle-raises unindexed result cb fine = cc

raises_reply-plain : (r : Option Reply) (c : Client) → is_odd r ≡ false → raises_reply r c ≡ false
unfolding outcome_of
raises_reply-plain none c fine = refl
raises_reply-plain (some r) c fine = settle-raises r.error r.result (pending_at r.id c.pending) fine

settle_with-buffer :
    (o : Option Outcome) (id : ℕ) (cb : Callback) (buf : List ℕ) (c : Client) (sh : Shell)
    → settle_with o id cb (record c { stdout_buf = buf }) sh
      ≡ with_buffer buf (settle_with o id cb c sh)
settle_with-buffer none id cb buf c sh = refl
settle_with-buffer (some o) id cb buf c sh = refl

settle_with-self :
    (o : Option Outcome) (id : ℕ) (cb : Callback) (c : Client) (sh : Shell)
    → (settle_with o id cb c sh).0.self ≡ c.self
settle_with-self none id cb c sh = refl
settle_with-self (some o) id cb c sh = refl

settle-buffer :
    (r : Reply) (o : Option Callback) (buf : List ℕ) (c : Client) (sh : Shell)
    → settle r o (record c { stdout_buf = buf }) sh ≡ with_buffer buf (settle r o c sh)
settle-buffer r none buf c sh = refl
settle-buffer r (some cb) buf c sh = settle_with-buffer (outcome_of r) r.id cb buf c sh

settle-self :
    (r : Reply) (o : Option Callback) (c : Client) (sh : Shell) → (settle r o c sh).0.self ≡ c.self
settle-self r none c sh = refl
settle-self r (some cb) c sh = settle_with-self (outcome_of r) r.id cb c sh

dispatch_reply-buffer :
    (r : Option Reply) (buf : List ℕ) (c : Client) (sh : Shell)
    → dispatch_reply r (record c { stdout_buf = buf }) sh ≡ with_buffer buf (dispatch_reply r c sh)
dispatch_reply-buffer none buf c sh = refl
dispatch_reply-buffer (some r) buf c sh = settle-buffer r (pending_at r.id c.pending) buf c sh

dispatch_reply-self :
    (r : Option Reply) (c : Client) (sh : Shell) → (dispatch_reply r c sh).0.self ≡ c.self
dispatch_reply-self none c sh = refl
dispatch_reply-self (some r) c sh = settle-self r (pending_at r.id c.pending) c sh

module _ (json : Json) where
  abbrev pub ArePlain : List Line → Type 0
  ArePlain [] = Unit
  ArePlain (l ∷ ls) = (is_odd (json.reply l) ≡ false) × ArePlain ls

  pub ArePlain-left : (xs ys : List Line) → ArePlain (xs ++ ys) → ArePlain xs
  ArePlain-left [] ys plain = tt
  ArePlain-left (x ∷ xs) ys (p, plain) = (p, ArePlain-left xs ys plain)

  pub ArePlain-right : (xs ys : List Line) → ArePlain (xs ++ ys) → ArePlain ys
  ArePlain-right [] ys plain = plain
  ArePlain-right (x ∷ xs) ys (p, plain) = ArePlain-right xs ys plain

  dispatch_lines-cons :
      (l : Line) (ls : List Line) (c : Client) (sh : Shell)
      → is_odd (json.reply l) ≡ false
      → dispatch_lines json (l ∷ ls) c sh
        ≡ dispatch_lines json ls (dispatch_line json l c sh).0 (dispatch_line json l c sh).1
  unfolding dispatch_lines
  dispatch_lines-cons l ls c sh p = rw (raises_reply-plain (json.reply l) c p) refl

  pub raises_lines-plain :
      (ls : List Line) (c : Client) (sh : Shell) → ArePlain ls → raises_lines json ls c sh ≡ false
  unfolding raises_lines
  raises_lines-plain [] c sh plain = refl
  raises_lines-plain (l ∷ ls) c sh (p, plain) =
      let next = dispatch_line json l c sh in
      rw (raises_reply-plain (json.reply l) c p) (raises_lines-plain ls next.0 next.1 plain)

  dispatch_lines-none :
      (buf : List ℕ) (c : Client) (sh : Shell)
      → dispatch_lines json [] (record c { stdout_buf = buf }) sh
        ≡ with_buffer buf (dispatch_lines json [] c sh)
  unfolding dispatch_lines
  dispatch_lines-none buf c sh = refl

  pub dispatch_lines-buffer :
      (ls : List Line) (buf : List ℕ) (c : Client) (sh : Shell)
      → ArePlain ls
      → dispatch_lines json ls (record c { stdout_buf = buf }) sh
        ≡ with_buffer buf (dispatch_lines json ls c sh)
  unfolding dispatch_line
  dispatch_lines-buffer [] buf c sh plain = dispatch_lines-none buf c sh
  dispatch_lines-buffer (l ∷ ls) buf c sh (p, plain) =
      let next = dispatch_line json l c sh in
      let with_buf : Client = record c { stdout_buf = buf } in
      dispatch_lines-cons l ls with_buf sh p
      ∙ ap (λ r. dispatch_lines json ls r.0 r.1) (dispatch_reply-buffer (json.reply l) buf c sh)
      ∙ dispatch_lines-buffer ls buf next.0 next.1 plain
      ∙ ap (with_buffer buf) (sym (dispatch_lines-cons l ls c sh p))

  pub dispatch_lines-self :
      (ls : List Line) (c : Client) (sh : Shell)
      → ArePlain ls
      → (dispatch_lines json ls c sh).0.self ≡ c.self
  unfolding dispatch_lines
  dispatch_lines-self [] c sh plain = refl
  dispatch_lines-self (l ∷ ls) c sh (p, plain) =
      let next = dispatch_line json l c sh in
      ap (λ r. r.0.self) (dispatch_lines-cons l ls c sh p)
      ∙ dispatch_lines-self ls next.0 next.1 plain
      ∙ dispatch_reply-self (json.reply l) c sh

  pub dispatch_lines-append :
      (xs ys : List Line) (c : Client) (sh : Shell)
      → ArePlain xs
      → dispatch_lines json (xs ++ ys) c sh
        ≡ dispatch_lines json ys (dispatch_lines json xs c sh).0 (dispatch_lines json xs c sh).1
  unfolding dispatch_lines
  dispatch_lines-append [] ys c sh plain = refl
  dispatch_lines-append (x ∷ xs) ys c sh (p, plain) =
      let next = dispatch_line json x c sh in
      dispatch_lines-cons x (xs ++ ys) c sh p
      ∙ dispatch_lines-append xs ys next.0 next.1 plain
      ∙ ap (λ r. dispatch_lines json ys r.0 r.1) (sym (dispatch_lines-cons x xs c sh p))
