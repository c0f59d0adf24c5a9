-- ===== src/Server/Session/Before.antt =====
-- internal/server: what `hello` keeps of the shared state holds until a `hello` has succeeded.
use differ_nvim.Common.{
  ℕ, ◌≡◌, sym, ap, ◌∙◌, String, Bool, true, false, Option, none, some, List, [], ◌∷◌, ◌==◌,
  Bool-cases, Option-cases, inl, inr, arith, text_eq, middle-ne-nil,
}
use differ_nvim.Protocol.{Request, Response}
use differ_nvim.Server.Frame.{Frame}
use differ_nvim.Server.Run.{Handler, Registry, run}
use differ_nvim.Server.Session.{
  Engine, start, emit, greet, admit, dispatch, take_request, report_oversized, take_line,
  take_frame, receive, Step, read, finish, write, stop, Reach, here, next,
}
use differ_nvim.Server.Session.Gate.{handshake_gate}

module _ {S R : Type 0} (P : S → Type 0) (reg : Registry S R)
    (keep : (h : Handler S R)
      → reg "hello" ≡ some h
      → (params : String) (s : S) → P s
      → P (h params s).1) where
  abbrev IsBefore : Engine S R → Type 0
  IsBefore e = e.hello_ok ≡ false → P e.shared

  run-hello : (req : Request) (s : S) → (req.method == "hello") ≡ true → P s → P (run reg req s).1
  unfolding run
  run-hello req s hello p = elim (Option-cases (reg req.method)) [
    | inl unknown ↦ rw (unknown, run) p
    | inr (h, known) ↦
        let found = sym (ap reg ((text_eq req.method "hello").0 hello)) ∙ known in
        rw (known, run) (keep h found req.params s p)
  ]

  greet-IsBefore :
      (r : Response R) (s : S) (e : Engine S R)
      → (P e.shared → P s)
      → IsBefore e
      → IsBefore (greet (r, s) e)
  unfolding greet emit
  greet-IsBefore r s e k b = λ h. k (b (ground arith))

  admit-IsBefore :
      (b : Bool) (req : Request) (e : Engine S R) → IsBefore e → IsBefore (admit b req e)
  unfolding admit emit
  admit-IsBefore false req e b = b
  admit-IsBefore true req e b = b

  dispatch-IsBefore : (req : Request) (e : Engine S R) → IsBefore e → IsBefore (dispatch reg req e)
  unfolding dispatch
  dispatch-IsBefore req e b = elim (Bool-cases (req.method == "hello")) [
    | inl hello ↦ rw hello (greet-IsBefore _ _ e (run-hello req e.shared hello) b)
    | inr other ↦ rw other (admit-IsBefore e.hello_ok req e b)
  ]

  take_request-IsBefore :
      (o : Option Request) (e : Engine S R) → IsBefore e → IsBefore (take_request reg o e)
  unfolding take_request emit
  take_request-IsBefore none e b = b
  take_request-IsBefore (some req) e b = dispatch-IsBefore req e b

  report_oversized-IsBefore :
      (o : Bool) (e : Engine S R) → IsBefore e → IsBefore (report_oversized reg o e)
  unfolding report_oversized emit
  report_oversized-IsBefore true e b = b
  report_oversized-IsBefore false e b = b

  module _ (decode_request : List ℕ → Option Request) where
    take_line-IsBefore :
        (line : List ℕ) (e : Engine S R)
        → IsBefore e
        → IsBefore (take_line reg decode_request line e)
    unfolding take_line
    take_line-IsBefore [] e b = b
    take_line-IsBefore (c ∷ line) e b = take_request-IsBefore (decode_request (c ∷ line)) e b

    receive-IsBefore :
        (f : Frame) (e : Engine S R) → IsBefore e → IsBefore (receive reg decode_request f e)
    unfolding receive take_frame
    receive-IsBefore f e b = take_line-IsBefore f.line _ (report_oversized-IsBefore f.oversized _ b)

    Step-IsBefore :
        {e f : Engine S R}
        → Step reg decode_request e f
        → (e.hello_ok ≡ false → e.inflight ≡ [])
        → IsBefore e
        → IsBefore f
    unfolding emit
    Step-IsBefore (read e f _ _ _) idle b = receive-IsBefore f e b
    Step-IsBefore (finish e before after req q _) idle b =
        λ h. absurd (middle-ne-nil before req after (sym q ∙ idle h))
    Step-IsBefore (write e r rest q) idle b = b
    Step-IsBefore (stop e _ _ _ _) idle b = b

    pub reach_before :
        (s : S) (input : List ℕ) {e : Engine S R}
        → P s
        → Reach reg decode_request (start s input) e
        → e.hello_ok ≡ false
        → P e.shared
    unfolding start
    reach_before s input p here = λ h. p
    reach_before s input p (next r st) =
        Step-IsBefore st (λ h. (handshake_gate reg decode_request s input r h).0)
          (reach_before s input p r)
