-- ===== src/Server/Session/Gate.antt =====
-- The handshake gate of `dispatch`.
use differ_nvim.Common.{
  ◌≡◌, refl, sym, ◌∙◌, Bool, true, false, ◌||◌, List, [], ◌∷◌, All, All-append, arith, ◌==◌,
  Bool-cases, middle-ne-nil, inl, inr, ℕ, Option, none, some,
}
use differ_nvim.Protocol.{Request, Response}
use differ_nvim.Server.Run.{Registry, is_ok, run, bad_request, fail}
use differ_nvim.Server.Frame.{Frame}
use differ_nvim.Server.Session.{
  Engine, start, emit, greet, admit, dispatch, take_request, report_oversized, take_line,
  take_frame, receive, Step, read, finish, write, stop, Reach, here, next,
}

-- The response carries an error.
abbrev pub IsFailure : {R : Type 0} → Response R → Type 0
IsFailure r = is_ok r ≡ false

module _ {S R : Type 0} where
  abbrev pub IsGated : Engine S R → Type 0
  IsGated e =
      e.hello_ok ≡ false → (e.inflight ≡ []) × All IsFailure e.outbound × All IsFailure e.written

  emit-IsGated :
      (r : Response R) (e : Engine S R)
      → (e.hello_ok ≡ false → IsFailure r)
      → IsGated e
      → IsGated (emit r e)
  unfolding emit
  emit-IsGated r e f g h =
      ((g h).0, All-append IsFailure e.outbound (r ∷ []) (g h).1 (f h, tt), (g h).2)

  greet-IsGated : (r : Response R) (s : S) (e : Engine S R) → IsGated e → IsGated (greet (r, s) e)
  unfolding greet
  greet-IsGated r s e g =
      emit-IsGated r (record e { shared = s; hello_ok = is_ok r || e.hello_ok }) (λ h. ground arith)
        (λ h. g (ground arith))

  admit-IsGated :
      (b : Bool) (req : Request) (e : Engine S R)
      → e.hello_ok ≡ b
      → IsGated e
      → IsGated (admit b req e)
  unfolding admit bad_request fail
  admit-IsGated false req e q g = emit-IsGated _ e (λ _. refl) g
  admit-IsGated true req e q g = λ h. cc

  module _ (reg : Registry S R) where
    dispatch-IsGated : (req : Request) (e : Engine S R) → IsGated e → IsGated (dispatch reg req e)
    unfolding dispatch
    dispatch-IsGated req e g = elim (Bool-cases (req.method == "hello")) [
      | inl hello ↦ rw hello (greet-IsGated (run reg req e.shared).0 (run reg req e.shared).1 e g)
      | inr other ↦ rw other (admit-IsGated e.hello_ok req e refl g)
    ]

    take_request-IsGated :
        (o : Option Request) (e : Engine S R) → IsGated e → IsGated (take_request reg o e)
    unfolding take_request bad_request fail
    take_request-IsGated none e g = emit-IsGated _ e (λ _. refl) g
    take_request-IsGated (some req) e g = dispatch-IsGated req e g

    report_oversized-IsGated :
        (b : Bool) (e : Engine S R) → IsGated e → IsGated (report_oversized reg b e)
    unfolding report_oversized bad_request fail
    report_oversized-IsGated true e g = emit-IsGated _ e (λ _. refl) g
    report_oversized-IsGated false e g = g

    module _ (decode_request : List ℕ → Option Request) where
      take_line-IsGated :
          (line : List ℕ) (e : Engine S R)
          → IsGated e
          → IsGated (take_line reg decode_request line e)
      unfolding take_line
      take_line-IsGated [] e g = g
      take_line-IsGated (b ∷ line) e g = take_request-IsGated (decode_request (b ∷ line)) e g

      receive-IsGated :
          (f : Frame) (e : Engine S R) → IsGated e → IsGated (receive reg decode_request f e)
      unfolding receive take_frame
      receive-IsGated f e g = take_line-IsGated f.line _ (report_oversized-IsGated f.oversized _ g)

      Step-IsGated : {e f : Engine S R} → Step reg decode_request e f → IsGated e → IsGated f
      unfolding emit
      Step-IsGated (read e f _ _ _) g = receive-IsGated f e g
      Step-IsGated (finish e before after req q _) g =
          λ h. absurd (middle-ne-nil before req after (sym q ∙ (g h).0))
      Step-IsGated (write e r rest q) g = λ h.
          let all : All IsFailure (r ∷ rest) = rw q at ((g h).1) in
          ((g h).0, all.1, All-append IsFailure e.written (r ∷ []) (g h).2 (all.0, tt))
      Step-IsGated (stop e _ _ _ _) g = g

      -- Until a `hello` has succeeded no other request has a goroutine, and everything that was put
      -- on the channel or written out is an error.
      pub handshake_gate :
          (s : S) (input : List ℕ) {e : Engine S R}
          → Reach reg decode_request (start s input) e
          → e.hello_ok ≡ false
          → (e.inflight ≡ []) × All IsFailure e.outbound × All IsFailure e.written
      unfolding start
      handshake_gate s input here = λ _. (refl, tt, tt)
      handshake_gate s input (next r st) = Step-IsGated st (handshake_gate s input r)
