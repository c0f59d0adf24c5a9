-- ===== src/Server/Session/Wire.antt =====
-- internal/server: everything that the engine answers, when the handlers' errors are of the closed set.
use differ_nvim.Common.{
  ℕ, ◌≡◌, refl, String, Bool, true, false, Option, none, some, List, [], ◌∷◌, ◌==◌, ◌||◌, All,
  All-append, Bool-cases, inl, inr,
}
use differ_nvim.Common.Int.{ℤ}
use differ_nvim.Protocol.{Request, Response}
use differ_nvim.Server.Frame.{Frame}
use differ_nvim.Server.Run.{Handler, Registry, run, bad_request, fail, is_ok}
use differ_nvim.Server.Run.Wire.{IsTame, Answers, run-Answers}
use differ_nvim.Server.Session.{
  Engine, start, emit, greet, admit, dispatch, take_request, report_oversized, take_line,
  take_frame, receive, Step, read, finish, write, stop, Reach, here, next,
}

-- Whatever the parameters and the shared state are, no handler returns a coded error that is outside of
-- the closed set.
abbrev pub IsTameRegistry : {S R : Type 0} → Registry S R → Type 0
IsTameRegistry {S} {R} reg =
    (name : String) (h : Handler S R)
    → reg name ≡ some h
    → (params : String) (s : S) → IsTame (h params s).0

-- A result and no error, or no result and an error of the closed set.
abbrev pub IsWire : {R : Type 0} → Response R → Type 0
IsWire r = Answers r.id r

refusal-IsWire : {R : Type 0} (id : ℤ) (message : String) → IsWire {R = R} (bad_request id message)
unfolding bad_request fail
refusal-IsWire id message = record {
  same_id = refl;
  content = inr (_, refl, refl, record { listed = refl });
}

module _ {S R : Type 0} where
  abbrev AllWire : Engine S R → Type 0
  AllWire e = All IsWire e.outbound × All IsWire e.written

  emit-AllWire : (r : Response R) (e : Engine S R) → IsWire r → AllWire e → AllWire (emit r e)
  unfolding emit
  emit-AllWire r e w (o, d) = (All-append IsWire e.outbound (r ∷ []) o (w, tt), d)

  admit-AllWire : (b : Bool) (req : Request) (e : Engine S R) → AllWire e → AllWire (admit b req e)
  unfolding admit
  admit-AllWire false req e a = emit-AllWire _ e (refusal-IsWire _ _) a
  admit-AllWire true req e a = a

  greet-AllWire :
      (r : Response R) (s : S) (e : Engine S R) → IsWire r → AllWire e → AllWire (greet (r, s) e)
  unfolding greet
  greet-AllWire r s e w a =
      emit-AllWire r (record e { shared = s; hello_ok = is_ok r || e.hello_ok }) w a

  module _ (reg : Registry S R) (tame : IsTameRegistry reg) where
    run-IsWire : (req : Request) (s : S) → IsWire (run reg req s).0
    run-IsWire req s =
        let a = run-Answers reg req s (λ h known. tame req.method h known req.params s) in
        record { same_id = refl; content = a.content }

    dispatch-AllWire : (req : Request) (e : Engine S R) → AllWire e → AllWire (dispatch reg req e)
    unfolding dispatch
    dispatch-AllWire req e a = elim (Bool-cases (req.method == "hello")) [
      | inl hello ↦ rw hello (greet-AllWire _ _ e (run-IsWire req e.shared) a)
      | inr other ↦ rw other (admit-AllWire e.hello_ok req e a)
    ]

    take_request-AllWire :
        (o : Option Request) (e : Engine S R) → AllWire e → AllWire (take_request reg o e)
    unfolding take_request
    take_request-AllWire none e a = emit-AllWire _ e (refusal-IsWire _ _) a
    take_request-AllWire (some req) e a = dispatch-AllWire req e a

    report_oversized-AllWire :
        (b : Bool) (e : Engine S R) → AllWire e → AllWire (report_oversized reg b e)
    unfolding report_oversized
    report_oversized-AllWire true e a = emit-AllWire _ e (refusal-IsWire _ _) a
    report_oversized-AllWire false e a = a

    module _ (decode_request : List ℕ → Option Request) where
      take_line-AllWire :
          (line : List ℕ) (e : Engine S R)
          → AllWire e
          → AllWire (take_line reg decode_request line e)
      unfolding take_line
      take_line-AllWire [] e a = a
      take_line-AllWire (b ∷ line) e a = take_request-AllWire (decode_request (b ∷ line)) e a

      receive-AllWire :
          (f : Frame) (e : Engine S R) → AllWire e → AllWire (receive reg decode_request f e)
      unfolding receive take_frame
      receive-AllWire f e a = take_line-AllWire f.line _ (report_oversized-AllWire f.oversized _ a)

      Step-AllWire : {e f : Engine S R} → Step reg decode_request e f → AllWire e → AllWire f
      Step-AllWire (read e f _ _ _) a = receive-AllWire f e a
      Step-AllWire (finish e before after req _ _) a = emit-AllWire _ _ (run-IsWire req e.shared) a
      Step-AllWire (write e r rest q) a =
          let all : All IsWire (r ∷ rest) = rw q at (a.0) in
          (all.1, All-append IsWire e.written (r ∷ []) a.1 (all.0, tt))
      Step-AllWire (stop e _ _ _ _) a = a

      pub Reach-AllWire :
          (s : S) (input : List ℕ) {e : Engine S R}
          → Reach reg decode_request (start s input) e
          → All IsWire e.outbound × All IsWire e.written
      unfolding start
      Reach-AllWire s input here = (tt, tt)
      Reach-AllWire s input (next r st) = Step-AllWire st (Reach-AllWire s input r)
