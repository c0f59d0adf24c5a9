-- ===== src/Server/Session/Shared.antt =====
-- internal/server: what every handler keeps of the shared state, the engine keeps.
use differ_nvim.Common.{
  ℕ, ◌≡◌, String, Bool, true, false, Option, none, some, List, [], ◌∷◌, ◌==◌, Bool-cases,
  Option-cases, inl, inr,
}
use differ_nvim.Protocol.{Request}
use differ_nvim.Server.Frame.{Frame}
use differ_nvim.Server.Run.{Handler, Registry, run}
use differ_nvim.Server.Session.{
  Engine, start, emit, greet, admit, dispatch, take_request, report_oversized, take_line,
  take_frame, receive, Step, read, finish, write, stop, Reach, here, next,
}

module _ {S R : Type 0} (P : S → Type 0) where
  -- Every handler that the registry knows keeps the property.
  abbrev pub AllKeep : Registry S R → Type 0
  AllKeep reg =
      (name : String) (h : Handler S R)
      → reg name ≡ some h
      → (params : String) (s : S) → P s
      → P (h params s).1

  module _ (reg : Registry S R) (keep : AllKeep reg) where
    run-keeps : (req : Request) (s : S) → P s → P (run reg req s).1
    unfolding run
    run-keeps req s p = elim (Option-cases (reg req.method)) [
      | inl unknown ↦ rw (unknown, run) p
      | inr (h, known) ↦ rw (known, run) (keep req.method h known req.params s p)
    ]

    admit-keeps :
        (b : Bool) (req : Request) (e : Engine S R) → P e.shared → P (admit b req e).shared
    unfolding admit emit
    admit-keeps false req e p = p
    admit-keeps true req e p = p

    dispatch-keeps : (req : Request) (e : Engine S R) → P e.shared → P (dispatch reg req e).shared
    unfolding dispatch greet emit
    dispatch-keeps req e p = elim (Bool-cases (req.method == "hello")) [
      | inl hello ↦ rw hello (run-keeps req e.shared p)
      | inr other ↦ rw other (admit-keeps e.hello_ok req e p)
    ]

    take_request-keeps :
        (o : Option Request) (e : Engine S R) → P e.shared → P (take_request reg o e).shared
    unfolding take_request emit
    take_request-keeps none e p = p
    take_request-keeps (some req) e p = dispatch-keeps req e p

    report_oversized-keeps :
        (b : Bool) (e : Engine S R) → P e.shared → P (report_oversized reg b e).shared
    unfolding report_oversized emit
    report_oversized-keeps true e p = p
    report_oversized-keeps false e p = p

    module _ (decode_request : List ℕ → Option Request) where
      take_line-keeps :
          (line : List ℕ) (e : Engine S R)
          → P e.shared
          → P (take_line reg decode_request line e).shared
      unfolding take_line
      take_line-keeps [] e p = p
      take_line-keeps (b ∷ line) e p = take_request-keeps (decode_request (b ∷ line)) e p

      receive-keeps :
          (f : Frame) (e : Engine S R) → P e.shared → P (receive reg decode_request f e).shared
      unfolding receive take_frame
      receive-keeps f e p = take_line-keeps f.line _ (report_oversized-keeps f.oversized _ p)

      step_keeps : {e f : Engine S R} → Step reg decode_request e f → P e.shared → P f.shared
      unfolding emit
      step_keeps (read e f _ _ _) p = receive-keeps f e p
      step_keeps (finish e before after req _ _) p = run-keeps req e.shared p
      step_keeps (write e r rest q) p = p
      step_keeps (stop e _ _ _ _) p = p

      pub reach_keeps :
          (s : S) (input : List ℕ) {e : Engine S R}
          → P s
          → Reach reg decode_request (start s input) e
          → P e.shared
      unfolding start
      reach_keeps s input p here = p
      reach_keeps s input p (next r st) = step_keeps st (reach_keeps s input p r)
