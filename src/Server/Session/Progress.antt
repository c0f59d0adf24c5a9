-- ===== src/Server/Session/Progress.antt =====
-- The engine never blocks for good, and always comes to its end.
use differ_nvim.Common.{
  ℕ, ◌+◌, ◌*◌, ◌≤◌, ◌≡◌, refl, ap, Bool, true, false, Option, none, some, List, [], ◌∷◌, arith,
  length, length-append, ◌==◌, Bool-cases, ltb, inl, inr,
}
use differ_nvim.Protocol.{Request, Response}
use differ_nvim.Server.Run.{Registry, run}
use differ_nvim.Server.Frame.{max_line, read_buf}
use differ_nvim.Server.Frame.Cut.{Split, split_line}
use differ_nvim.Server.Frame.Lines.{frame_of, read_frame-frame_of}
use differ_nvim.Server.Session.{
  Engine, emit, greet, admit, dispatch, take_request, report_oversized, take_line, take_frame,
  receive, Step, read, finish, write, stop,
}
use differ_nvim.Server.Session.Answers.{next_frame}

module _ {S R : Type 0} where
  -- Work in the engine: a request that runs weighs two, since its answer is still to be written.
  abbrev pub load : Engine S R → ℕ
  load e = 2 * length e.inflight + length e.outbound

  module _ (reg : Registry S R) where
    -- A frame that is handled puts at most one answer on the channel, or starts one goroutine.
    pub record AddsOne (e f : Engine S R) : Type 0 where
      pub load_le : load f ≤ load e + 2
      pub outbound_le : length f.outbound ≤ length e.outbound + 1

    emit-AddsOne : (r : Response R) (e : Engine S R) → AddsOne e (emit r e)
    unfolding emit
    emit-AddsOne r e = record {
      load_le = omega (arith, length-append e.outbound (r ∷ []));
      outbound_le = omega (arith, length-append e.outbound (r ∷ []));
    }

    greet-AddsOne : (r : Response R) (s : S) (e : Engine S R) → AddsOne e (greet (r, s) e)
    unfolding greet
    greet-AddsOne r s e = record {
      load_le = omega (arith, length-append e.outbound (r ∷ []));
      outbound_le = omega (arith, length-append e.outbound (r ∷ []));
    }

    admit-AddsOne : (b : Bool) (req : Request) (e : Engine S R) → AddsOne e (admit b req e)
    unfolding admit
    admit-AddsOne false req e = emit-AddsOne _ e
    admit-AddsOne true req e = record {
      load_le = omega (arith, length-append e.inflight (req ∷ []));
      outbound_le = omega arith;
    }

    dispatch-AddsOne : (req : Request) (e : Engine S R) → AddsOne e (dispatch reg req e)
    unfolding dispatch
    dispatch-AddsOne req e = elim (Bool-cases (req.method == "hello")) [
      | inl hello ↦ rw hello (greet-AddsOne (run reg req e.shared).0 (run reg req e.shared).1 e)
      | inr other ↦ rw other (admit-AddsOne e.hello_ok req e)
    ]

    take_request-AddsOne : (o : Option Request) (e : Engine S R) → AddsOne e (take_request reg o e)
    unfolding take_request
    take_request-AddsOne none e = emit-AddsOne _ e
    take_request-AddsOne (some req) e = dispatch-AddsOne req e

    module _ (decode_request : List ℕ → Option Request) where
      take_line-AddsOne :
          (line : List ℕ) (e : Engine S R) → AddsOne e (take_line reg decode_request line e)
      unfolding take_line
      take_line-AddsOne [] e = record { load_le = omega arith; outbound_le = omega arith }
      take_line-AddsOne (b ∷ line) e = take_request-AddsOne (decode_request (b ∷ line)) e

      -- An oversized frame has no line, so it is answered once too.
      take_frame-AddsOne :
          (s : Split) (e : Engine S R)
          → AddsOne e (take_frame reg decode_request (frame_of max_line s) e)
      unfolding take_frame frame_of take_line report_oversized
      take_frame-AddsOne s e = elim (Bool-cases (ltb max_line (length s.line))) [
        | inl long ↦ rw long (emit-AddsOne _ e)
        | inr short ↦ rw short (take_line-AddsOne s.line e)
      ]

      pub receive-AddsOne :
          (e : Engine S R)
          → AddsOne e (receive reg decode_request (next_frame reg decode_request e) e)
      unfolding receive
      receive-AddsOne e =
          let a = take_frame-AddsOne (split_line e.input) _ in
          record { load_le = a.load_le; outbound_le = a.outbound_le }

      -- An engine that has not returned can take a step: no order of the steps blocks it.
      pub can_go_on :
          (e : Engine S R) → e.closed ≡ false → (f : Engine S R) × Step reg decode_request e f
      can_go_on e open_ = by_outbound e.outbound refl
        where
          by_reading :
              (b : Bool)
              → e.reading ≡ b
              → e.inflight ≡ []
              → e.outbound ≡ []
              → (f : Engine S R) × Step reg decode_request e f
          by_reading false off idle drained = (_, stop e off idle drained open_)
          by_reading true on idle drained =
              let a = receive-AddsOne e in
              (
                _,
                read e (next_frame reg decode_request e) on
                    (read_frame-frame_of read_buf (omega arith) max_line e.input)
                    (omega (arith, ap length drained, a.outbound_le)),
              )

          by_inflight :
              (l : List Request)
              → e.inflight ≡ l
              → e.outbound ≡ []
              → (f : Engine S R) × Step reg decode_request e f
          by_inflight [] idle drained = by_reading e.reading refl idle drained
          by_inflight (req ∷ after) busy drained =
              (_, finish e [] after req busy (omega (arith, ap length drained)))

          by_outbound :
              (l : List (Response R))
              → e.outbound ≡ l
              → (f : Engine S R) × Step reg decode_request e f
          by_outbound [] drained = by_inflight e.inflight refl drained
          by_outbound (r ∷ rest) full = (_, write e r rest full)
