-- ===== src/Server/Session/Answers.antt =====
-- Every frame of the input is answered exactly once, whatever the order of the steps.
use differ_nvim.Common.{
  ℕ, ◌+◌, ◌≡◌, refl, sym, ap, ap₂, ◌∙◌, Bool, true, false, Option, none, some, List, [], ◌∷◌, arith,
  if◌then◌else◌, ◌==◌, Bool-cases, inl, inr, middle-ne-nil,
}
use differ_nvim.Common.Int.{ℤ}
use differ_nvim.Protocol.{Request, Response}
use differ_nvim.Server.Run.{Registry, run}
use differ_nvim.Server.Frame.{Frame, max_line, read_buf, read_frame}
use differ_nvim.Server.Frame.Cut.{Split, split_line}
use differ_nvim.Server.Frame.Lines.{frame_of, read_frame-frame_of}
use differ_nvim.Server.Session.{
  Engine, start, emit, greet, admit, dispatch, take_request, report_oversized, take_line,
  take_frame, goes_on, receive, Step, read, finish, write, stop, Reach, here, next,
}
use differ_nvim.Server.Session.Account.{
  count, count-append, count-snoc, count-middle, response_ids, request_ids, frame_ids, input_ids,
  input_ids_step, run-id, held, held-take_frame, unread, Balances,
}

-- The fields that only the loop of `Run` and its end write.
pub record KeepsLoop {S R : Type 0} (e f : Engine S R) : Type 0 where
  pub input : f.input ≡ e.input
  pub reading : f.reading ≡ e.reading
  pub closed : f.closed ≡ e.closed

module _ {S R : Type 0} (reg : Registry S R) where
  admit-KeepsLoop : (b : Bool) (req : Request) (e : Engine S R) → KeepsLoop e (admit b req e)
  unfolding admit
  admit-KeepsLoop false req e = record { input = refl; reading = refl; closed = refl }
  admit-KeepsLoop true req e = record { input = refl; reading = refl; closed = refl }

  dispatch-KeepsLoop : (req : Request) (e : Engine S R) → KeepsLoop e (dispatch reg req e)
  unfolding dispatch greet
  dispatch-KeepsLoop req e = elim (Bool-cases (req.method == "hello")) [
    | inl hello ↦ rw hello (record { input = refl; reading = refl; closed = refl })
    | inr other ↦ rw other (admit-KeepsLoop e.hello_ok req e)
  ]

  take_request-KeepsLoop :
      (o : Option Request) (e : Engine S R) → KeepsLoop e (take_request reg o e)
  unfolding take_request
  take_request-KeepsLoop none e = record { input = refl; reading = refl; closed = refl }
  take_request-KeepsLoop (some req) e = dispatch-KeepsLoop req e

  report_oversized-KeepsLoop : (b : Bool) (e : Engine S R) → KeepsLoop e (report_oversized reg b e)
  unfolding report_oversized
  report_oversized-KeepsLoop true e = record { input = refl; reading = refl; closed = refl }
  report_oversized-KeepsLoop false e = record { input = refl; reading = refl; closed = refl }

  module _ (decode_request : List ℕ → Option Request) where
    take_line-KeepsLoop :
        (line : List ℕ) (e : Engine S R) → KeepsLoop e (take_line reg decode_request line e)
    unfolding take_line
    take_line-KeepsLoop [] e = record { input = refl; reading = refl; closed = refl }
    take_line-KeepsLoop (b ∷ line) e = take_request-KeepsLoop (decode_request (b ∷ line)) e

    pub take_frame-KeepsLoop :
        (f : Frame) (e : Engine S R) → KeepsLoop e (take_frame reg decode_request f e)
    unfolding take_frame
    take_frame-KeepsLoop f e =
        let first = report_oversized-KeepsLoop f.oversized e in
        let k = take_line-KeepsLoop f.line (report_oversized reg f.oversized e) in
        record {
          input = k.input ∙ first.input;
          reading = k.reading ∙ first.reading;
          closed = k.closed ∙ first.closed;
        }

    -- The frame that the reader has next.
    abbrev pub next_frame : Engine S R → Frame
    next_frame e = frame_of max_line (split_line e.input)

    pub read-next_frame :
        (e : Engine S R) (f : Frame)
        → read_frame read_buf max_line e.input ≡ some f
        → next_frame e ≡ f
    read-next_frame e f h = cc (read_frame-frame_of read_buf (omega arith) max_line e.input)

    pub frame_of-rest : (cap : ℕ) (s : Split) → (frame_of cap s).rest ≡ s.rest
    unfolding frame_of
    frame_of-rest cap s = ground arith

    pub frame_of-goes_on :
        (cap : ℕ) (s : Split) → goes_on reg decode_request (frame_of cap s).status ≡ s.found
    unfolding frame_of
    frame_of-goes_on cap s = ground arith

    module _ (a : ℤ) where
      unread_step :
          (found : Bool) (rest : List ℕ)
          → count a (if found then input_ids decode_request rest else [])
            ≡ unread reg decode_request a found rest
      unread_step true rest = refl
      unread_step false rest = refl

      -- One round of the loop moves ids from the input into the engine, and loses none.
      receive-held :
          (e : Engine S R)
          → held reg decode_request a (receive reg decode_request (next_frame e) e)
              + unread reg decode_request a
                  (receive reg decode_request (next_frame e) e).reading
                  (receive reg decode_request (next_frame e) e).input
            ≡ held reg decode_request a e + count a (input_ids decode_request e.input)
      unfolding receive
      receive-held e =
          let f = next_frame e in
          let s = split_line e.input in
          let e' : Engine S R = record e {
            input = f.rest;
            reading = goes_on reg decode_request f.status;
          } in
          let k = take_frame-KeepsLoop f e' in
          let left =
            ap₂ (unread reg decode_request a) (k.reading ∙ frame_of-goes_on max_line s)
              (k.input ∙ frame_of-rest max_line s) in
          omega (
            arith,
            left,
            held-take_frame reg decode_request a f e',
            unread_step s.found s.rest,
            ap (count a) (input_ids_step decode_request e.input),
            count-append a (frame_ids decode_request f)
                (if s.found then input_ids decode_request s.rest else []),
          )

      Step-Balances :
          (input : List ℕ) {e f : Engine S R}
          → Step reg decode_request e f
          → Balances reg decode_request a e input
          → Balances reg decode_request a f input
      unfolding emit
      Step-Balances input (read e f on got room) b =
          rw (sym (read-next_frame e f got)) (receive-held e ∙ (rw on at b))
      Step-Balances input (finish e before after req q room) b = omega (
        arith,
        ap (λ l. count a (request_ids l)) q,
        count-middle a (λ (r : Request). r.id) before req after,
        count-snoc a (λ (r : Response R). r.id) e.outbound (run reg req e.shared).0,
        ap (λ i. count a (i ∷ [])) (run-id reg req e.shared),
      )
      Step-Balances input (write e r rest q) b = omega (
        arith,
        ap (λ l. count a (response_ids l)) q,
        count-snoc a (λ (r : Response R). r.id) e.written r,
      )
      Step-Balances input (stop e done none_left drained open_) b = b

    -- What a closed engine is done with.
    record IsDone (e : Engine S R) : Type 0 where
      reading : e.reading ≡ false
      inflight : e.inflight ≡ []
      outbound : e.outbound ≡ []

    Step-IsDone :
        {e f : Engine S R}
        → Step reg decode_request e f
        → (e.closed ≡ true → IsDone e)
        → f.closed ≡ true
        → IsDone f
    unfolding emit receive
    Step-IsDone (read e f on got room) d h =
        let k =
          take_frame-KeepsLoop f
            (record e { input = f.rest; reading = goes_on reg decode_request f.status }) in
        let now_on = d (sym k.closed ∙ h) in cc (now_on.reading)
    Step-IsDone (finish e before after req q room) d h =
        absurd (middle-ne-nil before req after (sym q ∙ (d h).inflight))
    Step-IsDone (write e r rest q) d h = let done = d h in cc (done.outbound)
    Step-IsDone (stop e done none_left drained open_) d h = record {
      reading = done;
      inflight = none_left;
      outbound = drained;
    }

    module _ (s : S) (input : List ℕ) where
      Reach-Balances :
          (a : ℤ) {e : Engine S R}
          → Reach reg decode_request (start s input) e
          → Balances reg decode_request a e input
      unfolding start
      Reach-Balances a here = omega arith
      Reach-Balances a (next r st) = Step-Balances a input st (Reach-Balances a r)

      Reach-IsDone :
          {e : Engine S R} → Reach reg decode_request (start s input) e → e.closed ≡ true → IsDone e
      unfolding start
      Reach-IsDone here = λ h. cc
      Reach-IsDone (next r st) = Step-IsDone st (Reach-IsDone r)

      -- When `Run` has returned, the ids of what it wrote are, each as often, the ids of the frames
      -- of its input: one answer for each request, and one with id 0 for each frame that is too
      -- long or no request.
      pub answers_once :
          {e : Engine S R}
          → Reach reg decode_request (start s input) e
          → e.closed ≡ true
          → (a : ℤ) → count a (response_ids e.written) ≡ count a (input_ids decode_request input)
      answers_once {e} r h a =
          let d = Reach-IsDone r h in
          omega (
            arith,
            Reach-Balances a r,
            ap (λ l. count a (response_ids l)) d.outbound,
            ap (λ l. count a (request_ids l)) d.inflight,
            ap (λ b. unread reg decode_request a b e.input) d.reading,
          )
