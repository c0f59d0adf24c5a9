-- ===== src/Server/Session/Ending.antt =====
-- Every run of the engine is finite and can be brought to its end.
use differ_nvim.Common.{
  ℕ, zero, suc, ◌+◌, ◌-◌, ◌*◌, ◌≤◌, ◌<◌, ◌≡◌, sym, ap, ◌∙◌, Bool, true, false, Option, List, [],
  ◌∷◌, arith, length, length-append, Bool-cases, inl, inr,
}
use differ_nvim.Protocol.{Request}
use differ_nvim.Server.Run.{Registry, run}
use differ_nvim.Server.Frame.{max_line}
use differ_nvim.Server.Frame.Cut.{split_line}
use differ_nvim.Server.Session.{
  Engine, emit, goes_on, receive, Step, read, finish, write, stop, Reach, here, next,
}
use differ_nvim.Server.Session.Account.{split_line-shrinks}
use differ_nvim.Server.Session.Answers.{
  take_frame-KeepsLoop, next_frame, read-next_frame, frame_of-rest, frame_of-goes_on,
}
use differ_nvim.Server.Session.Progress.{load, receive-AddsOne, can_go_on}

split_line-rest-le : (bytes : List ℕ) → length (split_line bytes).rest ≤ length bytes
unfolding split_line
split_line-rest-le [] = omega arith
split_line-rest-le (b ∷ bytes) = ground (arith, split_line-rest-le bytes)

abbrev flag : Bool → ℕ
flag true = 1
flag false = 0

module _ {S R : Type 0} (reg : Registry S R) (decode_request : List ℕ → Option Request) where
  -- The work that is left: three units for an unread byte and for the loop itself, two for a
  -- goroutine, one for an answer on the channel and for the end.
  abbrev pub measure : Engine S R → ℕ
  measure e = 3 * length e.input + 3 * flag e.reading + load e + (1 - flag e.closed)

  receive-measure :
      (e : Engine S R)
      → e.reading ≡ true
      → measure (receive reg decode_request (next_frame reg decode_request e) e) < measure e
  unfolding receive
  receive-measure e on =
      let f = next_frame reg decode_request e in
      let s = split_line e.input in
      let e' : Engine S R = record e {
        input = f.rest;
        reading = goes_on reg decode_request f.status;
      } in
      let k = take_frame-KeepsLoop reg decode_request f e' in
      let rest = ap length (k.input ∙ frame_of-rest reg decode_request max_line s) in
      let still = ap flag (k.reading ∙ frame_of-goes_on reg decode_request max_line s) in
      let closed = ap flag k.closed in
      let was_on = ap flag on in
      let a = receive-AddsOne reg decode_request e in
      let shorter = split_line-rest-le e.input in
      elim (Bool-cases s.found) [
        | inl more ↦
            let less = split_line-shrinks e.input more in omega (arith, ap flag more, a.load_le)
        | inr last ↦ omega (arith, ap flag last, a.load_le)
      ]

  -- Each step takes some of the work away.
  pub Step-measure : {e f : Engine S R} → Step reg decode_request e f → measure f < measure e
  unfolding emit
  Step-measure (read e f on got room) =
      rw (sym (read-next_frame reg decode_request e f got)) (receive-measure e on)
  Step-measure (finish e before after req q room) = omega (
    arith,
    ap length q,
    length-append before (req ∷ after),
    length-append before after,
    length-append e.outbound ((run reg req e.shared).0 ∷ []),
  )
  Step-measure (write e r rest q) = omega (arith, ap length q)
  Step-measure (stop e off idle drained open_) = omega (arith, ap flag open_)

  Reach-first :
      {e f g : Engine S R}
      → Step reg decode_request e f
      → Reach reg decode_request f g
      → Reach reg decode_request e g
  Reach-first st here = next here st
  Reach-first st (next r last) = next (Reach-first st r) last

  closes_within :
      (n : ℕ) (e : Engine S R)
      → measure e < n
      → (f : Engine S R) × Reach reg decode_request e f × (f.closed ≡ true)
  closes_within zero e h = elim h [ ]
  closes_within (suc n) e h = elim (Bool-cases e.closed) [
    | inl done ↦ (e, here, done)
    | inr open_ ↦
        let (f, st) = can_go_on reg decode_request e open_ in
        let (g, r, done) = closes_within n f (omega (arith, Step-measure st)) in
        (g, Reach-first st r, done)
  ]

  -- From every state `Run` can still come to its end, and no order of the steps goes on for more
  -- steps than the state's measure.
  pub run_closes :
      (e : Engine S R)
      → ((f : Engine S R) × Reach reg decode_request e f × (f.closed ≡ true))
        × ((f : Engine S R) → Step reg decode_request e f → measure f < measure e)
  run_closes e = (closes_within (suc (measure e)) e (omega arith), λ f st. Step-measure st)
