-- ===== src/Server/Session/Account.antt =====
-- Every frame of the input is answered exactly once, whatever the order of the steps.
use differ_nvim.Common.{
  ℕ, zero, suc, ◌+◌, ◌<◌, ◌≡◌, refl, ap, ◌∙◌, Bool, true, false, Option, none, some, List, [], ◌∷◌,
  ◌++◌, map, arith, length, if◌then◌else◌, ◌==◌, Bool-cases, Option-cases, inl, inr,
}
use differ_nvim.Common.Int.{ℤ, pos, eqb_ℤ}
use differ_nvim.Protocol.{ok, err, Request, Response}
use differ_nvim.Server.Run.{
  Outcome, returned, panicked, Registry, run, settle, fail, bad_request, unknown_method,
}
use differ_nvim.Server.Frame.{Frame, max_line}
use differ_nvim.Server.Frame.Cut.{split_line}
use differ_nvim.Server.Frame.Lines.{frame_of}
use differ_nvim.Server.Session.{
  Engine, emit, greet, admit, dispatch, take_request, report_oversized, take_line, take_frame,
}

-- How often an id occurs.
abbrev pub count : ℤ → List ℤ → ℕ
count a [] = 0
count a (x ∷ xs) = (if eqb_ℤ a x then 1 else 0) + count a xs

pub count-append : (a : ℤ) (xs ys : List ℤ) → count a (xs ++ ys) ≡ count a xs + count a ys
count-append a [] ys = omega arith
count-append a (x ∷ xs) ys = omega (arith, count-append a xs ys)

pub count-snoc :
    {A : Type 0} (a : ℤ) (f : A → ℤ) (xs : List A) (x : A)
    → count a (map f (xs ++ x ∷ [])) ≡ count a (map f xs) + count a (f x ∷ [])
count-snoc a f [] x = omega arith
count-snoc a f (y ∷ xs) x = omega (arith, count-snoc a f xs x)

pub count-middle :
    {A : Type 0} (a : ℤ) (f : A → ℤ) (xs : List A) (x : A) (ys : List A)
    → count a (map f (xs ++ x ∷ ys)) ≡ count a (map f (xs ++ ys)) + count a (f x ∷ [])
count-middle a f [] x ys = omega arith
count-middle a f (y ∷ xs) x ys = omega (arith, count-middle a f xs x ys)

abbrev pub response_ids : {R : Type 0} → List (Response R) → List ℤ
response_ids = map (λ r. r.id)

abbrev pub request_ids : List Request → List ℤ
request_ids = map (λ r. r.id)

-- The ids that the answers to a frame must carry: the request's, or 0 where none can be read.
abbrev pub reply_ids : Option Request → List ℤ
reply_ids none = pos 0 ∷ []
reply_ids (some r) = r.id ∷ []

pub split_line-shrinks :
    (bytes : List ℕ)
    → (split_line bytes).found ≡ true
    → length (split_line bytes).rest < length bytes
unfolding split_line
split_line-shrinks [] h = cc
split_line-shrinks (b ∷ bytes) h = ground (arith, split_line-shrinks bytes)

module _ (decode_request : List ℕ → Option Request) where
  abbrev pub line_ids : List ℕ → List ℤ
  line_ids [] = []
  line_ids (b ∷ line) = reply_ids (decode_request (b ∷ line))

  abbrev pub frame_ids : Frame → List ℤ
  frame_ids f = (if f.oversized then pos 0 ∷ [] else []) ++ line_ids f.line

  -- The ids of all frames of a stream, with fuel.
  unfoldable pub ids_loop : ℕ → List ℕ → List ℤ
  ids_loop zero bytes = []
  ids_loop (suc fuel) bytes =
      let s = split_line bytes in
      let more = ids_loop fuel s.rest in
      frame_ids (frame_of max_line s) ++ (if s.found then more else [])

  unfoldable pub input_ids : List ℕ → List ℤ
  unfolding ids_loop
  input_ids bytes = ids_loop (suc (length bytes)) bytes

  ids_loop_fuel :
      (m n : ℕ) (bytes : List ℕ)
      → length bytes < m
      → length bytes < n
      → ids_loop m bytes ≡ ids_loop n bytes
  unfolding ids_loop
  ids_loop_fuel zero n bytes h k = elim h [ ]
  ids_loop_fuel (suc m) zero bytes h k = elim k [ ]
  ids_loop_fuel (suc m) (suc n) bytes h k = elim (Bool-cases (split_line bytes).found) [
    | inl more ↦
        let less = split_line-shrinks bytes more in
        rw (more, ids_loop_fuel m n (split_line bytes).rest (omega arith) (omega arith))
    | inr last ↦ rw last
  ]

  -- The ids of a stream are those of its first frame and those of the rest.
  pub input_ids_step :
      (bytes : List ℕ)
      → input_ids bytes
        ≡ frame_ids (frame_of max_line (split_line bytes))
          ++ (if (split_line bytes).found then input_ids (split_line bytes).rest else [])
  unfolding input_ids
  input_ids_step bytes = elim (Bool-cases (split_line bytes).found) [
    | inl more ↦
        let less = split_line-shrinks bytes more in
        rw (
          more,
          ids_loop_fuel (length bytes) (suc (length (split_line bytes).rest))
              (split_line bytes).rest less (omega arith),
        )
    | inr last ↦ rw last
  ]

module _ {S R : Type 0} (reg : Registry S R) where
  settle-id : (id : ℤ) (o : Outcome R) → (settle id o).id ≡ id
  unfolding settle
  settle-id id (returned (ok r)) = refl
  settle-id id (returned (err e)) = refl
  settle-id id panicked = refl

  pub run-id : (req : Request) (s : S) → (run reg req s).0.id ≡ req.id
  unfolding run unknown_method
  run-id req s = elim (Option-cases (reg req.method)) [
    | inl bad ↦ rw (bad, run)
    | inr (h, good) ↦ rw (good, run) (settle-id req.id (h req.params s).0)
  ]

  module _ (decode_request : List ℕ → Option Request) (a : ℤ) where
    -- How often `a` still has to be answered or has been answered, without the unread input.
    abbrev pub held : Engine S R → ℕ
    held e =
        count a (response_ids e.written)
        + count a (response_ids e.outbound)
        + count a (request_ids e.inflight)

    pub held-emit :
        (r : Response R) (e : Engine S R) → held (emit r e) ≡ held e + count a (r.id ∷ [])
    unfolding emit
    held-emit r e = omega (arith, count-snoc a (λ (q : Response R). q.id) e.outbound r)

    held-greet :
        (r : Response R) (s : S) (e : Engine S R)
        → held (greet (r, s) e) ≡ held e + count a (r.id ∷ [])
    unfolding greet
    held-greet r s e = omega (arith, count-snoc a (λ (q : Response R). q.id) e.outbound r)

    held-admit :
        (b : Bool) (req : Request) (e : Engine S R)
        → held (admit b req e) ≡ held e + count a (req.id ∷ [])
    unfolding admit bad_request fail
    held-admit false req e = held-emit _ e
    held-admit true req e = omega (arith, count-snoc a (λ (q : Request). q.id) e.inflight req)

    held-dispatch :
        (req : Request) (e : Engine S R)
        → held (dispatch reg req e) ≡ held e + count a (req.id ∷ [])
    unfolding dispatch
    held-dispatch req e = elim (Bool-cases (req.method == "hello")) [
      | inl hello ↦ rw hello (
          held-greet (run reg req e.shared).0 (run reg req e.shared).1 e
          ∙ ap (λ i. held e + count a (i ∷ [])) (run-id req e.shared))
      | inr other ↦ rw other (held-admit e.hello_ok req e)
    ]

    held-take_request :
        (o : Option Request) (e : Engine S R)
        → held (take_request reg o e) ≡ held e + count a (reply_ids o)
    unfolding take_request bad_request fail
    held-take_request none e = held-emit _ e
    held-take_request (some req) e = held-dispatch req e

    held-report_oversized :
        (b : Bool) (e : Engine S R)
        → held (report_oversized reg b e) ≡ held e + count a (if b then pos 0 ∷ [] else [])
    unfolding report_oversized bad_request fail
    held-report_oversized true e = held-emit _ e
    held-report_oversized false e = omega arith

    held-take_line :
        (line : List ℕ) (e : Engine S R)
        → held (take_line reg decode_request line e)
          ≡ held e + count a (line_ids decode_request line)
    unfolding take_line
    held-take_line [] e = omega arith
    held-take_line (b ∷ line) e = held-take_request (decode_request (b ∷ line)) e

    pub held-take_frame :
        (f : Frame) (e : Engine S R)
        → held (take_frame reg decode_request f e) ≡ held e + count a (frame_ids decode_request f)
    unfolding take_frame
    held-take_frame f e = omega (
      arith,
      held-take_line f.line (report_oversized reg f.oversized e),
      held-report_oversized f.oversized e,
      count-append a (if f.oversized then pos 0 ∷ [] else []) (line_ids decode_request f.line),
    )

    -- What is left of the input, as far as it will be read.
    abbrev pub unread : Bool → List ℕ → ℕ
    unread true bytes = count a (input_ids decode_request bytes)
    unread false bytes = 0

    abbrev pub Balances : Engine S R → List ℕ → Type 0
    Balances e input = held e + unread e.reading e.input ≡ count a (input_ids decode_request input)
