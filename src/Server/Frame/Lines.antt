-- ===== src/Server/Frame/Lines.antt =====
-- `readFrame` gives the lines of the stream, whatever the size of the reader's buffer.
use differ_nvim.Common.{
  ℕ, zero, suc, ◌<◌, ◌≡◌, sym, ◌∙◌, Bool, true, false, some, List, [], ◌++◌, arith, ltb, length,
  length-append, append_assoc, if◌then◌else◌, Bool-cases, inl, inr,
}
use differ_nvim.Server.Frame.{
  Status, fine, buffer_full, stream_end, Frame, read_slice, trim_suffix, too_long, is_full,
  discard_frame, discarded, frame_loop, read_frame,
}
use differ_nvim.Server.Frame.Cut.{Split, split_line, prepend, Cuts, read_slice_cuts}

abbrev pub end_status : Bool → Status
end_status found = if found then fine else stream_end

-- The frame that a line stands for: the line, or the report that it is longer than the cap.
unfoldable pub frame_of : ℕ → Split → Frame
frame_of cap s =
    if ltb cap (length s.line)
    then too_long (end_status s.found) s.rest
    else record { line = s.line; oversized = false; status = end_status s.found; rest = s.rest }

long-append :
    (cap : ℕ) (xs ys zs : List ℕ)
    → ltb cap (length (xs ++ ys)) ≡ true
    → ltb cap (length (xs ++ (ys ++ zs))) ≡ true
long-append cap xs ys zs h =
    rw (sym (append_assoc xs ys zs)) (ground (arith, length-append (xs ++ ys) zs))

-- What `discardFrame` has to report of a stream.
abbrev ends : List ℕ → Status × List ℕ
ends bytes = (end_status (split_line bytes).found, (split_line bytes).rest)

module _ (size : ℕ) (positive : 0 < size) where
  discard_step :
      (fuel : ℕ) (bytes chunk rest : List ℕ) (status : Status)
      → length bytes < suc fuel
      → (length rest < fuel → discard_frame size fuel rest ≡ some (ends rest))
      → Cuts size bytes chunk rest status
      → (if is_full status then discard_frame size fuel rest else some (status, rest))
        ≡ some (ends bytes)
  discard_step fuel bytes chunk rest buffer_full h ih (e, n) = ih (omega arith) ∙ rw e
  discard_step fuel bytes chunk rest fine h ih e = rw e
  discard_step fuel bytes chunk rest stream_end h ih e = rw e

  discard_cut :
      (fuel : ℕ) (bytes : List ℕ)
      → length bytes < fuel
      → discard_frame size fuel bytes ≡ some (ends bytes)
  unfolding discard_frame
  discard_cut zero bytes h = elim h [ ]
  discard_cut (suc fuel) bytes h =
      let s = read_slice size bytes in
      discard_step fuel bytes s.chunk s.rest s.status h (discard_cut fuel s.rest)
        (read_slice_cuts size bytes)

  module _ (cap : ℕ) where
    frame_step :
        (fuel : ℕ) (line bytes chunk rest : List ℕ) (status : Status)
        → length bytes < suc fuel
        → ((line' : List ℕ)
            → length rest < fuel
            → frame_loop size cap fuel line' rest
              ≡ some (frame_of cap (prepend line' (split_line rest))))
        → Cuts size bytes chunk rest status
        → (let line' = line ++ (if is_full status then chunk else trim_suffix chunk) in
            if ltb cap (length line')
            then (if is_full status
                then discarded size (discard_frame size fuel rest)
                else some (too_long status rest))
            else if is_full status
            then frame_loop size cap fuel line' rest
            else some (record { line = line'; oversized = false; status = status; rest = rest }))
          ≡ some (frame_of cap (prepend line (split_line bytes)))
    unfolding frame_of
    frame_step fuel line bytes chunk rest buffer_full h ih (e, n) =
        elim (Bool-cases (ltb cap (length (line ++ chunk)))) [
          | inl long ↦ rw (
            long,
            discard_cut fuel rest (omega arith),
            e,
            long-append cap line chunk (split_line rest).line long,
          )
          | inr short ↦ rw (short, ih (line ++ chunk) (omega arith), e, append_assoc)
        ]
    frame_step fuel line bytes chunk rest fine h ih e =
        elim (Bool-cases (ltb cap (length (line ++ trim_suffix chunk)))) [
          | inl long ↦ rw (long, e, long)
          | inr short ↦ rw (short, e, short)
        ]
    frame_step fuel line bytes chunk rest stream_end h ih e =
        elim (Bool-cases (ltb cap (length (line ++ trim_suffix chunk)))) [
          | inl long ↦ rw (long, e, long)
          | inr short ↦ rw (short, e, short)
        ]

    frame_loop_cut :
        (fuel : ℕ) (line bytes : List ℕ)
        → length bytes < fuel
        → frame_loop size cap fuel line bytes
          ≡ some (frame_of cap (prepend line (split_line bytes)))
    unfolding frame_loop
    frame_loop_cut zero line bytes h = elim h [ ]
    frame_loop_cut (suc fuel) line bytes h =
        let s = read_slice size bytes in
        frame_step fuel line bytes s.chunk s.rest s.status h (λ l. frame_loop_cut fuel l s.rest)
          (read_slice_cuts size bytes)

    -- With a buffer of any positive size `readFrame` ends and gives the next line of the stream
    -- without its newline, or, if that is longer than the cap, an oversized report; in both cases
    -- the reader then stands behind the line, and the status tells a newline from the stream's end.
    pub read_frame-frame_of :
        (bytes : List ℕ) → read_frame size cap bytes ≡ some (frame_of cap (split_line bytes))
    unfolding read_frame
    read_frame-frame_of bytes = frame_loop_cut (suc (length bytes)) [] bytes (omega arith)
