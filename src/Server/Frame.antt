-- ===== src/Server/Frame.antt =====
-- internal/server/server.go: `readFrame` and `discardFrame` over a `bufio.Reader`. The stream is the
-- list of the bytes that the reader will still deliver before it reports its end (end of file, or
-- any other error of the source).
pub mod Cut
pub mod Lines
use differ_nvim.Common.{
  ℕ, zero, suc, ◌*◌, Bool, true, false, Option, none, some, List, [], ◌∷◌, ◌++◌, ltb, eqb, length,
  if◌then◌else◌,
}

-- `maxLine`
abbrev pub max_line : ℕ
max_line = 16 * 1024 * 1024

-- `readBuf`
abbrev pub read_buf : ℕ
read_buf = 64 * 1024

abbrev pub newline : ℕ
newline = b'\n'

-- What a read reports: no error, `bufio.ErrBufferFull`, or the error that ends the stream.
pub data Status : Type 0 where
  fine buffer_full stream_end : Status

abbrev pub is_full : Status → Bool
is_full buffer_full = true
is_full _ = false

pub record Slice : Type 0 where
  pub chunk : List ℕ
  pub rest : List ℕ
  pub status : Status

abbrev pub cons_slice : ℕ → Slice → Slice
cons_slice b s = record s { chunk = b ∷ s.chunk }

-- `Reader.ReadSlice('\n')` with a buffer of the given size: up to and with the first newline, or a
-- full buffer without one, or all that is left.
unfoldable pub read_slice : ℕ → List ℕ → Slice
read_slice zero bytes = record { chunk = []; rest = bytes; status = buffer_full }
read_slice (suc n) [] = record { chunk = []; rest = []; status = stream_end }
read_slice (suc n) (b ∷ bytes) =
    if eqb b newline
    then record { chunk = b ∷ []; rest = bytes; status = fine }
    else cons_slice b (read_slice n bytes)

-- `bytes.TrimSuffix(chunk, "\n")`
unfoldable pub trim_suffix : List ℕ → List ℕ
trim_suffix [] = []
trim_suffix (b ∷ []) = if eqb b newline then [] else b ∷ []
trim_suffix (b ∷ c ∷ bytes) = b ∷ trim_suffix (c ∷ bytes)

-- The results of `readFrame`; `rest` is the reader afterwards.
pub record Frame : Type 0 where
  pub line : List ℕ
  pub oversized : Bool
  pub status : Status
  pub rest : List ℕ

abbrev pub too_long : Status → List ℕ → Frame
too_long status rest = record { line = []; oversized = true; status = status; rest = rest }

module _ (size : ℕ) where
  -- The loop of `discardFrame`, with fuel; `none` means that the fuel ran out.
  unfoldable pub discard_frame : ℕ → List ℕ → Option (Status × List ℕ)
  discard_frame zero bytes = none
  discard_frame (suc fuel) bytes =
      let s = read_slice size bytes in
      let more = discard_frame fuel s.rest in
      if is_full s.status then more else some (s.status, s.rest)

  abbrev pub discarded : Option (Status × List ℕ) → Option Frame
  discarded none = none
  discarded (some (status, rest)) = some (too_long status rest)

  module _ (cap : ℕ) where
    -- The loop of `readFrame`; `line` holds what earlier chunks gave.
    unfoldable pub frame_loop : ℕ → List ℕ → List ℕ → Option Frame
    frame_loop zero line bytes = none
    frame_loop (suc fuel) line bytes =
        let s = read_slice size bytes in
        let line' = line ++ (if is_full s.status then s.chunk else trim_suffix s.chunk) in
        let dropped = discarded (discard_frame fuel s.rest) in
        let more = frame_loop fuel line' s.rest in
        if ltb cap (length line')
        then (if is_full s.status then dropped else some (too_long s.status s.rest))
        else if is_full s.status
        then more
        else some (record { line = line'; oversized = false; status = s.status; rest = s.rest })

    -- `readFrame`
    unfoldable pub read_frame : List ℕ → Option Frame
    unfolding frame_loop
    read_frame bytes = frame_loop (suc (length bytes)) [] bytes
