-- ===== src/Server/Frame/Cut.antt =====
-- One read of a chunk, against the division of the stream into lines.
use differ_nvim.Common.{
  ℕ, zero, suc, ◌+◌, ◌≡◌, refl, Bool, true, false, List, [], ◌∷◌, ◌++◌, arith, eqb, length,
  if◌then◌else◌, Bool-cases, inl, inr,
}
use differ_nvim.Server.Frame.{
  newline, Status, fine, buffer_full, stream_end, Slice, read_slice, trim_suffix,
}

-- The first line of a stream, with no notion of a buffer.
pub record Split : Type 0 where
  pub line : List ℕ
  pub rest : List ℕ
  pub found : Bool

abbrev pub cons_split : ℕ → Split → Split
cons_split b s = record s { line = b ∷ s.line }

unfoldable pub split_line : List ℕ → Split
split_line [] = record { line = []; rest = []; found = false }
split_line (b ∷ bytes) =
    if eqb b newline
    then record { line = []; rest = bytes; found = true }
    else cons_split b (split_line bytes)

abbrev pub prepend : List ℕ → Split → Split
prepend chunk s = record s { line = chunk ++ s.line }

-- How a slice of `size` bytes at most cuts the stream.
abbrev pub Cuts : ℕ → List ℕ → List ℕ → List ℕ → Status → Type 0
Cuts size bytes chunk rest buffer_full =
    (split_line bytes ≡ prepend chunk (split_line rest)) × (length rest + size ≡ length bytes)
Cuts size bytes chunk rest fine =
    split_line bytes ≡ record { line = trim_suffix chunk; rest = rest; found = true }
Cuts size bytes chunk rest stream_end =
    split_line bytes ≡ record { line = trim_suffix chunk; rest = rest; found = false }

abbrev pub CutsSlice : ℕ → List ℕ → Slice → Type 0
CutsSlice size bytes s = Cuts size bytes s.chunk s.rest s.status

trim_suffix-cons :
    (b : ℕ) (bytes : List ℕ)
    → eqb b newline ≡ false
    → trim_suffix (b ∷ bytes) ≡ b ∷ trim_suffix bytes
unfolding trim_suffix
trim_suffix-cons b [] h = rw h
trim_suffix-cons b (c ∷ bytes) h = refl

Cuts-cons :
    (size b : ℕ) (bytes chunk rest : List ℕ) (status : Status)
    → eqb b newline ≡ false
    → Cuts size bytes chunk rest status
    → Cuts (suc size) (b ∷ bytes) (b ∷ chunk) rest status
unfolding split_line
Cuts-cons size b bytes chunk rest buffer_full h (e, n) = (rw (h, e), omega arith)
Cuts-cons size b bytes chunk rest fine h e = rw (h, e, trim_suffix-cons b chunk h)
Cuts-cons size b bytes chunk rest stream_end h e = rw (h, e, trim_suffix-cons b chunk h)

pub read_slice_cuts : (size : ℕ) (bytes : List ℕ) → CutsSlice size bytes (read_slice size bytes)
unfolding read_slice split_line trim_suffix
read_slice_cuts zero bytes = (refl, omega arith)
read_slice_cuts (suc n) [] = refl
read_slice_cuts (suc n) (b ∷ bytes) = elim (Bool-cases (eqb b newline)) [
  | inl e ↦ rw (e, e)
  | inr e ↦
      let s = read_slice n bytes in
      rw (e, read_slice) (Cuts-cons n b bytes s.chunk s.rest s.status e (read_slice_cuts n bytes))
]
