-- ===== src/Plugin/Lines.antt =====
-- lua/differ/sidecar/init.lua: `consume_lines` over a stream that arrives in chunks.
pub mod Plain
pub mod Chunks
pub mod Logs
use differ_nvim.Common.{
  ℕ, zero, suc, ◌+◌, ◌<◌, ◌≡◌, refl, ◌∙◌, sym, ap, Bool, true, false, List, [], ◌∷◌, ◌++◌,
  append_assoc, append-nil, arith, eqb, length, if◌then◌else◌, Bool-cases, inl, inr,
}
use differ_nvim.Server.Frame.{newline}
use differ_nvim.Server.Frame.Cut.{Split, split_line}
use differ_nvim.Server.Session.Account.{split_line-shrinks}
use differ_nvim.Plugin.Streams.{Line, keep_line, consume_loop, consume_lines}

-- The lines of a stream behind the bytes of a line that began before, with no search: byte by byte.
abbrev pub Cut : Type 0
Cut = List Line × List ℕ

abbrev pub line_before : Line → Cut → Cut
line_before line (lines, rest) = (keep_line line lines, rest)

unfoldable pub cut : List ℕ → List ℕ → Cut
cut before [] = ([], before)
cut before (b ∷ bytes) =
    let next = cut [] bytes in
    let longer = cut (before ++ b ∷ []) bytes in
    if eqb b newline then line_before before next else longer

abbrev pub lines_before : List Line → Cut → Cut
lines_before lines (later, rest) = (lines ++ later, rest)

abbrev pub cut_of : List ℕ → Split → Cut
cut_of before s =
    if s.found then line_before (before ++ s.line) (cut [] s.rest) else ([], before ++ s.line)

line_before-lines :
    (line : Line) (lines : List Line) (c : Cut)
    → line_before line (lines_before lines c) ≡ lines_before (keep_line line lines) c
line_before-lines [] lines c = refl
line_before-lines (b ∷ line) lines c = refl

-- A stream that is cut up to some byte goes on from what is left there.
pub cut-append :
    (before xs ys : List ℕ)
    → cut before (xs ++ ys) ≡ lines_before (cut before xs).0 (cut (cut before xs).1 ys)
unfolding cut
cut-append before [] ys = refl
cut-append before (b ∷ xs) ys = elim (Bool-cases (eqb b newline)) [
  | inl ends ↦
      rw (ends, cut-append [] xs ys) (line_before-lines before (cut [] xs).0 (cut (cut [] xs).1 ys))
  | inr more ↦ rw (more, cut-append (before ++ b ∷ []) xs ys) refl
]

abbrev pub has_newline : List ℕ → Bool
has_newline [] = false
has_newline (b ∷ bytes) = if eqb b newline then true else has_newline bytes

pub cut-plain :
    (before line bytes : List ℕ)
    → has_newline line ≡ false
    → cut before (line ++ bytes) ≡ cut (before ++ line) bytes
unfolding cut
cut-plain before [] bytes plain = rw (append-nil before) refl
cut-plain before (b ∷ line) bytes plain = elim (Bool-cases (eqb b newline)) [
  | inl ends ↦ let bad = rw ends at plain in cc bad
  | inr more ↦ rw more (
      rw (sym (append_assoc before (b ∷ []) line))
        (cut-plain (before ++ b ∷ []) line bytes (rw more at plain)))
]

has_newline-snoc :
    (xs : List ℕ) (b : ℕ)
    → has_newline xs ≡ false
    → eqb b newline ≡ false
    → has_newline (xs ++ b ∷ []) ≡ false
has_newline-snoc [] b h e = rw e refl
has_newline-snoc (x ∷ xs) b h e = elim (Bool-cases (eqb x newline)) [
  | inl ends ↦ let bad = rw ends at h in cc bad
  | inr more ↦ rw more (has_newline-snoc xs b (rw more at h) e)
]

pub cut-rest :
    (before bytes : List ℕ) → has_newline before ≡ false → has_newline (cut before bytes).1 ≡ false
unfolding cut
cut-rest before [] plain = plain
cut-rest before (b ∷ bytes) plain = elim (Bool-cases (eqb b newline)) [
  | inl ends ↦ rw ends (cut-rest [] bytes refl)
  | inr more ↦ rw more (cut-rest (before ++ b ∷ []) bytes (has_newline-snoc before b plain more))
]

-- The search for a newline finds what the cut finds byte by byte.
cut-split : (before bytes : List ℕ) → cut before bytes ≡ cut_of before (split_line bytes)
unfolding cut split_line
cut-split before [] = rw (append-nil before) refl
cut-split before (b ∷ bytes) = elim (Bool-cases (eqb b newline)) [
  | inl ends ↦ rw (ends, append-nil before) refl
  | inr more ↦
      rw
        (
          more,
          cut-split (before ++ b ∷ []) bytes,
          append_assoc before (b ∷ []) (split_line bytes).line,
        )
        refl
]

split_line-unfound :
    (bytes : List ℕ) → (split_line bytes).found ≡ false → (split_line bytes).line ≡ bytes
unfolding split_line
split_line-unfound [] h = refl
split_line-unfound (b ∷ bytes) h = elim (Bool-cases (eqb b newline)) [
  | inl ends ↦ let bad = rw ends at h in cc bad
  | inr more ↦ rw (more, split_line-unfound bytes (rw more at h)) refl
]

consume_loop-cut :
    (fuel : ℕ) (bytes : List ℕ) → length bytes < fuel → consume_loop fuel bytes ≡ cut [] bytes
unfolding consume_loop
consume_loop-cut zero bytes l = elim l [ ]
consume_loop-cut (suc fuel) bytes l = elim (Bool-cases (split_line bytes).found) [
  | inl more ↦
      let less = split_line-shrinks bytes more in
      rw (cut-split [] bytes, more, consume_loop-cut fuel (split_line bytes).rest (omega arith))
        refl
  | inr last ↦ rw (cut-split [] bytes, last, split_line-unfound bytes last) refl
]

-- `consume_lines`, with the fuel it gives itself, cuts the bytes as one goes through them.
pub consume_lines-cut : (bytes : List ℕ) → consume_lines bytes ≡ cut [] bytes
unfolding consume_lines
consume_lines-cut bytes = consume_loop-cut (suc (length bytes)) bytes (omega arith)

-- The stream of lines that are each ended by a newline.
unfoldable pub stream_of : List Line → List ℕ
stream_of [] = []
stream_of (line ∷ lines) = line ++ newline ∷ stream_of lines

abbrev pub AreLines : List Line → Type 0
AreLines [] = Unit
AreLines (line ∷ lines) = ((has_newline line ≡ false) × ((line ≡ []) → ⊥)) × AreLines lines

keep_line-solid :
    (line : Line) (lines : List Line) → ((line ≡ []) → ⊥) → keep_line line lines ≡ line ∷ lines
keep_line-solid [] lines solid = elim (solid refl) [ ]
keep_line-solid (b ∷ line) lines solid = refl

pub cut-stream : (lines : List Line) → AreLines lines → cut [] (stream_of lines) ≡ (lines, [])
unfolding stream_of cut
cut-stream [] are = refl
cut-stream (line ∷ lines) ((plain, solid), are) =
    rw
      (
        cut-plain [] line (newline ∷ stream_of lines) plain,
        cut-stream lines are,
        keep_line-solid line lines solid,
      )
      refl
