-- ===== src/Plugin/Tail.antt =====
-- lua/differ/sidecar/init.lua: the lines of the log that an error carries.
use differ_nvim.Common.{
  ℕ, suc, ◌+◌, ◌<◌, ◌≤◌, ◌≡◌, refl, ap, ◌∙◌, sym, List, [], ◌∷◌, ◌++◌, append_assoc, append-nil,
  arith, length, length-append, take, ltb, Bool-cases, inl, inr,
}
use differ_nvim.Server.Frame.{newline}
use differ_nvim.Plugin.Streams.{
  Line, stderr_bytes, ellipsis, cut_line, tail_loop, join_lines, reverse_onto, with_tail,
}

-- What is shown of a log: all of it, where it is within the budget, with its newlines; the longest run of
-- whole last lines that is, behind a line that would exceed it; or the head of the last line, if that
-- alone is above the budget.
pub data Tail (lines : List Line) : List Line → Type 0 where
  all : length (join_lines lines) ≤ stderr_bytes → Tail lines lines
  last :
      (older : List Line) (over line : Line) (tail : List Line)
      → lines ≡ older ++ over ∷ line ∷ tail
      → length (join_lines (line ∷ tail)) ≤ stderr_bytes
      → stderr_bytes < length (join_lines (over ∷ line ∷ tail))
      → Tail lines (line ∷ tail)
  cut :
      (older : List Line) (line : Line)
      → lines ≡ older ++ line ∷ []
      → stderr_bytes < length line
      → Tail lines ((take stderr_bytes line ++ ellipsis) ∷ [])

-- The sizes of lines with a newline each.
abbrev size_of : List Line → ℕ
size_of [] = 0
size_of (l ∷ ls) = length l + 1 + size_of ls

join_lines-size : (l : Line) (ls : List Line) → length (join_lines (l ∷ ls)) + 1 ≡ size_of (l ∷ ls)
unfolding join_lines
join_lines-size l [] = omega arith
join_lines-size l (m ∷ ls) =
    omega (arith, join_lines-size m ls, length-append l (newline ∷ join_lines (m ∷ ls)))

join_lines-fit :
    (ls : List Line) → size_of ls ≤ suc stderr_bytes → length (join_lines ls) ≤ stderr_bytes
unfolding join_lines
join_lines-fit [] h = omega arith
join_lines-fit (l ∷ ls) h = omega (arith, join_lines-size l ls)

reverse_onto-append : (xs ys : List Line) → reverse_onto xs ys ≡ reverse_onto xs [] ++ ys
unfolding reverse_onto
reverse_onto-append [] ys = refl
reverse_onto-append (x ∷ xs) ys =
    reverse_onto-append xs (x ∷ ys)
    ∙ sym (append_assoc (reverse_onto xs []) (x ∷ []) ys)
    ∙ ap (λ l. l ++ ys) (sym (reverse_onto-append xs (x ∷ [])))

reverse_onto-twice :
    (xs ys zs : List Line) → reverse_onto (reverse_onto xs ys) zs ≡ reverse_onto ys (xs ++ zs)
unfolding reverse_onto
reverse_onto-twice [] ys zs = refl
reverse_onto-twice (x ∷ xs) ys zs = reverse_onto-twice xs (x ∷ ys) zs

cut_line-Tail :
    (line : Line) (older out : List Line)
    → stderr_bytes < size_of out + length line
    → size_of out ≤ suc stderr_bytes
    → Tail (reverse_onto (line ∷ older) out) (cut_line line out)
unfolding reverse_onto
cut_line-Tail line older [] more fit =
    cut (reverse_onto older []) line (reverse_onto-append older (line ∷ [])) (omega arith)
cut_line-Tail line older (l ∷ out) more fit =
    last (reverse_onto older []) line l out (reverse_onto-append older (line ∷ l ∷ out))
      (join_lines-fit (l ∷ out) fit) (omega (arith, join_lines-size line (l ∷ out)))

tail_loop-Tail :
    (size : ℕ) (older out : List Line)
    → size ≡ size_of out
    → size ≤ suc stderr_bytes
    → Tail (reverse_onto older out) (tail_loop size older out)
unfolding tail_loop reverse_onto
tail_loop-Tail size [] out e fit = all (join_lines-fit out (omega arith))
tail_loop-Tail size (line ∷ older) out e fit =
    elim (Bool-cases (ltb stderr_bytes (size + length line))) [
      | inl more ↦ rw more (cut_line-Tail line older out (ground (arith, e)) (omega arith))
      | inr fits ↦
          rw fits (
            tail_loop-Tail (size + length line + 1) older (line ∷ out) (omega arith) (ground arith))
    ]

-- An error's text with a log that is not empty is its message, and below it the whole log, if it fits
-- into the budget of 2000 bytes, newlines included; or as many of its last lines, one at least, as fit
-- whole, so that one line more would not; or, if the last line alone does not fit, its first 2000 bytes
-- and an ellipsis.
pub with_tail-Tail :
    (msg : List ℕ) (l : Line) (ls : List Line)
    → (tail : List Line) × (with_tail msg (l ∷ ls) ≡ msg ++ newline ∷ join_lines tail)
      × Tail (l ∷ ls) tail
unfolding with_tail
with_tail-Tail msg l ls =
    let older = reverse_onto (l ∷ ls) [] in
    let same : reverse_onto older [] ≡ l ∷ ls =
      reverse_onto-twice (l ∷ ls) [] [] ∙ append-nil (l ∷ ls) in
    (tail_loop 0 older [], refl, rw (sym same) (tail_loop-Tail 0 older [] refl (omega arith)))
