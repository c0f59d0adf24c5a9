-- ===== src/Plugin/Streams.antt =====
-- lua/differ/sidecar/init.lua: `consume_lines`, `push_line` and `with_tail`.
use differ_nvim.Common.{
  ℕ, zero, suc, ◌+◌, Bool, true, false, List, [], ◌∷◌, ◌++◌, ltb, length, take, drop, if◌then◌else◌,
}
use differ_nvim.Server.Frame.{newline}
use differ_nvim.Server.Frame.Cut.{split_line}

-- A line, without its newline.
abbrev pub Line : Type 0
Line = List ℕ

abbrev pub is_empty : Line → Bool
is_empty [] = true
is_empty (b ∷ line) = false

abbrev pub keep_line : Line → List Line → List Line
keep_line [] lines = lines
keep_line (b ∷ line) lines = (b ∷ line) ∷ lines

-- The loop of `consume_lines`: the lines that it hands to `fn`, and the remainder that it returns.
unfoldable pub consume_loop : ℕ → List ℕ → List Line × List ℕ
consume_loop zero buf = ([], buf)
consume_loop (suc fuel) buf =
    let s = split_line buf in
    let later = consume_loop fuel s.rest in
    if s.found then (keep_line s.line later.0, later.1) else ([], buf)

-- `consume_lines`; each round takes a newline away, so the fuel is enough.
unfoldable pub consume_lines : List ℕ → List Line × List ℕ
unfolding consume_loop
consume_lines buf = consume_loop (suc (length buf)) buf

-- `STDERR_MAX` and `STDERR_BYTES`
abbrev pub stderr_max : ℕ
stderr_max = 200

abbrev pub stderr_bytes : ℕ
stderr_bytes = 2000

-- `push_line`
unfoldable pub push_line : Line → List Line → List Line
push_line line lines =
    let longer = lines ++ line ∷ [] in
    if ltb stderr_max (length longer) then drop 1 longer else longer

-- A space and an ellipsis, in UTF-8.
abbrev pub ellipsis : List ℕ
ellipsis = 32 ∷ 0xe2 ∷ 0x80 ∷ 0xa6 ∷ []

abbrev pub cut_line : Line → List Line → List Line
cut_line line [] = (take stderr_bytes line ++ ellipsis) ∷ []
cut_line line (l ∷ out) = l ∷ out

-- The loop of `with_tail`, over the lines from the last one backwards.
unfoldable pub tail_loop : ℕ → List Line → List Line → List Line
tail_loop size [] out = out
tail_loop size (line ∷ older) out =
    let more = tail_loop (size + length line + 1) older (line ∷ out) in
    if ltb stderr_bytes (size + length line) then cut_line line out else more

-- `table.concat(out, "\n")`
unfoldable pub join_lines : List Line → List ℕ
join_lines [] = []
join_lines (line ∷ []) = line
join_lines (line ∷ next ∷ lines) = line ++ newline ∷ join_lines (next ∷ lines)

unfoldable pub reverse_onto : List Line → List Line → List Line
reverse_onto [] out = out
reverse_onto (l ∷ ls) out = reverse_onto ls (l ∷ out)

-- `with_tail`; a list that is nil is empty here.
unfoldable pub with_tail : List ℕ → List Line → List ℕ
unfolding tail_loop join_lines reverse_onto
with_tail msg [] = msg
with_tail msg (l ∷ ls) = msg ++ newline ∷ join_lines (tail_loop 0 (reverse_onto (l ∷ ls) []) [])
