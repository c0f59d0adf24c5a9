-- ===== src/Plugin/Lines/Logs.antt =====
-- lua/differ/sidecar/init.lua: `on_stderr` over the chunks of the log of the process.
use differ_nvim.Common.{
  ℕ, zero, suc, ◌+◌, ◌-◌, ◌≤◌, ◌≡◌, refl, ◌∙◌, sym, ap, false, some, List, [], ◌∷◌, ◌++◌, map,
  append_assoc, append-nil, arith, length, length-append, drop, ltb, Bool-cases, inl, inr,
}
use differ_nvim.Plugin.Streams.{Line, stderr_max, push_line}
use differ_nvim.Plugin.State.{Json, Client, Shell}
use differ_nvim.Plugin.Process.{push_lines, on_stderr}
use differ_nvim.Plugin.Events.{logs, happen, history}
use differ_nvim.Plugin.Lines.{
  Cut, cut, has_newline, cut-append, cut-plain, cut-rest, consume_lines-cut,
}
use differ_nvim.Plugin.Lines.Chunks.{joined, owned_self}

-- The last 200 lines.
abbrev pub newest : List Line → List Line
newest lines = drop (length lines - stderr_max) lines

length-drop : (n : ℕ) (ls : List Line) → length (drop n ls) ≡ length ls - n
length-drop zero ls = omega arith
length-drop (suc n) [] = omega arith
length-drop (suc n) (l ∷ ls) = omega (arith, length-drop n ls)

drop-append : (n : ℕ) (xs ys : List Line) → n ≤ length xs → drop n xs ++ ys ≡ drop n (xs ++ ys)
drop-append zero xs ys h = refl
drop-append (suc n) [] ys h = elim h [ ]
drop-append (suc n) (x ∷ xs) ys h = drop-append n xs ys (omega arith)

drop-as : (m n : ℕ) (ls : List Line) → m ≡ n → drop m ls ≡ drop n ls
drop-as m n ls e = ap (λ k. drop k ls) e

drop-nil : (n : ℕ) → drop {A = Line} n [] ≡ []
drop-nil zero = refl
drop-nil (suc n) = refl

drop-drop : (m n : ℕ) (ls : List Line) → drop m (drop n ls) ≡ drop (n + m) ls
drop-drop m zero ls = ap (λ k. drop k ls) (omega arith)
drop-drop m (suc n) [] = drop-nil m ∙ sym (drop-nil (suc n + m))
drop-drop m (suc n) (l ∷ ls) =
    drop-drop m n ls ∙ drop-as (suc (n + m)) (suc n + m) (l ∷ ls) (omega arith)

-- Lines that are no longer among the last change nothing of what follows.
newest-append : (xs ys : List Line) → newest (newest xs ++ ys) ≡ newest (xs ++ ys)
newest-append xs ys =
    let k = length xs - stderr_max in
    let zs = drop k xs ++ ys in
    ap (drop (length zs - stderr_max)) (drop-append k xs ys (omega arith))
    ∙ drop-drop (length zs - stderr_max) k (xs ++ ys)
    ∙ ap (λ n. drop n (xs ++ ys))
        (omega (arith, length-append (drop k xs) ys, length-drop k xs, length-append xs ys))

push_line-newest :
    (line : Line) (log : List Line)
    → length log ≤ stderr_max
    → push_line line log ≡ newest (log ++ line ∷ [])
unfolding push_line
push_line-newest line log h =
    let longer = log ++ line ∷ [] in
    let more = length-append log (line ∷ []) in
    elim (Bool-cases (ltb stderr_max (length longer))) [
      | inl full ↦ rw full (drop-as 1 (length longer - stderr_max) longer (ground arith))
      | inr fits ↦ rw fits (drop-as 0 (length longer - stderr_max) longer (ground arith))
    ]

length-newest : (ls : List Line) → length (newest ls) ≤ stderr_max
length-newest ls = omega (arith, length-drop (length ls - stderr_max) ls)

pub push_lines-newest :
    (ls log : List Line) → length log ≤ stderr_max → push_lines ls log ≡ newest (log ++ ls)
unfolding push_lines
push_lines-newest [] log h =
    drop-as 0 (length log - stderr_max) log (omega arith) ∙ ap newest (sym (append-nil log))
push_lines-newest (l ∷ ls) log h =
    ap (push_lines ls) (push_line-newest l log h)
    ∙ push_lines-newest ls (newest (log ++ l ∷ [])) (length-newest (log ++ l ∷ []))
    ∙ newest-append (log ++ l ∷ []) ls
    ∙ ap newest (append_assoc log (l ∷ []) ls)

-- A client whose log has the last lines of a cut, and that keeps the rest of it.
abbrev pub logging : Cut → Client → Client
logging (lines, rest) c = record c {
  stderr_buf = rest;
  stderr_log = newest (c.stderr_log ++ lines);
}

on_stderr-logging :
    (chunk : List ℕ) (c : Client)
    → has_newline c.stderr_buf ≡ false
    → length c.stderr_log ≤ stderr_max
    → on_stderr chunk c ≡ logging (cut c.stderr_buf chunk) c
unfolding on_stderr
on_stderr-logging chunk c plain short =
    rw
      (
        consume_lines-cut (c.stderr_buf ++ chunk),
        cut-plain [] c.stderr_buf chunk plain,
        push_lines-newest (cut c.stderr_buf chunk).0 c.stderr_log short,
      )
      refl

logging-append :
    (a b : List ℕ) (c : Client)
    → logging (cut (cut c.stderr_buf a).1 b) (logging (cut c.stderr_buf a) c)
      ≡ logging (cut c.stderr_buf (a ++ b)) c
logging-append a b c =
    let first = cut c.stderr_buf a in
    let second = cut first.1 b in
    rw
      (
        cut-append c.stderr_buf a b,
        newest-append (c.stderr_log ++ first.0) second.0,
        append_assoc c.stderr_log first.0 second.0,
      )
      refl

module _ (json : Json) where
  logs_own :
      (chunk : List ℕ) (c : Client) (sh : Shell) (g : ℕ)
      → c.self ≡ g
      → happen json (logs g chunk) (some c, sh) ≡ (some (on_stderr chunk c), sh)
  unfolding happen
  logs_own chunk c sh g e = owned_self json (λ d s. (on_stderr chunk d, s)) c sh g e

  logged :
      (chunks : List (List ℕ)) (c : Client) (sh : Shell) (g : ℕ)
      → c.self ≡ g
      → has_newline c.stderr_buf ≡ false
      → length c.stderr_log ≤ stderr_max
      → history json (map (logs g) chunks) (some c, sh)
        ≡ (some (logging (cut c.stderr_buf (joined chunks)) c), sh)
  unfolding history cut
  logged [] c sh g e plain short =
      ap (λ log. (some (record c { stderr_log = log }), sh))
        (drop-as 0 (length c.stderr_log - stderr_max) c.stderr_log (omega arith)
          ∙ ap newest (sym (append-nil c.stderr_log)))
  logged (chunk ∷ chunks) c sh g e plain short =
      let next = logging (cut c.stderr_buf chunk) c in
      ap (history json (map (logs g) chunks))
        (logs_own chunk c sh g e ∙ ap (λ d. (some d, sh)) (on_stderr-logging chunk c plain short))
      ∙ logged chunks next sh g e (cut-rest c.stderr_buf chunk plain)
          (length-newest (c.stderr_log ++ (cut c.stderr_buf chunk).0))
      ∙ ap (λ d. (some d, sh)) (logging-append chunk (joined chunks) c)

  -- Whatever the chunks in which the log of the client's process arrives, the client then has the last
  -- 200 of the lines that it had and of those of the whole text, and keeps the text behind the last
  -- newline; nothing else of it changes. The client keeps no newline and has at most 200 lines, as
  -- after each chunk.
  pub logs-newest :
      (chunks : List (List ℕ)) (c : Client) (sh : Shell)
      → has_newline c.stderr_buf ≡ false
      → length c.stderr_log ≤ stderr_max
      → history json (map (logs c.self) chunks) (some c, sh)
        ≡ (some (logging (cut c.stderr_buf (joined chunks)) c), sh)
  logs-newest chunks c sh plain short = logged chunks c sh c.self refl plain short
