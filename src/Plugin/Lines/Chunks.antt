-- ===== src/Plugin/Lines/Chunks.antt =====
-- lua/differ/sidecar/init.lua: `on_stdout` over the chunks in which the frames of the process arrive.
use differ_nvim.Common.{
  ℕ, ◌≡◌, refl, ◌∙◌, sym, ap, ap₂, subst, false, some, List, [], ◌∷◌, ◌++◌, map, arith,
}
use differ_nvim.Plugin.Streams.{Line}
use differ_nvim.Plugin.State.{Json, Client, Shell}
use differ_nvim.Plugin.Process.{with_buffer, dispatch_lines, on_stdout}
use differ_nvim.Plugin.Events.{here, prints, owned, happen, history}
use differ_nvim.Plugin.Lines.{
  Cut, cut, has_newline, cut-append, cut-plain, cut-rest, consume_lines-cut, stream_of, AreLines,
  cut-stream,
}
use differ_nvim.Plugin.Lines.Plain.{
  ArePlain, ArePlain-left, ArePlain-right, raises_lines-plain, dispatch_lines-buffer,
  dispatch_lines-self, dispatch_lines-append,
}

abbrev pub joined : List (List ℕ) → List ℕ
joined [] = []
joined (chunk ∷ chunks) = chunk ++ joined chunks

module _ (json : Json) where
  -- The lines of a cut are dispatched, and what is left is kept.
  abbrev heard : Cut → Client → Shell → Client × Shell
  heard (lines, rest) c sh = with_buffer rest (dispatch_lines json lines c sh)

  on_stdout-cut :
      (chunk : List ℕ) (c : Client) (sh : Shell)
      → has_newline c.stdout_buf ≡ false
      → ArePlain json (cut c.stdout_buf chunk).0
      → on_stdout json chunk c sh ≡ heard (cut c.stdout_buf chunk) c sh
  unfolding on_stdout
  on_stdout-cut chunk c sh whole fine =
      rw
        (
          consume_lines-cut (c.stdout_buf ++ chunk),
          cut-plain [] c.stdout_buf chunk whole,
          raises_lines-plain json (cut c.stdout_buf chunk).0 c sh fine,
        )
        refl

  -- The lines of a stream are those of its first chunk and those behind it.
  fine_parts :
      (buf a b : List ℕ)
      → ArePlain json (cut buf (a ++ b)).0
      → ArePlain json (cut buf a).0 × ArePlain json (cut (cut buf a).1 b).0
  fine_parts buf a b fine =
      let all : ArePlain json ((cut buf a).0 ++ (cut (cut buf a).1 b).0) =
        subst (λ x. ArePlain json x.0) (cut-append buf a b) fine in
      (
        ArePlain-left json (cut buf a).0 (cut (cut buf a).1 b).0 all,
        ArePlain-right json (cut buf a).0 (cut (cut buf a).1 b).0 all,
      )

  -- Two chunks, one after the other, and both at once.
  on_stdout-append :
      (a b : List ℕ) (c : Client) (sh : Shell)
      → has_newline c.stdout_buf ≡ false
      → ArePlain json (cut c.stdout_buf (a ++ b)).0
      → on_stdout json b (on_stdout json a c sh).0 (on_stdout json a c sh).1
        ≡ on_stdout json (a ++ b) c sh
  on_stdout-append a b c sh whole fine =
      let first = cut c.stdout_buf a in
      let (c', sh') = dispatch_lines json first.0 c sh in
      let held = record c' { stdout_buf = first.1 } in
      let second = cut first.1 b in
      let (fine_a, fine_b) = fine_parts c.stdout_buf a b fine in
      rw
        (
          on_stdout-cut a c sh whole fine_a,
          on_stdout-cut b held sh' (cut-rest c.stdout_buf a whole) fine_b,
          on_stdout-cut (a ++ b) c sh whole fine,
          cut-append c.stdout_buf a b,
          dispatch_lines-append json first.0 second.0 c sh fine_a,
          dispatch_lines-buffer json second.0 first.1 c' sh' fine_b,
        )
        refl

  on_stdout-self :
      (chunk : List ℕ) (c : Client) (sh : Shell)
      → has_newline c.stdout_buf ≡ false
      → ArePlain json (cut c.stdout_buf chunk).0
      → (on_stdout json chunk c sh).0.self ≡ c.self
  on_stdout-self chunk c sh whole fine =
      rw (on_stdout-cut chunk c sh whole fine)
        (dispatch_lines-self json (cut c.stdout_buf chunk).0 c sh fine)

  on_stdout-buffer :
      (chunk : List ℕ) (c : Client) (sh : Shell)
      → has_newline c.stdout_buf ≡ false
      → ArePlain json (cut c.stdout_buf chunk).0
      → (on_stdout json chunk c sh).0.stdout_buf ≡ (cut c.stdout_buf chunk).1
  on_stdout-buffer chunk c sh whole fine =
      ap (λ r. r.0.stdout_buf) (on_stdout-cut chunk c sh whole fine)

  on_stdout-none :
      (c : Client) (sh : Shell)
      → has_newline c.stdout_buf ≡ false
      → on_stdout json [] c sh ≡ (c, sh)
  unfolding dispatch_lines cut
  on_stdout-none c sh whole = on_stdout-cut [] c sh whole tt

  pub owned_self :
      (f : Client → Shell → Client × Shell) (c : Client) (sh : Shell) (g : ℕ)
      → c.self ≡ g
      → owned g f (some c, sh) ≡ here (f c sh)
  owned_self f c sh g e = ground arith

  -- The client's process prints to it.
  prints_own :
      (chunk : List ℕ) (c : Client) (sh : Shell) (g : ℕ)
      → c.self ≡ g
      → happen json (prints g chunk) (some c, sh) ≡ here (on_stdout json chunk c sh)
  unfolding happen
  prints_own chunk c sh g e = owned_self (on_stdout json chunk) c sh g e

  printed :
      (chunks : List (List ℕ)) (c : Client) (sh : Shell) (g : ℕ)
      → c.self ≡ g
      → has_newline c.stdout_buf ≡ false
      → ArePlain json (cut c.stdout_buf (joined chunks)).0
      → history json (map (prints g) chunks) (some c, sh)
        ≡ here (on_stdout json (joined chunks) c sh)
  unfolding history
  printed [] c sh g e whole fine = sym (ap here (on_stdout-none c sh whole))
  printed (chunk ∷ chunks) c sh g e whole fine =
      let (c', sh') = on_stdout json chunk c sh in
      let (fine_a, fine_b) = fine_parts c.stdout_buf chunk (joined chunks) fine in
      let rest : c'.stdout_buf ≡ (cut c.stdout_buf chunk).1 =
        on_stdout-buffer chunk c sh whole fine_a in
      ap (history json (map (prints g) chunks)) (prints_own chunk c sh g e)
      ∙ printed chunks c' sh' g (on_stdout-self chunk c sh whole fine_a ∙ e)
          (ap has_newline rest ∙ cut-rest c.stdout_buf chunk whole)
          (subst (λ buf. ArePlain json (cut buf (joined chunks)).0) (sym rest) fine_b)
      ∙ ap here (on_stdout-append chunk (joined chunks) c sh whole fine)

  -- The output of the client's process has the same effect in any chunks as in one piece: the lines that
  -- it answers, the callbacks that it hands over, their order and the bytes that it keeps are the same,
  -- wherever the chunks are cut, within a line, a character or a number. The client keeps no newline,
  -- as after each chunk, and no line is decoded to an answer whose field `error` cannot be indexed, which
  -- would raise an error of Lua.
  pub prints-joined :
      (chunks : List (List ℕ)) (c : Client) (sh : Shell)
      → has_newline c.stdout_buf ≡ false
      → ArePlain json (cut c.stdout_buf (joined chunks)).0
      → history json (map (prints c.self) chunks) (some c, sh)
        ≡ happen json (prints c.self (joined chunks)) (some c, sh)
  prints-joined chunks c sh whole fine =
      printed chunks c sh c.self refl whole fine ∙ sym (prints_own (joined chunks) c sh c.self refl)

  -- Frames that are not empty and have no newline inside, each ended by a newline, and cut into any
  -- chunks, none of them an answer whose field `error` cannot be indexed: a client that keeps no bytes
  -- dispatches exactly these frames, whole and in their order, and again keeps no bytes.
  pub prints-stream :
      (frames : List Line) (chunks : List (List ℕ)) (c : Client) (sh : Shell)
      → AreLines frames
      → ArePlain json frames
      → joined chunks ≡ stream_of frames
      → c.stdout_buf ≡ []
      → history json (map (prints c.self) chunks) (some c, sh)
        ≡ here (with_buffer [] (dispatch_lines json frames c sh))
  prints-stream frames chunks c sh are fine joins empty =
      let whole : has_newline c.stdout_buf ≡ false = ap has_newline empty in
      let all : cut c.stdout_buf (joined chunks) ≡ (frames, []) =
        ap₂ cut empty joins ∙ cut-stream frames are in
      let lines = subst (λ x. ArePlain json x.0) (sym all) fine in
      printed chunks c sh c.self refl whole lines
      ∙ ap here (on_stdout-cut (joined chunks) c sh whole lines ∙ ap (λ x. heard x c sh) all)
