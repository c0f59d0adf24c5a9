-- ===== src/Github/Files/Paths.antt =====
-- internal/github/files.go: `escapePath` keeps the segments of a path apart.
use Prim.Native.Char.{Char, code}
use text.Mathlib.TextLemmas
use differ_nvim.Common.{
  ◌≡◌, refl, ap, ◌∙◌, String, List, [], ◌∷◌, eqb, map, All, Bool-cases, inl, inr,
}
use differ_nvim.Github.Links.Printed.{Lacks}
use differ_nvim.Github.Files.{add_char, split_path, join_path, escape_path, ◌·◌}

-- At least one segment.
pub data Segments : List String → Type 0 where
  segments : (seg : String) (segs : List String) → Segments (seg ∷ segs)

add_char-Segments : (c : Char) (l : List String) → Segments (add_char c l)
add_char-Segments c [] = segments _ _
add_char-Segments c (seg ∷ segs) = segments _ _

split_path-Segments : (p : String) → Segments (split_path p)
unfolding split_path
split_path-Segments String.[] = segments _ _
split_path-Segments (String.◌∷◌ c s) = elim (Bool-cases (eqb (code c) b'/')) [
  | inl slash ↦ rw slash (segments _ _)
  | inr other ↦ rw other (add_char-Segments c (split_path s))
]

split-last : (seg : String) → Lacks b'/' seg → split_path seg ≡ seg ∷ []
unfolding split_path
split-last String.[] h = refl
split-last (String.◌∷◌ c s) (d, h) = rw (d, split-last s h)

split-slash : (t : String) → split_path ("/" · t) ≡ "" ∷ split_path t
unfolding split_path
split-slash t =
    ap split_path (TextLemmas.cons-append "/" "" t ∙ ap (String.◌∷◌ "/") (TextLemmas.nil-append t))

split-first : (seg t : String) → Lacks b'/' seg → split_path (seg · "/" · t) ≡ seg ∷ split_path t
unfolding split_path
split-first String.[] t h = ap split_path (TextLemmas.nil-append ("/" · t)) ∙ split-slash t
split-first (String.◌∷◌ c s) t (d, h) =
    rw (TextLemmas.cons-append c s ("/" · t), d, split-first s t h)

split-join : (l : List String) → Segments l → All (Lacks b'/') l → split_path (join_path l) ≡ l
unfolding join_path
split-join _ (segments seg []) (h, hs) = split-last seg h
split-join _ (segments seg (next ∷ segs)) (h, hs) =
    split-first seg (join_path (next ∷ segs)) h
    ∙ ap (λ l. seg ∷ l) (split-join (next ∷ segs) (segments next segs) hs)

map-Segments : (f : String → String) (l : List String) → Segments l → Segments (map f l)
map-Segments f _ (segments seg segs) = segments _ _

escaped :
    (f : String → String)
    → ((s : String) → Lacks b'/' (f s))
    → (l : List String) → All (Lacks b'/') (map f l)
escaped f h [] = tt
escaped f h (s ∷ l) = (h s, escaped f h l)

-- If the escaping of a segment leaves no slash in it, as that of `url.PathEscape` does, the escaped path
-- splits at its slashes into the escaped segments of the path, each in its place.
pub split_path-escape_path :
    (escape : String → String) (p : String)
    → ((s : String) → Lacks b'/' (escape s))
    → split_path (escape_path escape p) ≡ map escape (split_path p)
unfolding escape_path
split_path-escape_path escape p h =
    split-join (map escape (split_path p))
      (map-Segments escape (split_path p) (split_path-Segments p)) (escaped escape h (split_path p))
