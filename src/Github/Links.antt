-- ===== src/Github/Links.antt =====
-- internal/github/rest.go: `nextLink`, with the match of `<([^>]+)>\s*;\s*rel="next"` written out. The
-- match is the leftmost one. From a `<` the pattern fits in one way at most, since `[^>]+` has to
-- run up to the next `>`, and the white space up to what is none.
pub mod Printed
use Prim.Native.Char.{Char, code}
use Prim.Native.String
use differ_nvim.Common.{
  ℕ, String, Bool, true, false, ◌&&◌, ◌||◌, Option, none, some, eqb, leb, ◌==◌, if◌then◌else◌,
}

-- `[^>]*`: the text up to the first `>`, and what is left.
unfoldable pub up_to_close : String → String × String
up_to_close String.[] = (String.[], String.[])
up_to_close (String.◌∷◌ c s) =
    let r = up_to_close s in
    if eqb (code c) b'>' then (String.[], String.◌∷◌ c s) else (String.◌∷◌ c r.0, r.1)

-- `\s` of Go's syntax.
abbrev pub is_space : ℕ → Bool
is_space c = eqb c 9 || eqb c 10 || eqb c 12 || eqb c 13 || eqb c 32

-- `\s*`
unfoldable pub skip_spaces : String → String
skip_spaces String.[] = String.[]
skip_spaces (String.◌∷◌ c s) =
    let rest = skip_spaces s in if is_space (code c) then rest else String.◌∷◌ c s

-- A literal text at the front, with what stands behind it.
unfoldable pub expect : String → String → Option String
expect String.[] s = some s
expect (String.◌∷◌ p ps) String.[] = none
expect (String.◌∷◌ p ps) (String.◌∷◌ c s) =
    let rest = expect ps s in if eqb (code p) (code c) then rest else none

abbrev pub found : Option String → Bool
found none = false
found (some s) = true

-- Whether the pattern's part behind `<([^>]+)` fits.
unfoldable pub fits_next : String → Bool
unfolding expect skip_spaces
fits_next s = elim (expect ">" s) [
  | none ↦ false
  | some t ↦ elim (expect ";" (skip_spaces t)) [
    | none ↦ false
    | some u ↦ found (expect "rel=\"next\"" (skip_spaces u))
  ]
]

-- The pattern behind a `<`: the group that it captures, if it fits.
unfoldable pub link_target : String → Option String
link_target s =
    let r = up_to_close s in if r.0 == "" then none else if fits_next r.1 then some r.0 else none

abbrev pub or_else : Option String → String → String
or_else none later = later
or_else (some url) later = url

-- `nextLink`
unfoldable pub next_link : String → String
unfolding link_target
next_link String.[] = ""
next_link (String.◌∷◌ c s) =
    let later = next_link s in if eqb (code c) b'<' then or_else (link_target s) later else later
