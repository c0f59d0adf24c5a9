-- ===== src/Github/Links/Printed.antt =====
-- internal/github/rest.go: `nextLink` reads what a `Link` header writes.
use Prim.Native.Char.{Char, code}
use text.Mathlib.TextEquality.{Char-path}
use text.Mathlib.TextLemmas.{tail-eq_of_cons-eq, head-eq_of_cons-eq, nil≢cons, cons≢nil}
use differ_nvim.Common.{
  ℕ, ◌≡◌, refl, sym, ap, subst, ◌∙◌, String, Bool, true, false, none, some, List, [], ◌∷◌, eqb,
  ◌==◌, if◌then◌else◌, Bool-cases, inl, inr, text_eq, eq_refl, arith, All,
}
use differ_nvim.Github.Links.{
  up_to_close, skip_spaces, expect, found, fits_next, link_target, or_else, next_link,
}

-- No character of the text has the code.
abbrev pub Lacks : ℕ → String → Type 0
Lacks n String.[] = Unit
Lacks n (String.◌∷◌ c s) = (eqb (code c) n ≡ false) × Lacks n s

-- A link of the header: its URL and its relation.
abbrev pub Link : Type 0
Link = String × String

-- What may be written: a URL that is not empty and has no angle brackets, a relation without a quote.
abbrev pub IsLink : Link → Type 0
IsLink (url, rel) =
    ((url == "") ≡ false) × Lacks b'<' url × Lacks b'>' url × Lacks b'<' rel × Lacks 34 rel

-- A text in front of another one.
unfoldable pub put : String → String → String
put String.[] t = t
put (String.◌∷◌ c s) t = String.◌∷◌ c (put s t)

-- A link in front of the rest of the header.
unfoldable pub print_link : Link → String → String
unfolding put
print_link (url, rel) rest = put "<" (put url (put ">; rel=\"" (put rel (put "\"" rest))))

unfoldable pub print_more : List Link → String
unfolding print_link put
print_more [] = ""
print_more (l ∷ ls) = put ", " (print_link l (print_more ls))

-- The header: the links, with a comma and a space between them.
unfoldable pub print_links : List Link → String
unfolding print_link print_more
print_links [] = ""
print_links (l ∷ ls) = print_link l (print_more ls)

-- The URL of the first link whose relation is `next`, or "".
unfoldable pub first_next : List Link → String
first_next [] = ""
first_next ((url, rel) ∷ ls) = if rel == "next" then url else first_next ls

next_link-skips : (s t : String) → Lacks b'<' s → next_link (put s t) ≡ next_link t
unfolding next_link put
next_link-skips String.[] t h = refl
next_link-skips (String.◌∷◌ c s) t (d, h) = rw d (next_link-skips s t h)

up_to_close-url :
    (url t : String) → Lacks b'>' url → up_to_close (put url (put ">" t)) ≡ (url, put ">" t)
unfolding up_to_close put
up_to_close-url String.[] t h = refl
up_to_close-url (String.◌∷◌ c s) t (d, h) = rw (d, up_to_close-url s t h)

same_tail : (c : Char) (r w : String) → (String.◌∷◌ c r == String.◌∷◌ c w) ≡ (r == w)
same_tail c r w = elim (Bool-cases (r == w)) [
  | inl e ↦
      let eq = (text_eq r w).0 e in
      rw e ((text_eq (String.◌∷◌ c r) (String.◌∷◌ c w)).1 (ap (String.◌∷◌ c) eq))
  | inr ne ↦ elim (Bool-cases (String.◌∷◌ c r == String.◌∷◌ c w)) [
    | inl e ↦
        let eq =
          (text_eq r w).1 (tail-eq_of_cons-eq ((text_eq (String.◌∷◌ c r) (String.◌∷◌ c w)).0 e)) in
        cc eq
    | inr e ↦ rw (e, ne)
  ]
]

other_head :
    (c d : Char) (r w : String)
    → eqb (code d) (code c) ≡ false
    → (String.◌∷◌ c r == String.◌∷◌ d w) ≡ false
other_head c d r w h = elim (Bool-cases (String.◌∷◌ c r == String.◌∷◌ d w)) [
  | inl e ↦
      let eq = ap code (head-eq_of_cons-eq ((text_eq (String.◌∷◌ c r) (String.◌∷◌ d w)).0 e)) in
      ground (arith, eq, h)
  | inr e ↦ e
]

pub nil-cons : (c : Char) (r : String) → (String.◌∷◌ c r == "") ≡ false
nil-cons c r = elim (Bool-cases (String.◌∷◌ c r == "")) [
  | inl e ↦ absurd (cons≢nil ((text_eq (String.◌∷◌ c r) "").0 e))
  | inr e ↦ e
]

cons-nil : (c : Char) (r : String) → ("" == String.◌∷◌ c r) ≡ false
cons-nil c r = elim (Bool-cases ("" == String.◌∷◌ c r)) [
  | inl e ↦ absurd (nil≢cons ((text_eq "" (String.◌∷◌ c r)).0 e))
  | inr e ↦ e
]

-- A quoted relation is read as the word exactly if it is that word.
expect-quoted :
    (w r t : String)
    → Lacks 34 w
    → Lacks 34 r
    → found (expect (put w "\"") (put r (put "\"" t))) ≡ (r == w)
unfolding expect put
expect-quoted String.[] String.[] t h k = sym (eq_refl "")
expect-quoted String.[] (String.◌∷◌ c r) t h (d, k) =
    let other : eqb 34 (code c) ≡ false = ground (arith, d) in rw (other, nil-cons c r)
expect-quoted (String.◌∷◌ p w) String.[] t (d, h) k = rw (d, cons-nil p w)
expect-quoted (String.◌∷◌ p w) (String.◌∷◌ c r) t (d, h) (e, k) =
    elim (Bool-cases (eqb (code p) (code c))) [
      | inl same ↦
          let eq = Char-path c p (ground (arith, same)) in
          rw same (
            expect-quoted w r t h k
            ∙ subst (λ q. (r == w) ≡ (String.◌∷◌ c r == String.◌∷◌ q w)) eq (sym (same_tail c r w)))
      | inr differ ↦ rw (differ, other_head c p r w differ)
    ]

-- Behind a URL the pattern fits exactly if the relation is `next`.
fits_next-printed :
    (rel t : String)
    → Lacks 34 rel
    → fits_next (put ">; rel=\"" (put rel (put "\"" t))) ≡ (rel == "next")
unfolding fits_next put expect skip_spaces
fits_next-printed rel t h = expect-quoted "next" rel t (refl, (refl, (refl, (refl, tt)))) h

link_target-printed :
    (url rel t : String)
    → IsLink (url, rel)
    → link_target (put url (put ">; rel=\"" (put rel (put "\"" t))))
      ≡ (if rel == "next" then some url else none)
unfolding link_target put
link_target-printed url rel t (some_url, _, closes, _, quoted) = rw (
  up_to_close-url url (put "; rel=\"" (put rel (put "\"" t))) closes,
  some_url,
  fits_next-printed rel t quoted,
)

pick :
    (b : Bool) (url later : String)
    → or_else (if b then some url else none) later ≡ (if b then url else later)
pick true url later = refl
pick false url later = refl

next_link-print_link :
    (url rel rest : String)
    → IsLink (url, rel)
    → next_link (print_link (url, rel) rest) ≡ (if rel == "next" then url else next_link rest)
unfolding next_link print_link put
next_link-print_link url rel rest (some_url, opens, closes, rel_opens, quoted) =
    rw
      (
        link_target-printed url rel rest (some_url, opens, closes, rel_opens, quoted),
        next_link-skips url (put ">; rel=\"" (put rel (put "\"" rest))) opens,
        next_link-skips rel (put "\"" rest) rel_opens,
      )
      (pick (rel == "next") url (next_link rest))

next_link-print_more : (ls : List Link) → All IsLink ls → next_link (print_more ls) ≡ first_next ls
unfolding print_more first_next next_link put
next_link-print_more [] h = refl
next_link-print_more ((url, rel) ∷ ls) (h, hs) =
    rw (next_link-print_link url rel (print_more ls) h, next_link-print_more ls hs)

-- `nextLink` on a printed `Link` header gives the URL of the first link whose relation is `next`, and ""
-- where none is. The URLs are not empty and hold no angle brackets, the relations no quote and no
-- opening angle bracket.
pub next_link-print_links :
    (ls : List Link) → All IsLink ls → next_link (print_links ls) ≡ first_next ls
unfolding print_links first_next next_link
next_link-print_links [] h = refl
next_link-print_links ((url, rel) ∷ ls) (h, hs) =
    rw (next_link-print_link url rel (print_more ls) h, next_link-print_more ls hs)
