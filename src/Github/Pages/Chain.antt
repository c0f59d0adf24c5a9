-- ===== src/Github/Pages/Chain.antt =====
-- internal/github/rest.go and graphql.go: what the loops over pages gather, from what GitHub serves.
use differ_nvim.Common.{
  ◌≡◌, refl, subst, Bool-cases, ◌∙◌, ℕ, zero, suc, ◌≤◌, ◌⊎◌, inl, inr, String, Bool, true, false,
  not, ◌||◌, Option, none, some, List, [], ◌∷◌, ◌++◌, ◌==◌, length, append-nil, append_assoc, arith,
}
use differ_nvim.Protocol.{ok, GoError}
use differ_nvim.Github.Dtos.{PageInfo}
use differ_nvim.Github.Client.{M, Session, Env, Decoded, ◌>>◌, pure, next_cursor, check_go}
use differ_nvim.Github.Pages.{fetch_page, paged_loop, get_paged, walk, max_pages}

unfoldable pub concat : {A : Type 0} → List (List A) → List A
concat [] = []
concat (l ∷ ls) = l ++ concat ls

-- GitHub serves these pages one after the other from a URL on, each found by the link of the one
-- before it; the state and the link at the end come last.
pub data Served {A : Type 0} (env : Env) (decode : String → Decoded (List A))
    : String → Session → List (List A) → String → Session → Type 0 where
  nothing : (url : String) (s : Session) → Served env decode url s [] url s
  page :
      (url : String) (s : Session) (items : List A) (next : String) (u : Session)
      {pages : List (List A)} {last : String} {t : Session}
      → (url == "") ≡ false
      → fetch_page env decode url s ≡ (ok (items, next), u)
      → Served env decode next u pages last t
      → Served env decode url s (items ∷ pages) last t

paged_loop-Served :
    {A : Type 0} (env : Env) (decode : String → Decoded (List A)) (n : ℕ) (all : List A)
    {url last : String} {s t : Session} {pages : List (List A)}
    → Served env decode url s pages last t
    → length pages ≤ n
    → ((last == "") ≡ true) ⊎ (length pages ≡ n)
    → paged_loop env n decode url all s ≡ (ok (all ++ concat pages), t)
unfolding paged_loop concat pure
paged_loop-Served env decode zero all (nothing url s) few ended = rw append-nil
paged_loop-Served env decode (suc n) all (nothing url s) few (inl empty) = rw (empty, append-nil)
paged_loop-Served env decode (suc n) all (nothing url s) few (inr e) = absurd (omega (arith, e))
paged_loop-Served env decode zero all (page url s items next u some_url fetched rest) few ended =
    absurd (omega (arith, few))
paged_loop-Served env decode (suc n) all (page url s items next u some_url fetched rest) few
      (inl e) =
    rw (some_url, fetched)
      (paged_loop-Served env decode n (all ++ items) rest (omega (arith, few)) (inl e)
        ∙ rw append_assoc)
paged_loop-Served env decode (suc n) all (page url s items next u some_url fetched rest) few
      (inr e) =
    rw (some_url, fetched)
      (paged_loop-Served env decode n (all ++ items) rest (omega (arith, few))
          (inr (omega (arith, e)))
        ∙ rw append_assoc)

check_go-none :
    {B : Type 0} (o : Option GoError) (k : M B) (s : Session) → o ≡ none → (check_go o >> k) s ≡ k s
unfolding check_go pure
check_go-none none k s e = refl
check_go-none (some x) k s e = cc e

-- With a token, `getPaged` gives the items of all pages that GitHub serves from the URL on, in order,
-- if there are at most 100 and the last has no next link; if there are more, it gives the items of
-- the first 100.
pub get_paged-Served :
    {A : Type 0} (env : Env) (decode : String → Decoded (List A)) {url last : String}
    {s t : Session} {pages : List (List A)}
    → env.token_err ≡ none
    → Served env decode url s pages last t
    → length pages ≤ 100
    → ((last == "") ≡ true) ⊎ (length pages ≡ 100)
    → get_paged env decode url s ≡ (ok (concat pages), t)
unfolding get_paged
get_paged-Served env decode token served few ended =
    check_go-none env.token_err _ _ token
    ∙ paged_loop-Served env decode max_pages [] served few ended

-- The pages of a connection one after the other, each with the cursor that it was asked by. The flag
-- tells that `nextCursor` ends the walk there.
pub data Walked {P : Type 0} (ask : String → M P) (info : P → PageInfo)
    : String → Session → List (String × P) → Bool → Session → Type 0 where
  cut : (c : String) (s : Session) → Walked ask info c s [] false s
  final :
      (c : String) (s : Session) (p : P) (t : Session)
      → ask c s ≡ (ok p, t)
      → next_cursor c (info p) ≡ none
      → Walked ask info c s ((c, p) ∷ []) true t
  more :
      (c : String) (s : Session) (p : P) (next : String) (u : Session) {l : List (String × P)}
      {b : Bool} {t : Session}
      → ask c s ≡ (ok p, u)
      → next_cursor c (info p) ≡ some next
      → Walked ask info next u l b t
      → Walked ask info c s ((c, p) ∷ l) b t

-- The bodies of the loop, one after the other.
unfoldable pub gathered : {P S : Type 0} → (String → P → S → S) → List (String × P) → S → S
gathered take [] acc = acc
gathered take ((c, p) ∷ l) acc = gathered take l (take c p acc)

pub walk-Walked :
    {P S : Type 0} (ask : String → M P) (info : P → PageInfo) (take : String → P → S → S) (n : ℕ)
    (acc : S) {c : String} {s t : Session} {l : List (String × P)} {b : Bool}
    → Walked ask info c s l b t
    → length l ≤ n
    → (b ≡ true) ⊎ (length l ≡ n)
    → walk n ask info take c acc s ≡ (ok (gathered take l acc), t)
unfolding walk gathered pure
walk-Walked ask info take zero acc (cut c s) few ended = refl
walk-Walked ask info take (suc n) acc (cut c s) few (inl e) = cc e
walk-Walked ask info take (suc n) acc (cut c s) few (inr e) = absurd (omega (arith, e))
walk-Walked ask info take zero acc (final c s p t asked last) few ended =
    absurd (omega (arith, few))
walk-Walked ask info take (suc n) acc (final c s p t asked last) few ended = rw (asked, last)
walk-Walked ask info take zero acc (more c s p next u asked on rest) few ended =
    absurd (omega (arith, few))
walk-Walked ask info take (suc n) acc (more c s p next u asked on rest) few (inl e) =
    rw (asked, on) (walk-Walked ask info take n (take c p acc) rest (omega (arith, few)) (inl e))
walk-Walked ask info take (suc n) acc (more c s p next u asked on rest) few (inr e) =
    rw (asked, on)
      (walk-Walked ask info take n (take c p acc) rest (omega (arith, few))
        (inr (omega (arith, e))))

-- A cursor that the walk goes on with is not empty, so the pages behind the first are told from it.
pub next_cursor-not_empty :
    (prev : String) (info : PageInfo) (next : String)
    → next_cursor prev info ≡ some next
    → (next == "") ≡ false
unfolding next_cursor
next_cursor-not_empty prev info next h =
    elim (Bool-cases (not info.has_next_page || info.end_cursor == "" || info.end_cursor == prev)) [
      | inl stop ↦ let none_left = rw stop at h in cc none_left
      | inr on ↦
          let same : info.end_cursor ≡ next = cc (rw on at h) in
          subst (λ (c : String). (c == "") ≡ false) same (ground (arith, on))
    ]
