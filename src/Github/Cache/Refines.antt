-- ===== src/Github/Cache/Refines.antt =====
-- The cache as an LRU list: entries with their keys, the most recent first, cut where the limit is.
use differ_nvim.Common.{
  ℕ, ◌+◌, ◌-◌, ◌<◌, ◌≤◌, ◌≡◌, ◌≢◌, refl, subst, String, Option, none, some, List, [], ◌∷◌, ◌++◌,
  All, arith, eqb, leb, ◌==◌, text_eq, eq_refl, if◌then◌else◌, Bool-cases, inl, inr, map,
}
use mathlib.Core.Option
use differ_nvim.Github.Results.{FileBlob}
use differ_nvim.Github.Cache.{Node, Cache, find_node, remove_node, blob_size}
use differ_nvim.Github.Cache.Index.{find_key}
use differ_nvim.Github.Cache.Nodes.{UniqueKeys, charge, find_node-All, head_same}

abbrev pub Entry : Type 0
Entry = String × FileBlob

-- What the cache holds, for a reader that knows nothing of pointers.
abbrev pub view : List Node → List Entry
view = map (λ n. (n.key, n.blob))

abbrev pub contents : Cache → List Entry
contents c = view c.lru

unfoldable pub lookup : String → List Entry → Option FileBlob
lookup k [] = none
lookup k (e ∷ l) = if k == e.0 then some e.1 else lookup k l

unfoldable pub remove : String → List Entry → List Entry
remove k [] = []
remove k (e ∷ l) = if k == e.0 then l else e ∷ remove k l

unfoldable pub entry_size : Entry → ℕ
entry_size e = blob_size e.0 e.1

unfoldable pub total : List Entry → ℕ
total [] = 0
total (e ∷ l) = entry_size e + total l

-- The longest prefix whose entries together fit in the budget.
unfoldable pub fit : ℕ → List Entry → List Entry
fit budget [] = []
fit budget (e ∷ l) = if leb (entry_size e) budget then e ∷ fit (budget - entry_size e) l else []

-- A hit moves its entry to the front.
unfoldable pub promote : String → List Entry → List Entry
promote k l = elim (lookup k l) [ none ↦ l | some b ↦ (k, b) ∷ remove k l ]

pub total-charge :
    (l : List Node) → All (λ n. n.size ≡ blob_size n.key n.blob) l → total (view l) ≡ charge l
unfolding total charge entry_size
total-charge [] h = refl
total-charge (n ∷ l) (p, h) = omega (arith, p, total-charge l h)

pub fit_all : (budget : ℕ) (l : List Entry) → total l ≤ budget → fit budget l ≡ l
unfolding fit total
fit_all budget [] h = refl
fit_all budget (e ∷ l) h = ground (arith, fit_all (budget - entry_size e) l)

-- If a list does not fit, its last entry is not in the prefix that does.
pub fit_snoc :
    (budget : ℕ) (l : List Entry) (e : Entry)
    → budget < total (l ++ e ∷ [])
    → fit budget (l ++ e ∷ []) ≡ fit budget l
unfolding fit total
fit_snoc budget [] e h = ground arith
fit_snoc budget (d ∷ l) e h = ground (arith, fit_snoc (budget - entry_size d) l e)

pub lookup-view :
    (k : String) (l : List Node) → lookup k (view l) ≡ Option.map (λ n. n.blob) (find_key k l)
unfolding lookup find_key
lookup-view k [] = refl
lookup-view k (n ∷ l) = ground (arith, lookup-view k l)

pub remove-view :
    (i : ℕ) (n : Node) (l : List Node)
    → find_node i l ≡ some n
    → UniqueKeys l
    → view (remove_node i l) ≡ remove n.key (view l)
unfolding find_node remove_node remove
remove-view i n [] h u = cc
remove-view i n (m ∷ l) h (p, u) = elim (Bool-cases (eqb i m.id)) [
  | inl e ↦ rw e (
      subst (λ q. view l ≡ remove q.key (view (m ∷ l))) (head_same i n m l e h)
        (rw (eq_refl m.key)))
  | inr e ↦
      let there : find_node i l ≡ some n = rw e at h in
      let apart = find_node-All i n (λ q. q.key ≢ m.key) l there p in
      rw e (ground (arith, text_eq n.key m.key, remove-view i n l there u))
]

pub remove_absent :
    (k : String) (l : List Node) → All (λ m. m.key ≢ k) l → remove k (view l) ≡ view l
unfolding remove
remove_absent k [] h = refl
remove_absent k (m ∷ l) (p, h) = ground (arith, text_eq k m.key, remove_absent k l h)
