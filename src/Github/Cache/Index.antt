-- ===== src/Github/Cache/Index.antt =====
-- Following the pointer of a key.
use differ_nvim.Common.{
  ℕ, ◌≡◌, ◌≢◌, refl, sym, subst, ◌∙◌, String, true, Option, none, some, List, [], ◌∷◌, All, arith,
  eqb, ◌==◌, text_eq, if◌then◌else◌, Bool-cases, inl, inr,
}
use differ_nvim.Github.Cache.{Node, find_node, deref}
use differ_nvim.Github.Cache.Nodes.{UniqueIds, id_of, find_node-id}

-- The entry with a key, found without its identity.
unfoldable pub find_key : String → List Node → Option Node
find_key k [] = none
find_key k (n ∷ l) = if k == n.key then some n else find_key k l

id_of-All :
    (P : ℕ → Type 0) (k : String) (l : List Node) {i : ℕ}
    → id_of k l ≡ some i
    → All (λ m. P m.id) l
    → P i
unfolding id_of
id_of-All P k [] h a = cc
id_of-All P k (m ∷ l) h (p, a) = elim (Bool-cases (k == m.key)) [
  | inl e ↦ let here : some m.id ≡ some _ = rw e at h in subst P (cc here) p
  | inr e ↦ id_of-All P k l (rw e at h) a
]

eqb_refl : (i : ℕ) → eqb i i ≡ true
eqb_refl i = ground arith

deref_skip :
    (m : Node) (o : Option ℕ) (l : List Node)
    → ((i : ℕ) → o ≡ some i → i ≢ m.id)
    → deref o (m ∷ l) ≡ deref o l
unfolding deref find_node
deref_skip m none l h = refl
deref_skip m (some i) l h = ground (arith, h i refl)

-- No pointer of the map dangles: it leads to the entry with the key.
pub deref-id_of : (k : String) (l : List Node) → UniqueIds l → deref (id_of k l) l ≡ find_key k l
unfolding id_of find_key deref find_node
deref-id_of k [] u = refl
deref-id_of k (m ∷ l) (p, u) = elim (Bool-cases (k == m.key)) [
  | inl e ↦ rw (e, eqb_refl m.id)
  | inr e ↦
      rw e
        (deref_skip m (id_of k l) l (λ i q. id_of-All (λ j. j ≢ m.id) k l q p) ∙ deref-id_of k l u)
]

pub find_key-key : (k : String) (l : List Node) (n : Node) → find_key k l ≡ some n → n.key ≡ k
unfolding find_key
find_key-key k [] n h = cc
find_key-key k (m ∷ l) n h = ground (arith, text_eq k m.key, find_key-key k l n)

pub find_key-none : (k : String) (l : List Node) → find_key k l ≡ none → All (λ m. m.key ≢ k) l
unfolding find_key
find_key-none k [] h = tt
find_key-none k (m ∷ l) h = elim (Bool-cases (k == m.key)) [
  | inl e ↦ cc (rw e at h)
  | inr e ↦ (λ q. ground (arith, text_eq k m.key), find_key-none k l (rw e at h))
]

pub deref-find_node :
    (o : Option ℕ) (l : List Node) (n : Node) → deref o l ≡ some n → find_node n.id l ≡ some n
unfolding deref
deref-find_node none l n h = cc
deref-find_node (some i) l n h = subst (λ j. find_node j l ≡ some n) (sym (find_node-id i n l h)) h
