-- ===== src/Github/Cache/Nodes.antt =====
-- Lists of entries in which no key and no identity occurs twice.
use differ_nvim.Common.{
  ℕ, ◌+◌, ◌≡◌, ◌≢◌, refl, sym, subst, ◌∙◌, String, true, Option, none, some, List, [], ◌∷◌, All,
  arith, eqb, ◌==◌, text_eq, eq_refl, if◌then◌else◌, Bool-cases, inl, inr,
}
use differ_nvim.Github.Cache.{Node, find_node, remove_node}

abbrev pub UniqueKeys : List Node → Type 0
UniqueKeys [] = Unit
UniqueKeys (n ∷ l) = All (λ m. m.key ≢ n.key) l × UniqueKeys l

abbrev pub UniqueIds : List Node → Type 0
UniqueIds [] = Unit
UniqueIds (n ∷ l) = All (λ m. m.id ≢ n.id) l × UniqueIds l

-- The identity of the entry with a key.
unfoldable pub id_of : String → List Node → Option ℕ
id_of k [] = none
id_of k (n ∷ l) = if k == n.key then some n.id else id_of k l

unfoldable pub charge : List Node → ℕ
charge [] = 0
charge (n ∷ l) = n.size + charge l

pub All-remove_node {κ} :
    (P : Node → Type κ) (i : ℕ) (l : List Node) → All P l → All P (remove_node i l)
unfolding remove_node
All-remove_node P i [] h = tt
All-remove_node P i (n ∷ l) (p, h) = elim (Bool-cases (eqb i n.id)) [
  | inl e ↦ rw e h
  | inr e ↦ rw e (p, All-remove_node P i l h)
]

pub UniqueKeys-remove_node : (i : ℕ) (l : List Node) → UniqueKeys l → UniqueKeys (remove_node i l)
unfolding remove_node
UniqueKeys-remove_node i [] h = tt
UniqueKeys-remove_node i (n ∷ l) (p, h) = elim (Bool-cases (eqb i n.id)) [
  | inl e ↦ rw e h
  | inr e ↦ rw e (All-remove_node (λ m. m.key ≢ n.key) i l p, UniqueKeys-remove_node i l h)
]

pub UniqueIds-remove_node : (i : ℕ) (l : List Node) → UniqueIds l → UniqueIds (remove_node i l)
unfolding remove_node
UniqueIds-remove_node i [] h = tt
UniqueIds-remove_node i (n ∷ l) (p, h) = elim (Bool-cases (eqb i n.id)) [
  | inl e ↦ rw e h
  | inr e ↦ rw e (All-remove_node (λ m. m.id ≢ n.id) i l p, UniqueIds-remove_node i l h)
]

-- What is known of the entry that a pointer leads to.
module _ (i : ℕ) (n : Node) where
  pub find_node-id : (l : List Node) → find_node i l ≡ some n → n.id ≡ i
  unfolding find_node
  find_node-id [] h = cc
  find_node-id (m ∷ l) h = ground (arith, find_node-id l)

  pub head_same :
      (m : Node) (l : List Node) → eqb i m.id ≡ true → find_node i (m ∷ l) ≡ some n → m ≡ n
  unfolding find_node
  head_same m l e h = let here : some m ≡ some n = rw e at h in cc here

  pub find_node-All {κ} :
      (P : Node → Type κ) (l : List Node) → find_node i l ≡ some n → All P l → P n
  unfolding find_node
  find_node-All P [] h a = cc
  find_node-All P (m ∷ l) h (p, a) = elim (Bool-cases (eqb i m.id)) [
    | inl e ↦ subst P (head_same m l e h) p
    | inr e ↦ find_node-All P l (rw e at h) a
  ]

  pub charge-remove_node :
      (l : List Node) → find_node i l ≡ some n → charge (remove_node i l) + n.size ≡ charge l
  unfolding find_node remove_node charge
  charge-remove_node [] h = cc
  charge-remove_node (m ∷ l) h = ground (arith, charge-remove_node l)

  pub others_key :
      (l : List Node)
      → find_node i l ≡ some n
      → UniqueKeys l
      → All (λ m. m.key ≢ n.key) (remove_node i l)
  unfolding find_node remove_node
  others_key [] h u = tt
  others_key (m ∷ l) h (p, u) = elim (Bool-cases (eqb i m.id)) [
    | inl e ↦ rw e (subst (λ q. All (λ k. k.key ≢ q.key) l) (head_same m l e h) p)
    | inr e ↦
        let there : find_node i l ≡ some n = rw e at h in
        rw e (λ q. find_node-All (λ k. k.key ≢ m.key) l there p (sym q), others_key l there u)
  ]

  pub others_id :
      (l : List Node)
      → find_node i l ≡ some n
      → UniqueIds l
      → All (λ m. m.id ≢ n.id) (remove_node i l)
  unfolding find_node remove_node
  others_id [] h u = tt
  others_id (m ∷ l) h (p, u) = elim (Bool-cases (eqb i m.id)) [
    | inl e ↦ rw e (subst (λ q. All (λ k. k.id ≢ q.id) l) (head_same m l e h) p)
    | inr e ↦
        let there : find_node i l ≡ some n = rw e at h in
        rw e (λ q. find_node-All (λ k. k.id ≢ m.id) l there p (sym q), others_id l there u)
  ]

-- A key that no entry has.
pub id_of_absent : (k : String) (l : List Node) → All (λ m. m.key ≢ k) l → id_of k l ≡ none
unfolding id_of
id_of_absent k [] h = refl
id_of_absent k (m ∷ l) (p, h) = ground (arith, text_eq k m.key, id_of_absent k l h)

absent_head :
    (k : String) (m : Node) (l : List Node)
    → All (λ q. q.key ≢ m.key) l
    → id_of k l ≡ (if k == m.key then none else if k == m.key then some m.id else id_of k l)
absent_head k m l p = elim (Bool-cases (k == m.key)) [
  | inl q ↦
      rw q (subst (λ t. id_of t l ≡ none) (sym ((text_eq k m.key).0 q)) (id_of_absent m.key l p))
  | inr q ↦ rw q
]

module _ (i : ℕ) (n : Node) where
  pub id_of_found :
      (l : List Node) → find_node i l ≡ some n → UniqueKeys l → id_of n.key l ≡ some n.id
  unfolding find_node id_of
  id_of_found [] h u = cc
  id_of_found (m ∷ l) h (p, u) = elim (Bool-cases (eqb i m.id)) [
    | inl e ↦
        subst (λ q. id_of q.key (m ∷ l) ≡ some q.id) (head_same i n m l e h) (rw (eq_refl m.key))
    | inr e ↦
        let there : find_node i l ≡ some n = rw e at h in
        let apart = find_node-All i n (λ k. k.key ≢ m.key) l there p in
        ground (arith, text_eq n.key m.key, id_of_found l there u)
  ]

  pub id_of-remove_node :
      (k : String) (l : List Node)
      → find_node i l ≡ some n
      → UniqueKeys l
      → id_of k (remove_node i l) ≡ (if k == n.key then none else id_of k l)
  unfolding find_node id_of remove_node
  id_of-remove_node k [] h u = cc
  id_of-remove_node k (m ∷ l) h (p, u) = elim (Bool-cases (eqb i m.id)) [
    | inl e ↦ rw e (
        subst (λ q. id_of k l ≡ (if k == q.key then none else id_of k (m ∷ l)))
          (head_same i n m l e h) (absent_head k m l p))
    | inr e ↦
        let there : find_node i l ≡ some n = rw e at h in
        let apart = find_node-All i n (λ q. q.key ≢ m.key) l there p in
        rw e (
          ground (
            arith,
            text_eq k m.key,
            text_eq k n.key,
            text_eq n.key m.key,
            id_of-remove_node k l there u,
          ))
  ]

-- An entry that is moved to the front, or written there anew, leaves the map as it is.
pub id_of_front :
    (i : ℕ) (n : Node) (k : String) (l : List Node)
    → find_node i l ≡ some n
    → UniqueKeys l
    → (if k == n.key then some n.id else id_of k (remove_node i l)) ≡ id_of k l
id_of_front i n k l h u = elim (Bool-cases (k == n.key)) [
  | inl e ↦ rw e (
      sym
        (subst (λ t. id_of t l ≡ some n.id) (sym ((text_eq k n.key).0 e)) (id_of_found i n l h u)))
  | inr e ↦ rw e (id_of-remove_node i n k l h u ∙ rw e)
]
