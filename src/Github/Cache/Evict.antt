-- ===== src/Github/Cache/Evict.antt =====
-- The loop of `evict`.
use differ_nvim.Common.{
  ℕ, zero, suc, ◌<◌, ◌≤◌, ◌≡◌, ◌≢◌, refl, ap, subst, none, some, List, [], ◌∷◌, ◌++◌, All, arith,
  ltb, Bool-cases, Option-cases, inl, inr, length,
}
use differ_nvim.Github.Cache.{
  Node, Cache, find_node, remove_node, back, drop_node, evict_loop, evict, blob_size,
}
use differ_nvim.Github.Cache.Nodes.{
  UniqueIds, charge, All-remove_node, UniqueKeys-remove_node, UniqueIds-remove_node,
  charge-remove_node, id_of-remove_node,
}
use differ_nvim.Github.Cache.Valid.{IsValid}

back-All : (P : Node → Type 0) (l : List Node) (n : Node) → back l ≡ some n → All P l → P n
unfolding back
back-All P [] n h a = cc
back-All P (m ∷ []) n h (p, a) = subst P (cc h) p
back-All P (m ∷ q ∷ l) n h (p, a) = back-All P (q ∷ l) n h a

-- The last entry, as a split of the list.
pub back-split :
    (l : List Node) (n : Node) → back l ≡ some n → UniqueIds l → l ≡ remove_node n.id l ++ n ∷ []
unfolding back remove_node
back-split [] n h u = cc
back-split (m ∷ []) n h u = ground arith
back-split (m ∷ q ∷ l) n h (p, u) =
    let apart = back-All (λ k. k.id ≢ m.id) (q ∷ l) n h p in
    let rest = back-split (q ∷ l) n h u in ground arith

pub back-find_node :
    (l : List Node) (n : Node) → back l ≡ some n → UniqueIds l → find_node n.id l ≡ some n
unfolding back find_node
back-find_node [] n h u = cc
back-find_node (m ∷ []) n h u = ground arith
back-find_node (m ∷ q ∷ l) n h (p, u) =
    let apart = back-All (λ k. k.id ≢ m.id) (q ∷ l) n h p in
    let there = back-find_node (q ∷ l) n h u in ground arith

pub back-none : (l : List Node) → back l ≡ none → l ≡ []
unfolding back
back-none [] h = refl
back-none (m ∷ []) h = cc
back-none (m ∷ q ∷ l) h = absurd (cc (back-none (q ∷ l) h))

pub length-remove_node :
    (i : ℕ) (n : Node) (l : List Node)
    → find_node i l ≡ some n
    → length l ≡ suc (length (remove_node i l))
unfolding find_node remove_node
length-remove_node i n [] h = cc
length-remove_node i n (m ∷ l) h = ground (arith, length-remove_node i n l)

pub drop_node-IsValid :
    (n : Node) (c : Cache) → IsValid c → find_node n.id c.lru ≡ some n → IsValid (drop_node n c)
unfolding drop_node
drop_node-IsValid n c v h = record {
  total = omega (arith, charge-remove_node n.id n c.lru h, v.total);
  sizes = All-remove_node (λ m. m.size ≡ blob_size m.key m.blob) n.id c.lru v.sizes;
  index = λ k. ground (arith, v.index k, id_of-remove_node n.id n k c.lru h v.keys);
  keys = UniqueKeys-remove_node n.id c.lru v.keys;
  ids = UniqueIds-remove_node n.id c.lru v.ids;
  fresh = All-remove_node (λ m. m.id < c.next) n.id c.lru v.fresh;
}

pub empty_of_length : (l : List Node) → length l ≤ 0 → l ≡ []
empty_of_length [] h = refl
empty_of_length (n ∷ l) h = absurd (omega arith)

pub no_bytes : (c : Cache) → IsValid c → c.lru ≡ [] → c.bytes ≤ c.limit
unfolding charge
no_bytes c v e = omega (arith, v.total, ap charge e)

-- A valid cache within the limit of another.
abbrev pub Settles : Cache → Cache → Type 0
Settles c d = IsValid d × (d.bytes ≤ c.limit) × (d.limit ≡ c.limit)

pub evict_loop-Settles :
    (fuel : ℕ) (c : Cache) → IsValid c → length c.lru ≤ fuel → Settles c (evict_loop fuel c)
unfolding evict_loop
evict_loop-Settles zero c v h = (v, no_bytes c v (empty_of_length c.lru h), refl)
evict_loop-Settles (suc fuel) c v h = elim (Option-cases (back c.lru)) [
  | inl empty ↦ rw (empty, evict_loop) (v, no_bytes c v (back-none c.lru empty), refl)
  | inr (n, last) ↦ elim (Bool-cases (ltb c.limit c.bytes)) [
    | inl over ↦
        let there = back-find_node c.lru n last v.ids in
        let d = drop_node n c in
        rw (last, evict_loop, over)
          (evict_loop-Settles fuel d (drop_node-IsValid n c v there)
            (omega (arith, length-remove_node n.id n c.lru there)))
    | inr fits ↦ rw (last, evict_loop, fits) (v, ground arith, refl)
  ]
]

pub evict-Settles : (c : Cache) → IsValid c → Settles c (evict c)
unfolding evict
evict-Settles c v = evict_loop-Settles (length c.lru) c v (omega arith)
