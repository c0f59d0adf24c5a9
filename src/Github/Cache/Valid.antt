-- ===== src/Github/Cache/Valid.antt =====
-- The invariant of the cache: the map leads to exactly the entries of the list, and `bytes` is what
-- they are charged. Reading, writing and clearing keep it.
use differ_nvim.Common.{
  ℕ, suc, ◌+◌, ◌-◌, ◌<◌, ◌≤◌, ◌≡◌, ◌≢◌, refl, sym, ap, ◌∙◌, String, some, List, [], ◌∷◌, All, arith,
  Option-cases, inl, inr,
}
use differ_nvim.Github.Results.{FileBlob}
use differ_nvim.Github.Cache.{
  Node, Cache, blob_size, new_cache, find_node, remove_node, deref, blob, store, clear_all,
}
use differ_nvim.Github.Cache.Index.{
  find_key, deref-id_of, find_key-key, find_key-none, deref-find_node,
}
use differ_nvim.Github.Cache.Nodes.{
  UniqueKeys, UniqueIds, id_of, charge, All-remove_node, UniqueKeys-remove_node,
  UniqueIds-remove_node, find_node-All, charge-remove_node, others_key, others_id, id_of_front,
}

pub record IsValid (c : Cache) : Type 0 where
  pub total : c.bytes ≡ charge c.lru
  pub sizes : All (λ n. n.size ≡ blob_size n.key n.blob) c.lru
  pub index : (k : String) → c.blobs k ≡ id_of k c.lru
  pub keys : UniqueKeys c.lru
  pub ids : UniqueIds c.lru
  pub fresh : All (λ n. n.id < c.next) c.lru

pub new_cache-IsValid : IsValid new_cache
unfolding new_cache charge id_of
new_cache-IsValid = record {
  total = refl;
  sizes = tt;
  index = λ k. refl;
  keys = tt;
  ids = tt;
  fresh = tt;
}

pub clear_all-IsValid : (c : Cache) → IsValid (clear_all c)
unfolding clear_all charge id_of
clear_all-IsValid c = record {
  total = refl;
  sizes = tt;
  index = λ k. refl;
  keys = tt;
  ids = tt;
  fresh = tt;
}

-- On a valid cache the map and the list agree on every key.
pub deref-find_key :
    (c : Cache) → IsValid c → (k : String) → deref (c.blobs k) c.lru ≡ find_key k c.lru
deref-find_key c v k = rw (v.index k) (deref-id_of k c.lru v.ids)

-- An entry of the list, perhaps with other contents, at the front.
abbrev pub front : Node → FileBlob → ℕ → ℕ → Cache → Cache
front n b size bytes c = record c {
  lru = record n { blob = b; size = size } ∷ remove_node n.id c.lru;
  bytes = bytes;
}

front-IsValid :
    (c : Cache) (n : Node) (b : FileBlob) (size bytes : ℕ)
    → IsValid c
    → find_node n.id c.lru ≡ some n
    → size ≡ blob_size n.key b
    → bytes + n.size ≡ c.bytes + size
    → IsValid (front n b size bytes c)
unfolding charge id_of
front-IsValid c n b size bytes v h right paid = record {
  total = omega (arith, charge-remove_node n.id n c.lru h, v.total);
  sizes = (right, All-remove_node (λ m. m.size ≡ blob_size m.key m.blob) n.id c.lru v.sizes);
  index = λ k. v.index k ∙ sym (id_of_front n.id n k c.lru h v.keys);
  keys = (others_key n.id n c.lru h v.keys, UniqueKeys-remove_node n.id c.lru v.keys);
  ids = (others_id n.id n c.lru h v.ids, UniqueIds-remove_node n.id c.lru v.ids);
  fresh = (
    find_node-All n.id n (λ m. m.id < c.next) c.lru h v.fresh,
    All-remove_node (λ m. m.id < c.next) n.id c.lru v.fresh,
  );
}

-- The charge of an entry is part of the total.
pub size-le-bytes :
    (c : Cache) (n : Node) → IsValid c → find_node n.id c.lru ≡ some n → n.size ≤ c.bytes
size-le-bytes c n v h = omega (arith, charge-remove_node n.id n c.lru h, v.total)

older : (l : List Node) (next : ℕ) → All (λ n. n.id < next) l → All (λ n. n.id ≢ next) l
older [] next h = tt
older (n ∷ l) next (p, h) = (omega arith, older l next h)

still_older : (l : List Node) (next : ℕ) → All (λ n. n.id < next) l → All (λ n. n.id < suc next) l
still_older [] next h = tt
still_older (n ∷ l) next (p, h) = (omega arith, still_older l next h)

module _ (key : String) where
  pub blob-IsValid : (c : Cache) → IsValid c → IsValid (blob key c).1
  unfolding blob
  blob-IsValid c v = elim (Option-cases (deref (c.blobs key) c.lru)) [
    | inl miss ↦ rw (miss, blob) v
    | inr (n, hit) ↦
        let h = deref-find_node (c.blobs key) c.lru n hit in
        rw (hit, blob)
          (front-IsValid c n n.blob n.size c.bytes v h
            (find_node-All n.id n (λ m. m.size ≡ blob_size m.key m.blob) c.lru h v.sizes) refl)
  ]

  pub store-IsValid : (b : FileBlob) (c : Cache) → IsValid c → IsValid (store key b c)
  unfolding store id_of charge
  store-IsValid b c v = elim (Option-cases (deref (c.blobs key) c.lru)) [
    | inl miss ↦
        let absent = find_key-none key c.lru (sym (deref-find_key c v key) ∙ miss) in
        rw (miss, store)
          (record {
            total = omega (arith, v.total);
            sizes = (refl, v.sizes);
            index = λ k. ground (arith, v.index k);
            keys = (absent, v.keys);
            ids = (older c.lru c.next v.fresh, v.ids);
            fresh = (omega arith, still_older c.lru c.next v.fresh);
          })
    | inr (n, hit) ↦
        let h = deref-find_node (c.blobs key) c.lru n hit in
        let same = find_key-key key c.lru n (sym (deref-find_key c v key) ∙ hit) in
        rw (hit, store)
          (front-IsValid c n b (blob_size key b) (c.bytes + blob_size key b - n.size) v h
            (ap (λ k. blob_size k b) (sym same)) (omega (arith, size-le-bytes c n v h)))
  ]
