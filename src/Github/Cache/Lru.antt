-- ===== src/Github/Cache/Lru.antt =====
-- `blob`, `putBlob` and `evict` do on the pointers what an LRU list does on its entries.
use differ_nvim.Common.{
  ℕ, zero, suc, ◌<◌, ◌≤◌, ◌≡◌, refl, sym, ap, ap₂, ◌∙◌, String, some, [], ◌∷◌, ◌++◌, arith, ltb,
  Bool-cases, Option-cases, inl, inr, length, map-append,
}
use mathlib.Core.Option
use differ_nvim.Github.Results.{FileBlob}
use differ_nvim.Github.Cache.{
  Node, Cache, remove_node, deref, blob, back, drop_node, evict_loop, evict, store, put_blob,
}
use differ_nvim.Github.Cache.Index.{find_key-key, find_key-none, deref-find_node}
use differ_nvim.Github.Cache.Valid.{IsValid, store-IsValid, deref-find_key, blob-IsValid}
use differ_nvim.Github.Cache.Evict.{
  evict-Settles, no_bytes, empty_of_length, back-none, back-split, back-find_node,
  length-remove_node, drop_node-IsValid,
}
use differ_nvim.Github.Cache.Refines.{
  view, contents, lookup, remove, total, fit, promote, total-charge, fit_all, fit_snoc, lookup-view,
  remove-view, remove_absent,
}

contents_total : (c : Cache) → IsValid c → total (contents c) ≡ c.bytes
contents_total c v = total-charge c.lru v.sizes ∙ sym v.total

fit_within : (c : Cache) → IsValid c → c.bytes ≤ c.limit → fit c.limit (contents c) ≡ contents c
fit_within c v h = fit_all c.limit (contents c) (omega (arith, contents_total c v))

-- A round that evicts does not change what will be left.
drop_node-fit :
    (n : Node) (c : Cache)
    → IsValid c
    → back c.lru ≡ some n
    → c.limit < c.bytes
    → fit c.limit (contents c) ≡ fit (drop_node n c).limit (contents (drop_node n c))
unfolding drop_node
drop_node-fit n c v last over =
    let older = view (remove_node n.id c.lru) in
    let split : contents c ≡ older ++ (n.key, n.blob) ∷ [] =
      ap view (back-split c.lru n last v.ids)
      ∙ map-append (λ (m : Node). (m.key, m.blob)) (remove_node n.id c.lru) (n ∷ []) in
    ap (fit c.limit) split
    ∙ fit_snoc c.limit older (n.key, n.blob) (omega (arith, contents_total c v, ap total split))

evict_loop-fit :
    (fuel : ℕ) (c : Cache)
    → IsValid c
    → length c.lru ≤ fuel
    → contents (evict_loop fuel c) ≡ fit c.limit (contents c)
unfolding evict_loop
evict_loop-fit zero c v h = sym (fit_within c v (no_bytes c v (empty_of_length c.lru h)))
evict_loop-fit (suc fuel) c v h = elim (Option-cases (back c.lru)) [
  | inl empty ↦ rw (empty, evict_loop) (sym (fit_within c v (no_bytes c v (back-none c.lru empty))))
  | inr (n, last) ↦ elim (Bool-cases (ltb c.limit c.bytes)) [
    | inl over ↦
        let there = back-find_node c.lru n last v.ids in
        let d = drop_node n c in
        let shorter =
          evict_loop-fit fuel d (drop_node-IsValid n c v there)
            (omega (arith, length-remove_node n.id n c.lru there)) in
        rw (last, evict_loop, over) (shorter ∙ sym (drop_node-fit n c v last (ground arith)))
    | inr fits ↦ rw (last, evict_loop, fits) (sym (fit_within c v (ground arith)))
  ]
]

-- `evict` keeps the longest run of recent entries that fits in the limit.
evict-fit : (c : Cache) → IsValid c → contents (evict c) ≡ fit c.limit (contents c)
unfolding evict
evict-fit c v = evict_loop-fit (length c.lru) c v (omega arith)

module _ (key : String) where
  found-lookup :
      (c : Cache)
      → IsValid c
      → lookup key (contents c) ≡ Option.map (λ n. n.blob) (deref (c.blobs key) c.lru)
  found-lookup c v =
      lookup-view key c.lru ∙ ap (Option.map (λ n. n.blob)) (sym (deref-find_key c v key))

  store-contents :
      (b : FileBlob) (c : Cache)
      → IsValid c
      → (contents (store key b c) ≡ (key, b) ∷ remove key (contents c))
        × ((store key b c).limit ≡ c.limit)
  unfolding store
  store-contents b c v = elim (Option-cases (deref (c.blobs key) c.lru)) [
    | inl miss ↦
        rw (miss, store)
          (let absent = find_key-none key c.lru (sym (deref-find_key c v key) ∙ miss) in
            (ap (◌∷◌ (key, b)) (sym (remove_absent key c.lru absent)), refl))
    | inr (n, hit) ↦
        rw (hit, store)
          (let h = deref-find_node (c.blobs key) c.lru n hit in
            let same = find_key-key key c.lru n (sym (deref-find_key c v key) ∙ hit) in
            (rw (remove-view n.id n c.lru h v.keys, same), refl))
  ]

  -- On a valid cache `blob` answers what the entry of the key holds, moves that entry to the front
  -- and leaves the others in order, their charge and the validity of the cache.
  pub blob-promote :
      (c : Cache)
      → IsValid c
      → ((blob key c).0 ≡ lookup key (contents c))
        × (contents (blob key c).1 ≡ promote key (contents c))
        × ((blob key c).1.bytes ≡ c.bytes)
        × IsValid (blob key c).1
  unfolding blob promote
  blob-promote c v = elim (Option-cases (deref (c.blobs key) c.lru)) [
    | inl miss ↦
        let absent = found-lookup c v ∙ ap (Option.map (λ n. n.blob)) miss in
        rw (miss, blob, absent, promote) (refl, refl, refl, v)
    | inr (n, hit) ↦
        let present = found-lookup c v ∙ ap (Option.map (λ n. n.blob)) hit in
        let h = deref-find_node (c.blobs key) c.lru n hit in
        let same = find_key-key key c.lru n (sym (deref-find_key c v key) ∙ hit) in
        let valid = rw (hit, blob) at (blob-IsValid key c v) in
        rw (hit, blob, present)
          (refl, rw (remove-view n.id n c.lru h v.keys, same, promote, present), refl, valid)
  ]

  -- On a valid cache `putBlob` leaves the entry of the key, with the new content, at the front of the
  -- others, cut to the longest prefix whose charges together are within the limit; the cache stays
  -- valid, so `bytes` is the charge of what is left, and is within the limit.
  pub put_blob-fit :
      (b : FileBlob) (c : Cache)
      → IsValid c
      → (contents (put_blob key b c) ≡ fit c.limit ((key, b) ∷ remove key (contents c)))
        × ((put_blob key b c).bytes ≤ c.limit)
        × IsValid (put_blob key b c)
  unfolding put_blob
  put_blob-fit b c v =
      let stored = store key b c in
      let w = store-IsValid key b c v in
      let (held, same) = store-contents b c v in
      let done = evict-Settles stored w in
      (evict-fit stored w ∙ ap₂ fit same held, rw same at done.1, done.0)
