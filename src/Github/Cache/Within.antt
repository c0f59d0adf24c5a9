-- ===== src/Github/Cache/Within.antt =====
-- internal/github/cache.go: a cache with the limit of `newCache` stays valid and within it.
use differ_nvim.Common.{◌≡◌, refl, ◌∙◌, ◌≤◌, String, arith, Option-cases, inl, inr}
use differ_nvim.Github.Results.{FileBlob}
use differ_nvim.Github.Cache.{
  Cache, new_cache, max_blob_bytes, deref, blob, store, put_blob, clear_all,
}
use differ_nvim.Github.Cache.Valid.{IsValid, new_cache-IsValid, clear_all-IsValid, store-IsValid}
use differ_nvim.Github.Cache.Evict.{evict-Settles}
use differ_nvim.Github.Cache.Lru.{blob-promote, put_blob-fit}

-- The cache is valid, has the limit of `newCache`, and its charge is within that.
abbrev pub IsWithin : Cache → Type 0
IsWithin c = IsValid c × (c.bytes ≤ max_blob_bytes) × (c.limit ≡ max_blob_bytes)

pub new_cache-IsWithin : IsWithin new_cache
unfolding new_cache
new_cache-IsWithin = (new_cache-IsValid, omega arith, refl)

limit-store : (key : String) (b : FileBlob) (c : Cache) → (store key b c).limit ≡ c.limit
unfolding store
limit-store key b c = elim (Option-cases (deref (c.blobs key) c.lru)) [
  | inl miss ↦ rw (miss, store) refl
  | inr (n, hit) ↦ rw (hit, store) refl
]

limit-blob : (key : String) (c : Cache) → (blob key c).1.limit ≡ c.limit
unfolding blob
limit-blob key c = elim (Option-cases (deref (c.blobs key) c.lru)) [
  | inl miss ↦ rw (miss, blob) refl
  | inr (n, hit) ↦ rw (hit, blob) refl
]

limit-put_blob :
    (key : String) (b : FileBlob) (c : Cache) → IsValid c → (put_blob key b c).limit ≡ c.limit
unfolding put_blob
limit-put_blob key b c v =
    (evict-Settles (store key b c) (store-IsValid key b c v)).2 ∙ limit-store key b c

pub blob-IsWithin : (key : String) (c : Cache) → IsWithin c → IsWithin (blob key c).1
blob-IsWithin key c (v, few, limit) =
    let done = blob-promote key c v in
    (done.3, omega (arith, few, done.2), limit-blob key c ∙ limit)

pub put_blob-IsWithin :
    (key : String) (b : FileBlob) (c : Cache) → IsWithin c → IsWithin (put_blob key b c)
put_blob-IsWithin key b c (v, few, limit) =
    let done = put_blob-fit key b c v in
    (done.2, omega (arith, done.1, limit), limit-put_blob key b c v ∙ limit)

pub clear_all-IsWithin : (c : Cache) → IsWithin c → IsWithin (clear_all c)
unfolding clear_all
clear_all-IsWithin c (v, few, limit) = (clear_all-IsValid c, omega arith, limit)
