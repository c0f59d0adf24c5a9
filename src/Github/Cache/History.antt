-- ===== src/Github/Cache/History.antt =====
-- The cache over a whole session: a hit is what was last written.
use differ_nvim.Common.{
  ℕ, ◌-◌, ◌≡◌, refl, sym, ap, ◌∙◌, String, false, Option, none, some, List, [], ◌∷◌, arith, ◌==◌,
  text_eq, if◌then◌else◌, Bool-cases, Option-cases, inl, inr,
}
use differ_nvim.Github.Results.{FileBlob}
use differ_nvim.Github.Cache.{Cache, new_cache, blob, put_blob, clear_all}
use differ_nvim.Github.Cache.Valid.{IsValid, new_cache-IsValid, clear_all-IsValid}
use differ_nvim.Github.Cache.Refines.{Entry, contents, lookup, remove, fit, promote, entry_size}
use differ_nvim.Github.Cache.Lru.{blob-promote, put_blob-fit}

-- The operations of the cache.
pub data Op : Type 0 where
  get : String → Op
  put : String → FileBlob → Op
  clear : Op

unfoldable pub apply : Op → Cache → Cache
apply (get k) c = (blob k c).1
apply (put k b) c = put_blob k b c
apply clear c = clear_all c

-- A session, the latest operation first, from an empty cache.
unfoldable pub run : List Op → Cache
unfolding apply
run [] = new_cache
run (op ∷ ops) = apply op (run ops)

-- What was last written under a key since the last clear.
unfoldable pub last_put : String → List Op → Option FileBlob
last_put q [] = none
last_put q (get k ∷ ops) = last_put q ops
last_put q (put k b ∷ ops) = if q == k then some b else last_put q ops
last_put q (clear ∷ ops) = none

pub run-IsValid : (ops : List Op) → IsValid (run ops)
unfolding run
run-IsValid [] = new_cache-IsValid
run-IsValid (get k ∷ ops) = (blob-promote k (run ops) (run-IsValid ops)).3
run-IsValid (put k b ∷ ops) = (put_blob-fit k b (run ops) (run-IsValid ops)).2
run-IsValid (clear ∷ ops) = clear_all-IsValid (run ops)

lookup-remove_ne :
    (q k : String) (l : List Entry) → (q == k) ≡ false → lookup q (remove k l) ≡ lookup q l
unfolding lookup remove
lookup-remove_ne q k [] h = refl
lookup-remove_ne q k (e ∷ l) h =
    ground (arith, text_eq q k, text_eq k e.0, text_eq q e.0, lookup-remove_ne q k l h)

lookup-fit :
    (q : String) (budget : ℕ) (l : List Entry) (b : FileBlob)
    → lookup q (fit budget l) ≡ some b
    → lookup q l ≡ some b
unfolding lookup fit
lookup-fit q budget [] b h = h
lookup-fit q budget (e ∷ l) b h = ground (arith, lookup-fit q (budget - entry_size e) l b)

lookup_written :
    (q k : String) (b : FileBlob) (l : List Entry)
    → lookup q ((k, b) ∷ remove k l) ≡ (if q == k then some b else lookup q l)
unfolding lookup
lookup_written q k b l = elim (Bool-cases (q == k)) [
  | inl e ↦ rw e
  | inr e ↦ rw e (lookup-remove_ne q k l e)
]

lookup-front :
    (q k : String) (l : List Entry) (b : FileBlob)
    → lookup k l ≡ some b
    → lookup q ((k, b) ∷ remove k l) ≡ lookup q l
lookup-front q k l b hit = elim (Bool-cases (q == k)) [
  | inl e ↦ lookup_written q k b l ∙ (rw (e, (text_eq q k).0 e, hit))
  | inr e ↦ lookup_written q k b l ∙ (rw e)
]

pub lookup-promote : (q k : String) (l : List Entry) → lookup q (promote k l) ≡ lookup q l
unfolding promote
lookup-promote q k l = elim (Option-cases (lookup k l)) [
  | inl miss ↦ rw (promote, miss)
  | inr (b, hit) ↦ rw (promote, hit) (lookup-front q k l b hit)
]

held_put :
    (ops : List Op) (q : String) (b : FileBlob)
    → lookup q (contents (run ops)) ≡ some b
    → last_put q ops ≡ some b
unfolding run last_put
held_put [] q b h = unfold new_cache lookup in cc h
held_put (get k ∷ ops) q b h =
    let (_, promoted, _, _) = blob-promote k (run ops) (run-IsValid ops) in
    held_put ops q b
      (sym (lookup-promote q k (contents (run ops))) ∙ sym (ap (lookup q) promoted) ∙ h)
held_put (put k c ∷ ops) q b h =
    let (left, _, _) = put_blob-fit k c (run ops) (run-IsValid ops) in
    let kept = lookup-fit q (run ops).limit _ b (sym (ap (lookup q) left) ∙ h) in
    let found = sym (lookup_written q k c (contents (run ops))) ∙ kept in
    elim (Bool-cases (q == k)) [
      | inl e ↦ rw e (rw e at found)
      | inr e ↦ rw e (held_put ops q b (rw e at found))
    ]
held_put (clear ∷ ops) q b h = unfold clear_all lookup in cc h

-- After any operations from an empty cache, a hit returns the content that was last written under
-- the key and not cleared since.
pub hit_is_last_put :
    (ops : List Op) (q : String) {b : FileBlob}
    → (blob q (run ops)).0 ≡ some b
    → last_put q ops ≡ some b
hit_is_last_put ops q {b} h =
    held_put ops q b (sym (blob-promote q (run ops) (run-IsValid ops)).0 ∙ h)
