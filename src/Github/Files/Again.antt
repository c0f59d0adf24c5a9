-- ===== src/Github/Files/Again.antt =====
-- internal/github/files.go and cache.go: a blob that was read once is read from the cache.
use differ_nvim.Common.{
  ℕ, ◌≤◌, ◌≡◌, refl, sym, ap, subst, ◌∙◌, String, true, Option, none, some, List, ◌∷◌, leb, eq_refl,
  if_both, Option-cases, inl, inr, arith,
}
use differ_nvim.Protocol.{Error, Result, ok, err}
use differ_nvim.Github.Cache
use differ_nvim.Github.Cache.{Cache, blob_key, blob_size, put_blob, deref}
use differ_nvim.Github.Cache.History.{lookup-promote}
use differ_nvim.Github.Cache.Lru.{blob-promote, put_blob-fit}
use differ_nvim.Github.Cache.Refines.{Entry, contents, lookup, fit, entry_size}
use differ_nvim.Github.Cache.Valid.{IsValid}
use differ_nvim.Github.Client.{
  M, Session, Env, Sent, ◌>>◌, pure, throw, fail_with, check, check_go, check_url, send,
}
use differ_nvim.Github.Files.{
  cached, remember, keep_answer, is_not_found, blob_url, download, or_download, raw_blob,
}
use differ_nvim.Github.Results.{FileBlob}

blob-limit : (key : String) (c : Cache) → (Cache.blob key c).1.limit ≡ c.limit
unfolding Cache.blob
blob-limit key c = elim (Option-cases (deref (c.blobs key) c.lru)) [
  | inl miss ↦ rw (miss, Cache.blob) refl
  | inr (n, hit) ↦ rw (hit, Cache.blob) refl
]

-- An entry that fits stays at the front.
lookup-fit_front :
    (key : String) (b : FileBlob) (budget : ℕ) (l : List Entry)
    → blob_size key b ≤ budget
    → lookup key (fit budget ((key, b) ∷ l)) ≡ some b
unfolding lookup fit entry_size
lookup-fit_front key b budget l h =
    let small : leb (blob_size key b) budget ≡ true = ground arith in
    rw (small, lookup, eq_refl key)

module _ (key : String) (limit : ℕ) where
  -- After a call that succeeded the cache is valid, and holds the answer if that fits.
  abbrev Held : Result FileBlob × Session → Type 0
  Held (err e, t) = Unit {0}
  Held (ok b, t) =
      IsValid t.cache × (blob_size key b ≤ limit → lookup key (contents t.cache) ≡ some b)

  remember-Held :
      (b : FileBlob) (s : Session)
      → IsValid s.cache
      → s.cache.limit ≡ limit
      → Held ((remember key b >> pure b) s)
  unfolding remember pure
  remember-Held b s v same =
      let (left, _, valid) = put_blob-fit key b s.cache v in
      (
        valid,
        λ small.
            ap (lookup key) left
            ∙ lookup-fit_front key b s.cache.limit _
                (subst (λ n. blob_size key b ≤ n) (sym same) small),
      )

  check-Held :
      (o : Option Error) (k : M FileBlob) (s : Session) → Held (k s) → Held ((check o >> k) s)
  unfolding check pure throw
  check-Held none k s h = h
  check-Held (some e) k s h = tt

  check_url-Held :
      (o : Option String) (k : M FileBlob) (s : Session) → Held (k s) → Held ((check_url o >> k) s)
  unfolding check_url pure throw fail_with
  check_url-Held none k s h = h
  check_url-Held (some e) k s h = tt

  keep_answer-Held :
      (r : Sent) (s : Session)
      → IsValid s.cache
      → s.cache.limit ≡ limit
      → Held (keep_answer key r s)
  unfolding keep_answer
  keep_answer-Held r s v same =
      if_both (λ (m : M FileBlob). Held (m s)) (is_not_found r.response) _ _
        (remember-Held _ s v same) (check-Held r.failure _ s (remember-Held _ s v same))

  or_download-Held :
      (o : Option FileBlob) (m : M FileBlob) (s : Session)
      → IsValid s.cache
      → lookup key (contents s.cache) ≡ o
      → Held (m s)
      → Held (or_download o m s)
  unfolding pure
  or_download-Held none m s v found h = h
  or_download-Held (some b) m s v found h = (v, λ _. found)

module _ (env : Env) (owner repo path ref : String) (token : env.token_err ≡ none) where
  abbrev key : String
  key = blob_key owner repo ref path

  download-Held :
      (limit : ℕ) (s : Session)
      → IsValid s.cache
      → s.cache.limit ≡ limit
      → Held key limit (download env owner repo path ref s)
  unfolding download send
  download-Held limit s v same =
      check_url-Held key limit _ _ s (keep_answer-Held key limit _ _ v same)

  raw_blob-Held :
      (s : Session) → IsValid s.cache → Held key s.cache.limit (raw_blob env owner repo path ref s)
  unfolding raw_blob check_go pure cached download blob_url send
  raw_blob-Held s v =
      let (answer, kept, _, valid) = blob-promote key s.cache v in
      let t : Session = record s { cache = (Cache.blob key s.cache).1 } in
      rw token (
        or_download-Held key s.cache.limit (Cache.blob key s.cache).0 _ t valid
          (ap (lookup key) kept ∙ lookup-promote key key (contents s.cache) ∙ sym answer)
          (download-Held s.cache.limit t valid (blob-limit key s.cache)))

  -- What the next call does where the cache has the blob.
  hit_again :
      (b : FileBlob) (t : Session)
      → (Cache.blob key t.cache).0 ≡ some b
      → ((raw_blob env owner repo path ref t).0 ≡ ok b)
        × ((raw_blob env owner repo path ref t).1.sent ≡ t.sent)
  unfolding raw_blob check_go pure cached
  hit_again b t hit = rw (token, hit) (refl, refl)

  -- With a token and a valid cache, what `rawBlob` has answered, if it is no larger than the cache,
  -- a second call answers again, and sends nothing: also that the path is missing at the commit.
  pub raw_blob-again :
      (s t : Session) (b : FileBlob)
      → IsValid s.cache
      → raw_blob env owner repo path ref s ≡ (ok b, t)
      → blob_size key b ≤ s.cache.limit
      → ((raw_blob env owner repo path ref t).0 ≡ ok b)
        × ((raw_blob env owner repo path ref t).1.sent ≡ t.sent)
  raw_blob-again s t b v answered small =
      let (valid, held) = subst (Held key s.cache.limit) answered (raw_blob-Held s v) in
      hit_again b t ((blob-promote key t.cache valid).0 ∙ held small)
