-- ===== src/Github/Files/Refusals.antt =====
-- internal/github/files.go: the errors of `GetFileVersions`, that it sends nothing without a
-- token, and that it keeps the cache.
use differ_nvim.Common.{
  ◌≡◌, refl, ◌∙◌, String, Bool, true, false, Option, none, some, ◌==◌, ◌||◌, if_both,
}
use differ_nvim.Common.Int.{ℤ}
use differ_nvim.Protocol.{GoError, Result, ok, err}
use differ_nvim.Github.Cache.Within.{IsWithin, blob-IsWithin, put_blob-IsWithin}
use differ_nvim.Github.Results.{FileBlob}
use differ_nvim.Github.Client.{M, Session, Env, Sent, pure}
use differ_nvim.Github.Client.Closed.{
  Orderly, ClosedResult, ClosedOption, ClosedGo, fine, refused, closed_bind, closed_then,
  closed_pure, closed_check, closed_after_token, closed_check_url, closed_bind_send,
  closed_get_json,
}
use differ_nvim.Github.Files.{
  cached, remember, keep_answer, is_not_found, download, or_download, raw_blob, pr_refs, joined,
  both_blobs, refs_or_pinned, get_file_versions,
}

closed_cached : {o : Option GoError} (key : String) → Orderly o (cached key)
unfolding cached
closed_cached key = record {
  at = λ s. fine _;
  silent = λ s no. refl;
  within = λ s w. blob-IsWithin key s.cache w;
}

closed_remember : {o : Option GoError} (key : String) (b : FileBlob) → Orderly o (remember key b)
unfolding remember
closed_remember key b = record {
  at = λ s. fine tt;
  silent = λ s no. refl;
  within = λ s w. put_blob-IsWithin key b s.cache w;
}

closed_keep :
    {o : Option GoError} (key : String) (r : Sent)
    → ClosedOption r.failure
    → Orderly o (keep_answer key r)
unfolding keep_answer
closed_keep key r h =
    if_both (Orderly _) (is_not_found r.response) _ _
      (closed_then _ _ (closed_remember _ _) (closed_pure _))
      (closed_then _ _ (closed_check r.failure h)
        (closed_then _ _ (closed_remember _ _) (closed_pure _)))

-- The two results that are joined are each of them an error of the closed set or none.
closed_joined :
    (b h : Result FileBlob) (s : Session)
    → ClosedResult b
    → ClosedResult h
    → ClosedResult (joined b h s).0
unfolding pure
closed_joined (err e) h s (refused _ c) k = refused e c
closed_joined (ok b) (err e) s c (refused _ k) = refused e k
closed_joined (ok b) (ok h) s c k = fine _

joined_silent : (b h : Result FileBlob) (s : Session) → (joined b h s).1.sent ≡ s.sent
unfolding pure
joined_silent (err e) h s = refl
joined_silent (ok b) (err e) s = refl
joined_silent (ok b) (ok h) s = refl

joined-IsWithin :
    (b h : Result FileBlob) (s : Session) → IsWithin s.cache → IsWithin (joined b h s).1.cache
unfolding pure
joined-IsWithin (err e) h s w = w
joined-IsWithin (ok b) (err e) s w = w
joined-IsWithin (ok b) (ok h) s w = w

closed_both :
    {o : Option GoError} (base_first : Bool) (b h : M FileBlob)
    → Orderly o b
    → Orderly o h
    → Orderly o (both_blobs base_first b h)
unfolding both_blobs
closed_both true b h cb ch = record {
  at = λ s. closed_joined (b s).0 (h (b s).1).0 (h (b s).1).1 (cb.at s) (ch.at (b s).1);
  silent = λ s no. joined_silent (b s).0 (h (b s).1).0 _ ∙ ch.silent (b s).1 no ∙ cb.silent s no;
  within = λ s w. joined-IsWithin (b s).0 (h (b s).1).0 _ (ch.within (b s).1 (cb.within s w));
}
closed_both false b h cb ch = record {
  at = λ s. closed_joined (b (h s).1).0 (h s).0 (b (h s).1).1 (cb.at (h s).1) (ch.at s);
  silent = λ s no. joined_silent (b (h s).1).0 (h s).0 _ ∙ cb.silent (h s).1 no ∙ ch.silent s no;
  within = λ s w. joined-IsWithin (b (h s).1).0 (h s).0 _ (cb.within (h s).1 (ch.within s w));
}

module _ (env : Env) (token : ClosedGo env.token_err) where
  closed_or_download :
      (o : Option FileBlob) (m : M FileBlob)
      → Orderly env.token_err m
      → Orderly env.token_err (or_download o m)
  closed_or_download none m h = h
  closed_or_download (some b) m h = closed_pure b

  closed_raw_blob :
      (owner repo path ref : String) → Orderly env.token_err (raw_blob env owner repo path ref)
  unfolding raw_blob download
  closed_raw_blob owner repo path ref = closed_after_token env.token_err _ token (λ known.
      closed_bind _ _ (closed_cached _) (λ o. closed_or_download o _ (
        closed_then _ _ (closed_check_url _)
          (closed_bind_send env _ _ known (λ r h. closed_keep _ r h)))))

  pub closed_file_versions :
      (base_first : Bool) (owner repo : String) (n : ℤ) (path base_path base head : String)
      → Orderly env.token_err
          (get_file_versions env base_first owner repo n path base_path base head)
  unfolding get_file_versions refs_or_pinned pr_refs
  closed_file_versions base_first owner repo n path base_path base head =
      closed_bind _ _
        (if_both (Orderly _) (base == "" || head == "") _ _ (closed_get_json env token _ _)
          (closed_pure _))
        (λ refs. closed_both base_first _ _ (closed_raw_blob _ _ _ _) (closed_raw_blob _ _ _ _))
