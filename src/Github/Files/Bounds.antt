-- ===== src/Github/Files/Bounds.antt =====
-- internal/github/files.go: how many calls `GetFileVersions` makes.
use differ_nvim.Common.{
  refl, ℕ, ◌+◌, String, Bool, true, false, Option, none, some, ◌==◌, ◌||◌, if_both, if◌then◌else◌,
  arith, Bool-cases, inl, inr,
}
use differ_nvim.Common.Int.{ℤ}
use differ_nvim.Protocol.{Result, ok, err}
use differ_nvim.Github.Results.{FileBlob}
use differ_nvim.Github.Client.{M, Env, Sent, pure, ◌>>=◌}
use differ_nvim.Github.Dtos.{PrRefsDto}
use differ_nvim.Github.Client.Reads.{same, is_read}
use differ_nvim.Github.Client.Calls.{
  ReadsAtMost, bounded_bind, bounded_le, bounded_after, bounded_pure, bounded_check,
  bounded_check_go, bounded_check_url, bounded_send, bounded_get_json,
}
use differ_nvim.Github.Files.{
  or_download, cached, remember, keep_answer, is_not_found, download, raw_blob, pr_refs, attempt,
  joined, both_blobs, refs_or_pinned, get_file_versions,
}

bounded_cached : (key : String) → ReadsAtMost 0 (cached key)
unfolding cached
bounded_cached key = record { reads = λ s. same; few = λ s. omega arith }

bounded_remember : (key : String) (b : FileBlob) → ReadsAtMost 0 (remember key b)
unfolding remember
bounded_remember key b = record { reads = λ s. same; few = λ s. omega arith }

bounded_keep : (key : String) (r : Sent) → ReadsAtMost 0 (keep_answer key r)
unfolding keep_answer
bounded_keep key r =
    if_both (ReadsAtMost 0) (is_not_found r.response) _ _
      (bounded_after 0 _ _ (bounded_remember _ _) (λ _. bounded_pure _))
      (bounded_after 0 _ _ (bounded_check r.failure)
        (λ _. bounded_after 0 _ _ (bounded_remember _ _) (λ _. bounded_pure _)))

bounded_attempt : {A : Type 0} (n : ℕ) (m : M A) → ReadsAtMost n m → ReadsAtMost n (attempt m)
bounded_attempt n m h = record { reads = h.reads; few = h.few }

bounded_joined : (b h : Result FileBlob) → ReadsAtMost 0 (joined b h)
unfolding pure
bounded_joined (err e) h = record { reads = λ s. same; few = λ s. omega arith }
bounded_joined (ok b) (err e) = record { reads = λ s. same; few = λ s. omega arith }
bounded_joined (ok b) (ok h) = record { reads = λ s. same; few = λ s. omega arith }

bounded_both :
    (base_first : Bool) (b h : M FileBlob)
    → ReadsAtMost 1 b
    → ReadsAtMost 1 h
    → ReadsAtMost 2 (both_blobs base_first b h)
unfolding both_blobs
bounded_both true b h kb kh =
    bounded_bind 1 1 _ _ (bounded_attempt 1 b kb)
      (λ x. bounded_bind 1 0 _ _ (bounded_attempt 1 h kh) (λ y. bounded_joined x y))
bounded_both false b h kb kh =
    bounded_bind 1 1 _ _ (bounded_attempt 1 h kh)
      (λ y. bounded_bind 1 0 _ _ (bounded_attempt 1 b kb) (λ x. bounded_joined x y))

module _ (env : Env) where
  bounded_or_download :
      (o : Option FileBlob) (owner repo path ref : String)
      → ReadsAtMost 1 (or_download o (download env owner repo path ref))
  unfolding download is_read
  bounded_or_download none owner repo path ref =
      bounded_after 1 _ _ (bounded_check_url _)
        (λ _. bounded_bind 1 0 _ _ (bounded_send env _ refl) (λ r. bounded_keep _ r))
  bounded_or_download (some b) owner repo path ref = bounded_le 0 1 _ (omega arith) (bounded_pure b)

  bounded_raw_blob :
      (owner repo path ref : String) → ReadsAtMost 1 (raw_blob env owner repo path ref)
  unfolding raw_blob
  bounded_raw_blob owner repo path ref =
      bounded_after 1 _ _ (bounded_check_go env.token_err) (λ _.
        bounded_after 1 _ _ (bounded_cached _) (λ o. bounded_or_download o owner repo path ref))

  bounded_versions :
      (base_first : Bool) (owner repo path base_path : String) (i : ℕ) (refs : M PrRefsDto)
      → ReadsAtMost i refs
      → ReadsAtMost (i + 2) (
          refs >>= λ r.
          both_blobs base_first
            (raw_blob env owner repo (if base_path == "" then path else base_path) r.base)
            (raw_blob env owner repo path r.head))
  bounded_versions base_first owner repo path base_path i refs h =
      bounded_bind i 2 _ _ h
        (λ r. bounded_both base_first _ _ (bounded_raw_blob _ _ _ _) (bounded_raw_blob _ _ _ _))

  -- `GetFileVersions` makes two calls at most where both shas are pinned and three otherwise, all of them
  -- reads, in either order of its downloads.
  pub get_file_versions-ReadsAtMost :
      (base_first : Bool) (owner repo : String) (n : ℤ) (path base_path base head : String)
      → ReadsAtMost
          (if base == "" || head == "" then 3 else 2)
          (get_file_versions env base_first owner repo n path base_path base head)
  unfolding get_file_versions refs_or_pinned pr_refs
  get_file_versions-ReadsAtMost base_first owner repo n path base_path base head =
      elim (Bool-cases (base == "" || head == "")) [
        | inl asked ↦
            rw asked
              (bounded_versions base_first owner repo path base_path 1 _ (bounded_get_json env _ _))
        | inr pinned ↦
            rw pinned (bounded_versions base_first owner repo path base_path 0 _ (bounded_pure _))
      ]
