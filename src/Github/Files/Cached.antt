-- ===== src/Github/Files/Cached.antt =====
-- internal/github/files.go: what `rawBlob` keeps, and that the versions of a file are only read.
use differ_nvim.Common.{refl, String, Bool, true, false, Option, none, some, ◌==◌, ◌||◌, if_both}
use differ_nvim.Common.Int.{ℤ}
use differ_nvim.Protocol.{Result, ok, err}
use differ_nvim.Github.Results.{FileBlob}
use differ_nvim.Github.Client.{M, Env, Sent, pure}
use differ_nvim.Github.Client.Reads.{
  ReadsOnly, same, reads_bind, reads_then, reads_pure, reads_check, reads_check_go, reads_check_url,
  reads_send, reads_get_json, is_read,
}
use differ_nvim.Github.Files.{
  or_download, cached, remember, keep_answer, is_not_found, download, raw_blob, pr_refs, attempt,
  settle, joined, both_blobs, refs_or_pinned, get_file_versions,
}

reads_cached : (key : String) → ReadsOnly (cached key)
unfolding cached
reads_cached key = record { at = λ s. same }

reads_remember : (key : String) (b : FileBlob) → ReadsOnly (remember key b)
unfolding remember
reads_remember key b = record { at = λ s. same }

reads_kept : (key : String) (r : Sent) → ReadsOnly (keep_answer key r)
unfolding keep_answer
reads_kept key r =
    if_both ReadsOnly (is_not_found r.response) _ _
      (reads_then _ _ (reads_remember _ _) (reads_pure _))
      (reads_then _ _ (reads_check r.failure) (reads_then _ _ (reads_remember _ _) (reads_pure _)))

reads_attempt : {A : Type 0} (m : M A) → ReadsOnly m → ReadsOnly (attempt m)
reads_attempt m h = record { at = h.at }

reads_settle : {A : Type 0} (r : Result A) → ReadsOnly (settle r)
reads_settle r = record { at = λ s. same }

reads_joined : (b h : Result FileBlob) → ReadsOnly (joined b h)
unfolding pure
reads_joined (err e) h = record { at = λ s. same }
reads_joined (ok b) (err e) = record { at = λ s. same }
reads_joined (ok b) (ok h) = record { at = λ s. same }

module _ (env : Env) where
  reads_download : (owner repo path ref : String) → ReadsOnly (download env owner repo path ref)
  unfolding download is_read
  reads_download owner repo path ref =
      reads_then _ _ (reads_check_url _)
        (reads_bind _ _ (reads_send env _ refl) (λ r. reads_kept _ r))

  reads_or_download :
      (o : Option FileBlob) (owner repo path ref : String)
      → ReadsOnly (or_download o (download env owner repo path ref))
  reads_or_download none owner repo path ref = reads_download owner repo path ref
  reads_or_download (some b) owner repo path ref = reads_pure b

  reads_raw_blob : (owner repo path ref : String) → ReadsOnly (raw_blob env owner repo path ref)
  unfolding raw_blob
  reads_raw_blob owner repo path ref =
      reads_then _ _ (reads_check_go _)
        (reads_bind _ _ (reads_cached _) (λ o. reads_or_download o owner repo path ref))

  reads_refs : (owner repo : String) (n : ℤ) → ReadsOnly (pr_refs env owner repo n)
  unfolding pr_refs
  reads_refs owner repo n = reads_get_json env _ _

  reads_both :
      (base_first : Bool) (b h : M FileBlob)
      → ReadsOnly b
      → ReadsOnly h
      → ReadsOnly (both_blobs base_first b h)
  unfolding both_blobs
  reads_both true b h rb rh =
      reads_bind _ _ (reads_attempt b rb)
        (λ x. reads_bind _ _ (reads_attempt h rh) (λ y. reads_joined x y))
  reads_both false b h rb rh =
      reads_bind _ _ (reads_attempt h rh)
        (λ y. reads_bind _ _ (reads_attempt b rb) (λ x. reads_joined x y))

  -- `GetFileVersions` sends reads alone, in either order of its two downloads and also where one of
  -- them fails.
  pub get_file_versions-ReadsOnly :
      (base_first : Bool) (owner repo : String) (n : ℤ) (path base_path base head : String)
      → ReadsOnly (get_file_versions env base_first owner repo n path base_path base head)
  unfolding get_file_versions refs_or_pinned
  get_file_versions-ReadsOnly base_first owner repo n path base_path base head =
      reads_bind _ _
        (if_both ReadsOnly (base == "" || head == "") _ _ (reads_refs owner repo n) (reads_pure _))
        (λ refs. reads_both base_first _ _ (reads_raw_blob _ _ _ _) (reads_raw_blob _ _ _ _))
