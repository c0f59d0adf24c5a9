-- ===== src/Github/Files.antt =====
-- internal/github/files.go: the blobs of a file, through the cache.
pub mod Cached
pub mod Bounds
pub mod Paths
pub mod Again
pub mod Refusals
use Prim.Native.Char.{Char, code}
use Prim.Native.String
use differ_nvim.Common.{
  map, ℕ, String, Bool, true, false, ◌||◌, Option, none, some, List, [], ◌∷◌, ◌==◌, eqb,
  if◌then◌else◌,
}
use differ_nvim.Common.Int.{ℤ}
use differ_nvim.Protocol.{Result, ok, err}
use differ_nvim.Github.Cache
use differ_nvim.Github.Cache.{Cache, blob_key, put_blob}
use differ_nvim.Github.Dtos.{PrRefsDto}
use differ_nvim.Github.Errors.{HttpResponse}
use differ_nvim.Github.Results.{FileBlob, FileVersions}
use differ_nvim.Github.Client.{
  Env, Session, M, ◌>>=◌, ◌>>◌, bind_result, pure, check, check_go, check_url, Call, get, Sent,
  send, get_json,
}

infixr 66 ◌·◌
abbrev pub ◌·◌ : String → String → String
a · b = String.◌++◌ a b

-- `strings.Split` at slashes: the segments are never none.
abbrev pub add_char : Char → List String → List String
add_char c [] = String.◌∷◌ c "" ∷ []
add_char c (seg ∷ segs) = String.◌∷◌ c seg ∷ segs

unfoldable pub split_path : String → List String
split_path String.[] = "" ∷ []
split_path (String.◌∷◌ c s) =
    let rest = split_path s in if eqb (code c) b'/' then "" ∷ rest else add_char c rest

-- `strings.Join` with slashes.
unfoldable pub join_path : List String → String
join_path [] = ""
join_path (seg ∷ []) = seg
join_path (seg ∷ next ∷ segs) = seg · "/" · join_path (next ∷ segs)

-- `escapePath`
unfoldable pub escape_path : (String → String) → String → String
unfolding split_path join_path
escape_path escape p = join_path (map escape (split_path p))

-- `c.cache.blob` and `c.cache.putBlob` on the client's cache.
unfoldable pub cached : String → M (Option FileBlob)
cached key s = (ok (Cache.blob key s.cache).0, record s { cache = (Cache.blob key s.cache).1 })

unfoldable pub remember : String → FileBlob → M (Unit {0})
remember key b s = (ok tt, record s { cache = put_blob key b s.cache })

-- `resp != nil && resp.StatusCode == http.StatusNotFound`
abbrev pub is_not_found : Option HttpResponse → Bool
is_not_found none = false
is_not_found (some r) = eqb r.status_code 404

-- `rawBlob` behind its call of `send`.
unfoldable pub keep_answer : String → Sent → M FileBlob
keep_answer key r =
    if is_not_found r.response
    then (do
      remember key (record { content = ""; missing = true })
      pure (record { content = ""; missing = true }))
    else (do
      check r.failure
      remember key (record { content = r.body; missing = false })
      pure (record { content = r.body; missing = false }))

-- The cached blob, or the download.
abbrev pub or_download : Option FileBlob → M FileBlob → M FileBlob
or_download none m = m
or_download (some b) m = pure b

-- A goroutine's result with the caller's: both run, whatever either answers.
abbrev pub attempt : {A : Type 0} → M A → M (Result A)
attempt m s = (ok (m s).0, (m s).1)

abbrev pub settle : {A : Type 0} → Result A → M A
settle r s = (r, s)

-- After both are done: an error of the base comes before one of the head.
abbrev pub joined : Result FileBlob → Result FileBlob → M FileVersions
joined base head = do
  b ← settle base
  h ← settle head
  pure (record { base = b; head = h; truncated = false })

-- The two downloads of `GetFileVersions`, which run at once: `base_first` tells which of them is
-- served first.
unfoldable pub both_blobs : Bool → M FileBlob → M FileBlob → M FileVersions
both_blobs true base head = do b ← attempt base; h ← attempt head; joined b h
both_blobs false base head = do h ← attempt head; b ← attempt base; joined b h

module _ (env : Env) where
  open env use {codec, url_error, token_err, rest_url, query_escape, path_escape, itoa}

  unfoldable pub blob_url : String → String → String → String → String
  blob_url owner repo path ref =
      rest_url
      · "/repos/"
      · owner
      · "/"
      · repo
      · "/contents/"
      · escape_path path_escape path
      · "?ref="
      · query_escape ref

  -- `rawBlob` after a miss of the cache.
  unfoldable pub download : String → String → String → String → M FileBlob
  download owner repo path ref = do
    check_url (url_error (blob_url owner repo path ref))
    r ← send env (get (blob_url owner repo path ref) "application/vnd.github.raw+json")
    keep_answer (blob_key owner repo ref path) r

  -- `rawBlob`
  unfoldable pub raw_blob : String → String → String → String → M FileBlob
  raw_blob owner repo path ref = do
    check_go token_err
    hit ← cached (blob_key owner repo ref path)
    or_download hit (download owner repo path ref)

  -- `prRefs`
  unfoldable pub pr_refs : String → String → ℤ → M PrRefsDto
  pr_refs owner repo n =
      get_json env codec.pr_refs (rest_url · "/repos/" · owner · "/" · repo · "/pulls/" · itoa n)

  -- `HeadSHA`
  unfoldable pub head_sha : String → String → ℤ → M String
  head_sha owner repo n = do r ← pr_refs owner repo n; pure r.head

  -- The pinned shas, or those of the pull request where either is missing.
  unfoldable pub refs_or_pinned : String → String → ℤ → String → String → M PrRefsDto
  refs_or_pinned owner repo n base head =
      if base == "" || head == ""
      then pr_refs owner repo n
      else pure (record { base = base; head = head })

  -- `GetFileVersions`
  unfoldable pub get_file_versions :
      Bool → String → String → ℤ → String → String → String → String → M FileVersions
  get_file_versions base_first owner repo n path base_path base head = do
    refs ← refs_or_pinned owner repo n base head
    both_blobs base_first
        (raw_blob owner repo (if base_path == "" then path else base_path) refs.base)
        (raw_blob owner repo path refs.head)
