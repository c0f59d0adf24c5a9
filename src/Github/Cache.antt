-- ===== src/Github/Cache.antt =====
-- internal/github/cache.go: the blob cache, a map of pointers into a list of entries. A list element
-- has an identity, its `id`; the map holds identities, and an entry is read and written through one.
pub mod Nodes
pub mod Index
pub mod Valid
pub mod Evict
pub mod Refines
pub mod Lru
pub mod Within
pub mod History
use Prim.Native.String
use differ_nvim.Common.{
  ℕ, zero, suc, ◌+◌, ◌-◌, ◌*◌, String, Bool, true, false, ◌&&◌, Option, none, some, List, [], ◌∷◌,
  ◌++◌, ltb, eqb, ◌==◌, if◌then◌else◌, length,
}
use differ_nvim.Common.Text.{byte_len}
use differ_nvim.Github.Results.{FileBlob}

-- `maxBlobBytes`
abbrev pub max_blob_bytes : ℕ
max_blob_bytes = 64 * 1024 * 1024

-- A list element with its `blobEntry`.
pub record Node : Type 0 where
  pub id : ℕ
  pub key : String
  pub blob : FileBlob
  pub size : ℕ

-- `cache`; `lru` has the most recent entry first, and `next` is the next unused identity.
pub record Cache : Type 0 where
  pub blobs : String → Option ℕ
  pub lru : List Node
  pub bytes : ℕ
  pub limit : ℕ
  pub next : ℕ

-- `blobSize`, in bytes.
unfoldable pub blob_size : String → FileBlob → ℕ
blob_size key b = byte_len key + byte_len b.content

abbrev pub no_blobs : String → Option ℕ
no_blobs k = none

unfoldable pub new_cache : Cache
new_cache = record { blobs = no_blobs; lru = []; bytes = 0; limit = max_blob_bytes; next = 0 }

-- `blobKey`
unfoldable pub blob_key : String → String → String → String → String
blob_key owner repo ref path =
    String.◌++◌ owner (
      String.◌++◌ "/" (String.◌++◌ repo (String.◌++◌ "/" (String.◌++◌ ref (String.◌++◌ "/" path)))))

-- What a pointer of the map leads to.
unfoldable pub find_node : ℕ → List Node → Option Node
find_node i [] = none
find_node i (n ∷ l) = if eqb i n.id then some n else find_node i l

-- `list.List.Remove`
unfoldable pub remove_node : ℕ → List Node → List Node
remove_node i [] = []
remove_node i (n ∷ l) = if eqb i n.id then l else n ∷ remove_node i l

unfoldable pub deref : Option ℕ → List Node → Option Node
deref none l = none
deref (some i) l = find_node i l

-- `blob`: the entry moves to the front.
unfoldable pub blob : String → Cache → Option FileBlob × Cache
unfolding deref find_node remove_node
blob key c = elim (deref (c.blobs key) c.lru) [
  | none ↦ (none, c)
  | some n ↦ (some n.blob, record c { lru = n ∷ remove_node n.id c.lru })
]

-- `list.List.Back`
unfoldable pub back : List Node → Option Node
back [] = none
back (n ∷ []) = some n
back (n ∷ m ∷ l) = back (m ∷ l)

-- One round of `evict`: the last element goes, with its key and its charge.
unfoldable pub drop_node : Node → Cache → Cache
unfolding remove_node
drop_node n c = record c {
  lru = remove_node n.id c.lru;
  blobs = λ k. if k == n.key then none else c.blobs k;
  bytes = c.bytes - n.size;
}

-- The loop of `evict`; the fuel is the length of the list.
unfoldable pub evict_loop : ℕ → Cache → Cache
unfolding back drop_node
evict_loop zero c = c
evict_loop (suc fuel) c = elim (back c.lru) [
  | none ↦ c
  | some n ↦ elim (ltb c.limit c.bytes) [ true ↦ evict_loop fuel (drop_node n c) | false ↦ c ]
]

unfoldable pub evict : Cache → Cache
unfolding evict_loop
evict c = evict_loop (length c.lru) c

-- The two branches of `putBlob`, before it calls `evict`.
unfoldable pub store : String → FileBlob → Cache → Cache
unfolding deref find_node remove_node blob_size
store key b c = elim (deref (c.blobs key) c.lru) [
  | some n ↦ record c {
    lru = record n { blob = b; size = blob_size key b } ∷ remove_node n.id c.lru;
    bytes = c.bytes + blob_size key b - n.size;
  }
  | none ↦ record c {
    lru = record { id = c.next; key = key; blob = b; size = blob_size key b } ∷ c.lru;
    blobs = λ k. if k == key then some c.next else c.blobs k;
    bytes = c.bytes + blob_size key b;
    next = suc c.next;
  }
]

unfoldable pub put_blob : String → FileBlob → Cache → Cache
unfolding store evict
put_blob key b c = evict (store key b c)

unfoldable pub clear_all : Cache → Cache
clear_all c = record c { blobs = no_blobs; lru = []; bytes = 0 }
