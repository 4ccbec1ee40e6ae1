-- ===== src/Store.antt =====
-- internal/store/store.go: the layout of the store on the disk.
-- The root is a cleaned absolute path. A path is built by `filepath.Join`, which cleans: a segment
-- `..` goes up. Not modelled here: `Open` prints nothing and its directories are made by
-- `mkdir_all`; `Lock` is the flock of gofrs/flock.
pub mod Home
pub mod Locations
pub mod Paths
pub mod Remove
use llmp2p.Common.{
  ℕ, Bool, true, false, not, ◌&&◌, ◌||◌, List, [], ◌∷◌, ◌++◌, Option, none, some, Result, ok, err,
  ◌>>=◌, ◌>>◌, wrap_err, if◌then◌else◌, ◌==◌, leb, length,
}
use llmp2p.Common.Bytes.{Bytes, codes, cut, all_bytes}
use llmp2p.Common.Disk.{FilePath, join_path, IoError, Disk, mkdir_all, read_dir}
use llmp2p.Ref.{valid_model_id}

-- `Store`
pub record Store : Type 0 where
  pub root : FilePath

pub data StoreError : Type 0 where
  invalid_model_id model_not_found invalid_manifest_hash invalid_infohash : Bytes → StoreError
  io : IoError → StoreError

-- `storeDir`, `manifestsDir` and `torrentsDir`
unfoldable pub store_dir : Store → FilePath
store_dir s = join_path s.root (codes "store")

unfoldable pub manifests_dir : Store → FilePath
manifests_dir s = join_path s.root (codes "manifests")

unfoldable pub torrents_dir : Store → FilePath
torrents_dir s = join_path s.root (codes "torrents")

-- `Open`
unfoldable pub open_store : Disk → FilePath → Result StoreError (Store × Disk)
open_store d root = do
  let s : Store = record { root = root }
  d1 ← wrap_err io (mkdir_all d (store_dir s))
  d2 ← wrap_err io (mkdir_all d1 (manifests_dir s))
  d3 ← wrap_err io (mkdir_all d2 (torrents_dir s))
  ok (s, d3)

-- `owner, repo, _ := strings.Cut(modelID, "/")`
unfoldable pub owner_and_repo : Bytes → Bytes × Bytes
owner_and_repo id = elim (cut b'/' id) [ none ↦ (id, []) | some p ↦ p ]

-- `ModelDir`
unfoldable pub model_dir : Store → Bytes → Result StoreError FilePath
model_dir s id =
    if not (valid_model_id id)
    then err (invalid_model_id id)
    else let p = owner_and_repo id in ok (join_path (join_path (store_dir s) p.0) p.1)

-- `isHex`
unfoldable pub is_hex_digit : ℕ → Bool
is_hex_digit c = (leb b'0' c && leb c b'9') || (leb b'a' c && leb c b'f')

unfoldable pub is_hex : Bytes → ℕ → Bool
unfolding is_hex_digit all_bytes
is_hex s n = if not (length s == n) then false else all_bytes is_hex_digit s

-- `ManifestPath`, `SignaturePath` and `TorrentPath`
unfoldable pub manifest_path : Store → Bytes → Result StoreError FilePath
manifest_path s sha =
    if not (is_hex sha 64)
    then err (invalid_manifest_hash sha)
    else ok (join_path (manifests_dir s) (sha ++ codes ".json"))

unfoldable pub signature_path : Store → Bytes → Result StoreError FilePath
signature_path s sha =
    if not (is_hex sha 64)
    then err (invalid_manifest_hash sha)
    else ok (join_path (manifests_dir s) (sha ++ codes ".sig"))

unfoldable pub torrent_path : Store → Bytes → Result StoreError FilePath
torrent_path s info_hash =
    if not (is_hex info_hash 40)
    then err (invalid_infohash info_hash)
    else ok (join_path (torrents_dir s) (info_hash ++ codes ".torrent"))

-- `LocalIndexPath`
unfoldable pub local_index_path : Store → FilePath
local_index_path s = join_path s.root (codes "index.json")

-- `ModelManifestFile`
unfoldable pub model_manifest_file : Store → Bytes → Result StoreError FilePath
model_manifest_file s id = do
  dir ← model_dir s id
  ok (join_path dir (codes ".llmp2p-manifest.json"))

-- the inner loop of `Models`
unfoldable pub repo_ids : Bytes → List (Bytes × Bool) → List Bytes
repo_ids owner [] = []
repo_ids owner ((repo, is_dir) ∷ es) =
    let rest = repo_ids owner es in if is_dir then (owner ++ (b'/' ∷ repo)) ∷ rest else rest

unfoldable pub models_of : Disk → FilePath → List (Bytes × Bool) → Result StoreError (List Bytes)
models_of d dir [] = ok []
models_of d dir ((owner, is_dir) ∷ es) =
    let rest = models_of d dir es in
    if not is_dir then rest else do
      repos ← wrap_err io (read_dir d (join_path dir owner))
      ids ← rest
      ok (repo_ids owner repos ++ ids)

-- `Models`
unfoldable pub models : Disk → Store → Result StoreError (List Bytes)
models d s = do owners ← wrap_err io (read_dir d (store_dir s)); models_of d (store_dir s) owners
