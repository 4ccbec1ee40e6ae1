-- ===== src/Store/Remove.antt =====
-- `(*Store).Remove`: the files of a model, its torrent, its manifest copy and its index entry.
-- encoding/json for the index is the parameter `IndexCodec`, that for manifests is `Codec`.
pub mod Laws
use llmp2p.Common.{
  ℕ, Bool, true, false, not, List, [], ◌∷◌, ◌++◌, Option, none, some, Result, ok, err, to_option,
  if◌then◌else◌, length,
}
use llmp2p.Common.Int.{ℤ, pos}
use llmp2p.Common.Bytes.{Bytes}
use llmp2p.Common.Disk.{
  FilePath, IoError, not_exist, denied, is_directory, not_directory, not_empty, Disk, Node, stat,
  read_file, write_file, mkdir_all, parent, remove, remove_all,
}
use llmp2p.Manifest.{Manifest, sum_sizes}
use llmp2p.Manifest.Codec.{Codec, LoadError, digest, load}
use llmp2p.Index
use llmp2p.Index.{Index, Warning}
use llmp2p.Ref.{valid_model_id}
use llmp2p.Store.{
  Store, StoreError, invalid_model_id, model_not_found, io, model_dir, model_manifest_file,
  torrent_path, manifest_path, local_index_path,
}

-- `json.MarshalIndent` with the newline behind it, and `json.Unmarshal`, of an index document
pub record IndexCodec : Type 0 where
  pub encode : Index → Option Bytes
  pub decode : Bytes → Option Index

-- `RemoveSummary`
pub record Summary : Type 0 where
  pub model : Bytes
  pub files : ℕ
  pub size : ℤ
  pub dir_removed : Bool
  pub torrent_removed : Bool
  pub manifest_removed : Bool
  pub index_entry_removed : Bool

abbrev pub empty_summary : Bytes → Summary
empty_summary id = record {
  model = id;
  files = 0;
  size = pos 0;
  dir_removed = false;
  torrent_removed = false;
  manifest_removed = false;
  index_entry_removed = false;
}

-- What `Remove` leaves: the disk, the summary, and the error if there is one.
pub record Removal : Type 0 where
  pub disk : Disk
  pub summary : Summary
  pub error : Option StoreError

-- `if _, err := os.Stat(p); err == nil { if os.Remove(p) == nil { … = true } }`
unfoldable pub try_remove : Disk → FilePath → Disk × Bool
try_remove d p = elim (stat d p) [
  | err e ↦ (d, false)
  | ok n ↦ elim (remove d p) [ err e ↦ (d, false) | ok e ↦ (e, true) ]
]

-- the same at a path that may not have been found
unfoldable pub try_remove_at : Disk → Option FilePath → Disk × Bool
try_remove_at d none = (d, false)
try_remove_at d (some p) = try_remove d p

-- `(*Index).Save`, at a path; `none` if it fails
unfoldable pub save_index : IndexCodec → Disk → FilePath → Index → Option Disk
save_index x d p ix = elim (x.encode ix) [
  | none ↦ none
  | some b ↦ elim (mkdir_all d (parent p)) [
    | err e ↦ none
    | ok d' ↦ elim (write_file d' p b) [ err e ↦ none | ok e ↦ some e ]
  ]
]

-- `os.IsNotExist(err)`
abbrev pub is_not_exist {ℓ} : {A : Type ℓ} → Result IoError A → Bool
is_not_exist (ok a) = false
is_not_exist (err not_exist) = true
is_not_exist (err denied) = false
is_not_exist (err is_directory) = false
is_not_exist (err not_directory) = false
is_not_exist (err not_empty) = false

module _ (c : Codec) (x : IndexCodec) (s : Store) where
  -- `m, _ = manifest.Load(mfile)`
  unfoldable pub stored_manifest : Disk → Bytes → Option Manifest
  stored_manifest d id = elim (model_manifest_file s id) [
    | err e ↦ none
    | ok p ↦ elim (load c d p) [ err e ↦ none | ok m ↦ some m ]
  ]

  unfoldable pub manifest_copy : Manifest → Option FilePath
  manifest_copy m = elim (digest c m) [ err e ↦ none | ok sha ↦ to_option (manifest_path s sha) ]

  -- the torrent and the copy of the manifest, if there is a manifest
  unfoldable pub remove_artifacts : Disk → Summary → Option Manifest → Disk × Summary
  remove_artifacts d sum none = (d, sum)
  remove_artifacts d sum (some m) =
      let (d1, torrent) = try_remove_at d (to_option (torrent_path s m.info_hash)) in
      let (d2, copy) = try_remove_at d1 (manifest_copy m) in
      (
        d2,
        record sum {
          files = length m.files;
          size = sum_sizes sum.size m.files;
          torrent_removed = torrent;
          manifest_removed = copy;
        },
      )

  -- the last step of removing the index entry: the document was read and parsed
  unfoldable pub drop_entry : Disk → Bytes → Option (Index × List Warning) → Disk × Bool
  drop_entry d id none = (d, false)
  drop_entry d id (some (ix, ws)) =
      let (ix', existed) = Index.remove ix id in
      if existed
      then elim (save_index x d (local_index_path s) ix') [ none ↦ (d, false) | some e ↦ (e, true) ]
      else (d, false)

  unfoldable pub remove_index_entry : Disk → Bytes → Disk × Bool
  remove_index_entry d id = elim (read_file d (local_index_path s)) [
    | err e ↦ (d, false)
    | ok b ↦ drop_entry d id (Index.parse x.decode b)
  ]

  -- what follows the cleanup by the manifest
  unfoldable pub remove_files : FilePath → Bytes → Disk × Summary → Removal
  remove_files dir id (d, sum) = elim (remove_all d dir) [
    | err e ↦ record { disk = d; summary = sum; error = some (io e) }
    | ok d' ↦
        let (e, entry) = remove_index_entry d' id in
        record {
          disk = e;
          summary = record sum { dir_removed = true; index_entry_removed = entry };
          error = none;
        }
  ]

  -- `Remove`
  unfoldable pub remove_model : Disk → Bytes → Removal
  remove_model d id =
      let sum = empty_summary id in
      if not (valid_model_id id)
      then record { disk = d; summary = sum; error = some (invalid_model_id id) }
      else elim (model_dir s id) [
        | err e ↦ record { disk = d; summary = sum; error = some e }
        | ok dir ↦
            if is_not_exist (stat d dir)
            then record { disk = d; summary = sum; error = some (model_not_found id) }
            else remove_files dir id (remove_artifacts d sum (stored_manifest d id))
      ]
