-- ===== src/Pull/Publish.antt =====
-- `publish` and `publishLocalIndex`: what a pull leaves in the store.
-- The errors of the local index are only logged. On an error the disk between the steps is not
-- returned.
use llmp2p.Common.{
  ℕ, List, [], Option, none, some, Result, ok, err, ◌>>=◌, wrap_err, if◌then◌else◌, length,
}
use llmp2p.Common.Int.{ℤ, pos}
use llmp2p.Common.Bytes.{Bytes, is_empty}
use llmp2p.Common.Disk.{FilePath, Disk, read_file, write_file, mkdir_all, parent}
use llmp2p.Manifest.{Manifest, sum_sizes}
use llmp2p.Manifest.Codec.{bytes, digest, save}
use llmp2p.Pull.Announce.{sign_manifest, publish_to_dht}
use llmp2p.Manifest.Create.{metainfo_bytes}
use llmp2p.Index
use llmp2p.Index.{Entry, Index, Warning, add}
use llmp2p.Store.{Store, manifest_path, model_manifest_file, torrent_path, local_index_path}
use llmp2p.Store.Remove.{save_index}
use llmp2p.Pull.{Environment, PullError, Pulled, store_failed, load_failed, create_failed, io}

unfoldable pub parsed_index : Option (Index × List Warning) → Index
parsed_index none = []
parsed_index (some p) = p.0

module _ (v : Environment) (s : Store) where
  -- the index on the disk, or an empty one
  unfoldable pub local_index : Disk → Index
  local_index d = elim (read_file d (local_index_path s)) [
    | err e ↦ []
    | ok b ↦ parsed_index (Index.parse v.index_codec.decode b)
  ]

  -- `publishLocalIndex`; a failed `Save` leaves the disk of before
  unfoldable pub publish_local_index : Disk → Entry → Disk
  publish_local_index d e = elim (add (local_index d) e) [
    | err x ↦ d
    | ok ix ↦ elim (save_index v.index_codec d (local_index_path s) ix) [ none ↦ d | some f ↦ f ]
  ]

  -- the two copies of the manifest
  unfoldable pub save_manifests : Disk → Bytes → Bytes → Manifest → Result PullError Disk
  save_manifests d model sha m = do
    p ← wrap_err store_failed (manifest_path s sha)
    d1 ← wrap_err load_failed (save v.codec d p m)
    q ← wrap_err store_failed (model_manifest_file s model)
    wrap_err load_failed (save v.codec d1 q m)

  unfoldable pub save_torrent : Disk → FilePath → Manifest → Result PullError Disk
  save_torrent d dir m = do
    b ← wrap_err create_failed (metainfo_bytes v.codec.sha256_sum v.torrents d dir m)
    p ← wrap_err store_failed (torrent_path s m.info_hash)
    d1 ← wrap_err io (mkdir_all d (parent p))
    wrap_err io (write_file d1 p b)

  -- the last step, which wants the canonical bytes
  unfoldable pub announce : Disk → Bytes → Bytes → Bytes → ℤ → Manifest → Disk
  announce d model sha revision total m = elim (bytes v.codec m) [
    | err e ↦ d
    | ok canonical ↦ publish_to_dht v s d v.put_nodes model m.info_hash sha revision total canonical
  ]

  -- `publish`, for a reference with the path `path`, at the time `now`
  unfoldable pub publish :
      ℕ → Bytes → Bytes → Bytes → Disk → FilePath → Manifest → Result PullError (Pulled × Disk)
  publish now model path revision d dir m = do
    let total = sum_sizes (pos 0) m.files
    sha ← wrap_err load_failed (digest v.codec m)
    d1 ← save_manifests d model sha m
    d2 ← save_torrent (sign_manifest v s d1 m) dir m
    let entry : Entry = record {
      model = model;
      info_hash = m.info_hash;
      manifest_sha256 = sha;
      revision = m.revision;
      size = total;
      added_at = now;
    }
    let d3 = if is_empty path then publish_local_index d2 entry else d2
    let d4 = if is_empty path then announce d3 model sha revision total m else d3
    ok (
      record {
        model = model;
        revision = revision;
        files = length m.files;
        size = total;
        info_hash = m.info_hash;
        manifest_sha256 = sha;
      },
      d4,
    )
