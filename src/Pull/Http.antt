-- ===== src/Pull/Http.antt =====
-- `pullHTTP`: the files are downloaded from the Hub and a manifest is made of them.
-- The Hub is a function from a file to its answers (see Hf/Download).
use llmp2p.Common.{
  ℕ, Bool, false, not, ◌&&◌, List, [], ◌∷◌, map, Option, none, some, Result, ok, err, ◌>>=◌,
  wrap_err, if◌then◌else◌,
}
use llmp2p.Common.Int.{int_eq}
use llmp2p.Common.Bytes.{Bytes, equal, is_empty}
use llmp2p.Common.Disk.{FilePath, join_path, Disk, stat, mkdir_all, parent}
use llmp2p.Manifest.{File, Manifest}
use llmp2p.Manifest.Verify.{node_size, hash_file}
use llmp2p.Manifest.Create.{create}
use llmp2p.Hf.{FileInfo}
use llmp2p.Hf.Download.{Request, Reply, artifact_url, download_file}
use llmp2p.Store.{Store}
use llmp2p.Pull.{Environment, PullError, Pulled, io, download_failed, create_failed, wrong_oid}
use llmp2p.Pull.Publish.{publish}

-- `entries`, as `Run` makes them
unfoldable pub entry_of : FileInfo → File
entry_of f = record { path = f.path; size = f.size; sha256 = [] }

-- the last loop: files of the Hub's large file storage have the digest that the Hub published
unfoldable pub check_oids : List FileInfo → List File → Option PullError
check_oids [] ms = none
check_oids (f ∷ fs) [] = none
check_oids (f ∷ fs) (m ∷ ms) =
    let rest = check_oids fs ms in
    if not (is_empty f.lfs_oid) && not (equal m.sha256 f.lfs_oid)
    then some (wrong_oid f.path)
    else rest

module _ (v : Environment) where
  -- the manifest, checked against the Hub's digests
  unfoldable pub http_manifest :
      ℕ → Bytes → Bytes → FilePath → Disk → List FileInfo → Result PullError Manifest
  http_manifest now model revision dir d files = do
    m ←
        wrap_err create_failed
          (create v.codec.sha256_sum v.torrents now model revision (map entry_of files) d dir)
    elim (check_oids files m.files) [ some e ↦ err e | none ↦ ok m ]

module _ (v : Environment) (s : Store) (path_escape : Bytes → Bytes) (base : Bytes)
    (hub : FileInfo → List (Request → Reply)) where
  -- an existing file is kept if it has the size and the digest that the Hub published
  unfoldable pub is_kept : Disk → FilePath → FileInfo → Bool
  is_kept d dst f = elim (stat d dst) [
    | err e ↦ false
    | ok n ↦
        int_eq (node_size n) f.size
        && not (is_empty f.lfs_oid)
        && elim (hash_file v.codec.sha256_sum d dst) [
          | err e ↦ false
          | ok sum ↦ equal sum f.lfs_oid
        ]
  ]

  -- one round of the loop
  unfoldable pub fetch_file : Bytes → Bytes → FilePath → Disk → FileInfo → Disk × Option PullError
  fetch_file model revision dir d f =
      let dst = join_path dir f.path in
      elim (mkdir_all d (parent dst)) [
        | err e ↦ (d, some (io e))
        | ok d1 ↦
            if is_kept d1 dst f
            then (d1, none)
            else let url = artifact_url path_escape base model revision f.path in
              let (d2, r) = download_file v.codec.sha256_sum (hub f) url dst f.lfs_oid d1 in
              (d2, elim r [ err e ↦ some (download_failed f.path e) | ok n ↦ none ])
      ]

  unfoldable pub fetch_files :
      Bytes → Bytes → FilePath → Disk → List FileInfo → Disk × Option PullError
  fetch_files model revision dir d [] = (d, none)
  fetch_files model revision dir d (f ∷ fs) =
      let p = fetch_file model revision dir d f in
      elim p.1 [ some e ↦ (p.0, some e) | none ↦ fetch_files model revision dir p.0 fs ]

  -- `pullHTTP`
  unfoldable pub pull_http :
      ℕ
      → Bytes
      → Bytes
      → Bytes
      → FilePath
      → Disk
      → List FileInfo
      → Disk × Result PullError (Pulled × Disk)
  pull_http now model path revision dir d files =
      let p = fetch_files model revision dir d files in
      (
        p.0,
        elim p.1 [
          | some e ↦ err e
          | none ↦ http_manifest v now model revision dir p.0 files >>= λ m.
              publish v s now model path revision p.0 dir m
        ],
      )
