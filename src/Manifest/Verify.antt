-- ===== src/Manifest/Verify.antt =====
-- `VerifyDir`, `hashFile` and `HashContent`: the files of a manifest on the disk.
use llmp2p.Common.{
  not, List, [], ◌∷◌, Option, none, some, Result, ok, err, ◌>>=◌, ◌≡◌, ◌↔◌, refl, arith,
  if◌then◌else◌, All, length,
}
use llmp2p.Common.Int.{ℤ, pos, int_eq, int_eq_iff}
use llmp2p.Common.Bytes.{Bytes, equal}
use llmp2p.Common.Bytes.Laws.{equal_iff}
use llmp2p.Common.Bytes.Hex.{hex_encode}
use llmp2p.Common.Disk.{FilePath, join_path, Node, file, dir, IoError, Disk, stat, read_file}
use llmp2p.Common.Disk.Laws.{stat_of_read_file}
use llmp2p.Manifest.{File, Manifest}

-- `info.Size()`. The size of a directory depends on the system; it cannot be read in any case.
unfoldable pub node_size : Node → ℤ
node_size (file b) = pos (length b)
node_size dir = pos 4096

pub data VerifyError : Type 0 where
  stat_failed read_failed : Bytes → IoError → VerifyError
  wrong_size : Bytes → ℤ → VerifyError
  wrong_digest : Bytes → Bytes → VerifyError

module _ (sha256_sum : Bytes → Bytes) where
  -- `hashFile`
  unfoldable pub hash_file : Disk → FilePath → Result IoError Bytes
  hash_file d p = do b ← read_file d p; ok (hex_encode (sha256_sum b))

  -- `HashContent`
  unfoldable pub hash_content : Disk → FilePath → Bytes → Result IoError (Bytes × ℤ)
  unfolding hash_file node_size
  hash_content d root rel = do
    n ← stat d (join_path root rel)
    sum ← hash_file d (join_path root rel)
    ok (sum, node_size n)

  -- the digest that was read, against the one that the manifest pins
  unfoldable pub check_digest : File → Result IoError Bytes → Option VerifyError
  unfolding equal
  check_digest f (err e) = some (read_failed f.path e)
  check_digest f (ok got) =
      if not (equal got f.sha256) then some (wrong_digest f.path got) else none

  unfoldable pub check_node : File → Node → Result IoError Bytes → Option VerifyError
  unfolding check_digest
  check_node f n hashed =
      if not (int_eq (node_size n) f.size)
      then some (wrong_size f.path (node_size n))
      else check_digest f hashed

  -- one round of the loop of `VerifyDir`
  unfoldable pub verify_file : Disk → FilePath → File → Option VerifyError
  verify_file d root f = elim (stat d (join_path root f.path)) [
    | err e ↦ some (stat_failed f.path e)
    | ok n ↦ check_node f n (hash_file d (join_path root f.path))
  ]

  unfoldable pub verify_files : Disk → FilePath → List File → Option VerifyError
  verify_files d root [] = none
  verify_files d root (f ∷ fs) =
      let rest = verify_files d root fs in
      elim (verify_file d root f) [ some e ↦ some e | none ↦ rest ]

  -- `(*Manifest).VerifyDir`
  unfoldable pub verify_dir : Disk → FilePath → Manifest → Option VerifyError
  unfolding verify_files
  verify_dir d root m = verify_files d root m.files

  -- The file on the disk has the size and the digest that the manifest pins.
  abbrev pub HasContent : Disk → FilePath → File → Type 0
  HasContent d root f =
      (b : Bytes) × (read_file d (join_path root f.path) ≡ ok b)
      × (f.size ≡ pos (length b))
      × (f.sha256 ≡ hex_encode (sha256_sum b))

  verify_file-HasContent :
      (d : Disk) (root : FilePath) (f : File) → verify_file d root f ≡ none → HasContent d root f
  unfolding verify_file check_node check_digest hash_file read_file node_size
  verify_file-HasContent d root f h = go (stat d (join_path root f.path)) refl
    where
      go : (r : Result IoError Node) → stat d (join_path root f.path) ≡ r → HasContent d root f
      go (ok (file b)) e = (
        b,
        ground arith,
        ground (arith, int_eq_iff (pos (length b)) f.size),
        ground (arith, equal_iff (hex_encode (sha256_sum b)) f.sha256),
      )
      go (ok dir) e = absurd (ground arith)
      go (err x) e = absurd (ground arith)

  HasContent-verify_file :
      (d : Disk) (root : FilePath) (f : File) → HasContent d root f → verify_file d root f ≡ none
  unfolding verify_file check_node check_digest hash_file read_file node_size
  HasContent-verify_file d root f (b, r, s, t) = ground (
    arith,
    stat_of_read_file d (join_path root f.path) b,
    int_eq_iff (pos (length b)) f.size,
    equal_iff (hex_encode (sha256_sum b)) f.sha256,
  )

  verify_files_iff :
      (d : Disk) (root : FilePath) (fs : List File)
      → (verify_files d root fs ≡ none) ↔ All (HasContent d root) fs
  unfolding verify_files
  verify_files_iff d root [] = (λ h. tt, λ h. refl)
  verify_files_iff d root (f ∷ fs) =
      let (to, from) = verify_files_iff d root fs in
      (
        λ h. (verify_file-HasContent d root f (ground arith), to (ground arith)),
        λ h. ground (arith, HasContent-verify_file d root f h.0, from h.1),
      )

  -- `VerifyDir` returns no error exactly if every file of the manifest stands under the root with
  -- the pinned size and the pinned sha256.
  pub verify_dir_iff :
      (d : Disk) (root : FilePath) (m : Manifest)
      → (verify_dir d root m ≡ none) ↔ All (HasContent d root) m.files
  unfolding verify_dir
  verify_dir_iff d root m = verify_files_iff d root m.files
