-- ===== src/Store/Home.antt =====
-- Where the store keeps the model of a reference.
use llmp2p.Common.{none, ok, ◌≡◌, refl, arith}
use llmp2p.Common.Bytes.{Bytes, codes}
use llmp2p.Common.Disk.{FilePath, join_path}
use llmp2p.Ref.{Ref, validate, ref_id}
use llmp2p.Ref.RoundTrip.{ref_id-valid_model_id}
use llmp2p.Manifest.Stored.{manifest_in}
use llmp2p.Store.{Store, store_dir, owner_and_repo, model_dir, model_manifest_file}

-- `store/<owner>/<repo>` below the root, cleaned
abbrev pub home_of : FilePath → Ref → FilePath
home_of root r = join_path (join_path (join_path root (codes "store")) r.owner) r.repo

-- The model of an accepted reference has a directory, which is its home.
pub model_dir-ref_id :
    (s : Store) (r : Ref) → validate r ≡ none → model_dir s (ref_id r) ≡ ok (home_of s.root r)
unfolding model_dir owner_and_repo store_dir
model_dir-ref_id s r h = let (a, b) = ref_id-valid_model_id r h in ground arith

-- The manifest is in the directory of the model.
pub manifest_file_of :
    (s : Store) (id : Bytes) (dir : FilePath)
    → model_dir s id ≡ ok dir
    → model_manifest_file s id ≡ ok (manifest_in dir)
unfolding model_manifest_file join_path
manifest_file_of s id dir h = rw h refl
