-- ===== src/Manifest/Path.antt =====
-- `validateManifestPath` keeps every file below the model's directory.
use llmp2p.Common.{
  ℕ, ◌≤◌, true, false, List, [], ◌∷◌, ◌++◌, none, ◌≡◌, ◌↔◌, refl, arith, length, All,
}
use llmp2p.Common.Bytes.{Bytes, codes, contains_byte, split, has_prefix}
use llmp2p.Common.Bytes.Laws.{equal_iff}
use llmp2p.Common.Disk.{FilePath, join_path}
use llmp2p.Common.Disk.Laws.{IsPlain, push_all-IsPlain}
use llmp2p.Manifest.{
  max_manifest_path, has_drive, has_control, check_segments, validate_manifest_path,
}

-- What a manifest path is meant to be.
pub record IsSafePath (path : Bytes) : Type 0 where
  pub short : length path ≤ max_manifest_path
  pub no_backslash : contains_byte b'\\' path ≡ false
  pub no_drive : has_drive path ≡ false
  pub no_control : has_control path ≡ false
  pub segments : All IsPlain (split b'/' path)

check_segments-All : (segs : List Bytes) → (check_segments segs ≡ none) ↔ All IsPlain segs
unfolding check_segments
check_segments-All [] = (λ h. tt, λ h. refl)
check_segments-All (seg ∷ segs) = ground (
  arith,
  equal_iff seg [],
  equal_iff seg (codes "."),
  equal_iff seg (codes ".."),
  check_segments-All segs,
)

slash_split : (c : ℕ) (path : Bytes) → c ≡ b'/' → split b'/' (c ∷ path) ≡ [] ∷ split b'/' path
unfolding split
slash_split c path e = ground arith

-- A path that starts with a slash has an empty first segment.
absolute-not-IsPlain :
    (path : Bytes) → has_prefix path (codes "/") ≡ true → ¬ All IsPlain (split b'/' path)
unfolding has_prefix
absolute-not-IsPlain [] h p = cc
absolute-not-IsPlain (c ∷ path) h p = ground (arith, slash_split c path)

-- `validateManifestPath` accepts exactly the safe paths.
pub validate_manifest_path_iff :
    (path : Bytes) → (validate_manifest_path path ≡ none) ↔ IsSafePath path
unfolding validate_manifest_path
validate_manifest_path_iff path =
    ground (arith, check_segments-All (split b'/' path), absolute-not-IsPlain path)

-- An accepted path, joined to a directory, names an entry below that directory: its segments
-- follow the directory's, unchanged.
pub join_path_of_safe :
    (root : FilePath) (path : Bytes)
    → validate_manifest_path path ≡ none
    → join_path root path ≡ root ++ split b'/' path
unfolding join_path
join_path_of_safe root path h =
    push_all-IsPlain root (split b'/' path) ((validate_manifest_path_iff path).0 h).segments
