-- ===== src/Manifest.antt =====
-- internal/manifest/manifest.go: the llmp2p/v1 manifest and its validation.
-- `Bytes` and the decoding half of `Parse` are encoding/json, and `SHA256` is crypto/sha256: both
-- are parameters (Manifest.Codec). `CreatedAt` is a number of nanoseconds; errors carry what tells
-- them apart, not the text of the message.
pub mod Path
pub mod Content
pub mod Codec
pub mod Stored
pub mod Verify
pub mod Create
use llmp2p.Common.{
  ℕ, zero, suc, ◌+◌, Bool, true, false, not, ◌&&◌, ◌||◌, List, [], ◌∷◌, Option, none, some,
  if◌then◌else◌, ◌==◌, leb, ltb, length,
}
use llmp2p.Common.Int.{ℤ, pos, is_negative, is_nonpositive, add64}
use llmp2p.Common.Bytes.{
  Bytes, codes, equal, less, is_empty, has_prefix, contains_byte, split, class_between,
  is_hex_lower,
}

-- `Schema`
abbrev pub schema_v1 : Bytes
schema_v1 = codes "llmp2p/v1"

-- `PieceLength`, 4 MiB
abbrev pub default_piece_length : ℤ
default_piece_length = pos 4194304

pub record File : Type 0 where
  pub path : Bytes
  pub size : ℤ
  pub sha256 : Bytes

pub record Manifest : Type 0 where
  pub schema : Bytes
  pub model : Bytes
  pub revision : Bytes
  pub created_at : ℕ
  pub piece_length : ℤ
  pub info_hash : Bytes
  pub files : List File

pub data PathError : Type 0 where
  too_long absolute backslash drive_letter control_character : PathError
  invalid_segment : Bytes → PathError

pub data ManifestError : Type 0 where
  bad_schema bad_info_hash : Bytes → ManifestError
  no_model_or_revision bad_piece_length no_files decode_failed : ManifestError
  empty_path : ℕ → ManifestError
  bad_path : ℕ → PathError → ManifestError
  negative_size bad_sha256 not_sorted : Bytes → ManifestError

-- `sha256Re` and `infoRe`
unfoldable pub sha256_re : Bytes → Bool
sha256_re = class_between is_hex_lower 64 64

unfoldable pub info_re : Bytes → Bool
info_re = class_between is_hex_lower 40 40

-- `maxManifestPath`
abbrev pub max_manifest_path : ℕ
max_manifest_path = 512

unfoldable pub is_drive_letter : ℕ → Bool
is_drive_letter c = (leb b'A' c && leb c b'Z') || (leb b'a' c && leb c b'z')

-- `len(path) >= 2 && path[1] == ':' && isDriveLetter(path[0])`
unfoldable pub has_drive : Bytes → Bool
unfolding is_drive_letter
has_drive (c ∷ d ∷ cs) = d == b':' && is_drive_letter c
has_drive _ = false

-- the loop over the characters
unfoldable pub has_control : Bytes → Bool
has_control [] = false
has_control (c ∷ cs) = ltb c 0x20 || c == 0x7f || has_control cs

unfoldable pub check_segments : List Bytes → Option PathError
unfolding equal
check_segments [] = none
check_segments (seg ∷ segs) =
    let rest = check_segments segs in
    if equal seg [] || equal seg (codes ".") || equal seg (codes "..")
    then some (invalid_segment seg)
    else rest

-- `validateManifestPath`
unfoldable pub validate_manifest_path : Bytes → Option PathError
validate_manifest_path path =
    if ltb max_manifest_path (length path)
    then some too_long
    else if has_prefix path (codes "/")
    then some absolute
    else if contains_byte b'\\' path
    then some backslash
    else if has_drive path
    then some drive_letter
    else if has_control path
    then some control_character
    else check_segments (split b'/' path)

-- `i > 0 && f.Path <= m.Files[i-1].Path`
unfoldable pub is_unsorted : Option Bytes → Bytes → Bool
unfolding less
is_unsorted none path = false
is_unsorted (some previous) path = not (less previous path)

-- one round of the loop of `validateContent`: file `i`, after the path `previous`
unfoldable pub check_file : ℕ → Option Bytes → File → Option ManifestError
check_file i previous f =
    if is_empty f.path then some (empty_path i) else elim (validate_manifest_path f.path) [
      | some e ↦ some (bad_path i e)
      | none ↦
          if is_negative f.size
          then some (negative_size f.path)
          else if not (sha256_re f.sha256)
          then some (bad_sha256 f.path)
          else if is_unsorted previous f.path
          then some (not_sorted f.path)
          else none
    ]

unfoldable pub check_files : ℕ → Option Bytes → List File → Option ManifestError
check_files i previous [] = none
check_files i previous (f ∷ fs) =
    let rest = check_files (i + 1) (some f.path) fs in
    elim (check_file i previous f) [ some e ↦ some e | none ↦ rest ]

unfoldable pub is_nil {ℓ} : {A : Type ℓ} → List A → Bool
is_nil [] = true
is_nil (x ∷ xs) = false

-- `(*Manifest).validateContent`
unfoldable pub validate_content : Manifest → Option ManifestError
validate_content m =
    if not (equal m.schema schema_v1)
    then some (bad_schema m.schema)
    else if is_empty m.model || is_empty m.revision
    then some no_model_or_revision
    else if is_nonpositive m.piece_length
    then some bad_piece_length
    else if is_nil m.files
    then some no_files
    else check_files 0 none m.files

-- `(*Manifest).Validate`
unfoldable pub validate : Manifest → Option ManifestError
validate m = elim (validate_content m) [
  | some e ↦ some e
  | none ↦ if not (info_re m.info_hash) then some (bad_info_hash m.info_hash) else none
]

-- `for _, f := range m.Files { total += f.Size }`
unfoldable pub sum_sizes : ℤ → List File → ℤ
unfolding add64
sum_sizes total [] = total
sum_sizes total (f ∷ fs) = sum_sizes (add64 total f.size) fs
