-- ===== src/Manifest/Content.antt =====
-- What `validateContent` and `Validate` accept.
use llmp2p.Common.{
  ℕ, ◌+◌, true, false, List, [], ◌∷◌, Option, none, some, ◌≡◌, ◌≢◌, ◌↔◌, refl, arith, All,
}
use llmp2p.Common.Int.{is_negative, is_nonpositive}
use llmp2p.Common.Bytes.{Bytes, less, is_empty}
use llmp2p.Common.Bytes.Laws.{equal_iff, less_trans, less_irrefl}
use llmp2p.Manifest.{
  File, Manifest, schema_v1, sha256_re, info_re, is_unsorted, check_file, check_files,
  validate_content, validate, is_nil,
}
use llmp2p.Manifest.Path.{IsSafePath, validate_manifest_path_iff}

pub record IsValidFile (f : File) : Type 0 where
  pub named : f.path ≢ []
  pub safe : IsSafePath f.path
  pub size_known : is_negative f.size ≡ false
  pub digest : sha256_re f.sha256 ≡ true

-- Each path is greater than every earlier one.
abbrev pub IsSorted : List File → Type 0
IsSorted [] = Unit
IsSorted (f ∷ fs) = All (λ g. less f.path g.path ≡ true) fs × IsSorted fs

-- Each path is greater than the one before it.
abbrev IsChain : Option Bytes → List File → Type 0
IsChain previous [] = Unit
IsChain previous (f ∷ fs) = (is_unsorted previous f.path ≡ false) × IsChain (some f.path) fs

is_empty_iff : (s : Bytes) → (is_empty s ≡ false) ↔ (s ≢ [])
unfolding is_empty
is_empty_iff [] = ground arith
is_empty_iff (c ∷ s) = ground arith

check_file_iff :
    (i : ℕ) (previous : Option Bytes) (f : File)
    → (check_file i previous f ≡ none) ↔ (IsValidFile f × (is_unsorted previous f.path ≡ false))
unfolding check_file
check_file_iff i previous f = ground (arith, is_empty_iff f.path, validate_manifest_path_iff f.path)

check_files_iff :
    (i : ℕ) (previous : Option Bytes) (fs : List File)
    → (check_files i previous fs ≡ none) ↔ (All IsValidFile fs × IsChain previous fs)
unfolding check_files
check_files_iff i previous [] = (λ h. (tt, tt), λ h. refl)
check_files_iff i previous (f ∷ fs) =
    ground (arith, check_file_iff i previous f, check_files_iff (i + 1) (some f.path) fs)

less-All :
    (p q : Bytes) (fs : List File)
    → less p q ≡ true
    → All (λ g. less q g.path ≡ true) fs
    → All (λ g. less p g.path ≡ true) fs
less-All p q [] h k = tt
less-All p q (g ∷ fs) h k = (less_trans p q g.path h k.0, less-All p q fs h k.1)

unsorted_iff : (p q : Bytes) → (is_unsorted (some p) q ≡ false) ↔ (less p q ≡ true)
unfolding is_unsorted
unsorted_iff p q = ground arith

IsChain-All :
    (p : Bytes) (fs : List File) → IsChain (some p) fs → All (λ g. less p g.path ≡ true) fs
IsChain-All p [] h = tt
IsChain-All p (f ∷ fs) h =
    let up = (unsorted_iff p f.path).0 h.0 in
    (up, less-All p f.path fs up (IsChain-All f.path fs h.1))

IsChain-IsSorted : (previous : Option Bytes) (fs : List File) → IsChain previous fs → IsSorted fs
IsChain-IsSorted previous [] h = tt
IsChain-IsSorted previous (f ∷ fs) h =
    (IsChain-All f.path fs h.1, IsChain-IsSorted (some f.path) fs h.1)

IsSorted-IsChain_after :
    (p : Bytes) (fs : List File)
    → All (λ g. less p g.path ≡ true) fs
    → IsSorted fs
    → IsChain (some p) fs
IsSorted-IsChain_after p [] h k = tt
IsSorted-IsChain_after p (f ∷ fs) h k =
    ((unsorted_iff p f.path).1 h.0, IsSorted-IsChain_after f.path fs k.0 k.1)

IsSorted-IsChain : (fs : List File) → IsSorted fs → IsChain none fs
unfolding is_unsorted
IsSorted-IsChain [] h = tt
IsSorted-IsChain (f ∷ fs) h = (refl, IsSorted-IsChain_after f.path fs h.0 h.1)

pub record IsContent (m : Manifest) : Type 0 where
  pub schema_known : m.schema ≡ schema_v1
  pub model_named : m.model ≢ []
  pub revision_named : m.revision ≢ []
  pub pieces : is_nonpositive m.piece_length ≡ false
  pub nonempty : m.files ≢ []
  pub files_valid : All IsValidFile m.files
  pub files_sorted : IsSorted m.files

is_nil_iff : {A : Type 0} (xs : List A) → (is_nil xs ≡ false) ↔ (xs ≢ [])
unfolding is_nil
is_nil_iff [] = ground arith
is_nil_iff (x ∷ xs) = ground arith

-- `validateContent` accepts exactly the manifests of the known schema with a model, a revision, a
-- positive piece length, and at least one file, all of them valid and strictly sorted by path.
pub validate_content_iff : (m : Manifest) → (validate_content m ≡ none) ↔ IsContent m
unfolding validate_content
validate_content_iff m = ground (
  arith,
  equal_iff m.schema schema_v1,
  is_empty_iff m.model,
  is_empty_iff m.revision,
  is_nil_iff m.files,
  check_files_iff 0 none m.files,
  IsChain-IsSorted none m.files,
  IsSorted-IsChain m.files,
)

pub validate_iff :
    (m : Manifest) → (validate m ≡ none) ↔ (IsContent m × (info_re m.info_hash ≡ true))
unfolding validate
validate_iff m = ground (arith, validate_content_iff m)

-- No two files of a sorted list have the same path.
abbrev pub HasDistinctPaths : List File → Type 0
HasDistinctPaths [] = Unit
HasDistinctPaths (f ∷ fs) = All (λ g. f.path ≢ g.path) fs × HasDistinctPaths fs

less_ne :
    (p : Bytes) (fs : List File) → All (λ g. less p g.path ≡ true) fs → All (λ g. p ≢ g.path) fs
less_ne p [] h = tt
less_ne p (g ∷ fs) h =
    (λ e. absurd (ground (arith, less_irrefl g.path, rw e at (h.0))), less_ne p fs h.1)

pub IsSorted-HasDistinctPaths : (fs : List File) → IsSorted fs → HasDistinctPaths fs
IsSorted-HasDistinctPaths [] h = tt
IsSorted-HasDistinctPaths (f ∷ fs) h = (less_ne f.path fs h.0, IsSorted-HasDistinctPaths fs h.1)
