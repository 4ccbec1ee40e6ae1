-- ===== src/Index.antt =====
-- internal/index/index.go: the bootstrap index.
-- The map of entries is an association list. encoding/json decodes a document to one, by the
-- parameter `decode`. `AddedAt` is a number of nanoseconds. Warnings and errors are values without
-- their text, so `sort.Strings` on the warnings is left out: their order is that of the entries.
pub mod Laws
pub mod Fetch
pub mod Listing
use llmp2p.Common.{
  ℕ, Bool, true, false, not, ◌&&◌, List, [], ◌∷◌, ◌++◌, Option, none, some, Result, ok, err,
  if◌then◌else◌,
}
use llmp2p.Common.Int.{ℤ, is_negative}
use llmp2p.Common.Bytes.{
  Bytes, codes, equal, class_between, is_hex_lower, contains_pair, trim_right,
}
use llmp2p.Common.Dict.{Dict, find, delete, insert}
use llmp2p.Ref.{valid_model_id, is_revision_byte}

pub record Entry : Type 0 where
  pub model : Bytes
  pub info_hash : Bytes
  pub manifest_sha256 : Bytes
  pub revision : Bytes
  pub size : ℤ
  pub added_at : ℕ

-- `Index`, by the map `Entries`
abbrev pub Index : Type 0
Index = Dict Entry

pub data EntryError : Type 0 where
  bad_model bad_info_hash bad_manifest_sha256 bad_revision bad_size : Bytes → EntryError

pub data AddError : Type 0 where
  invalid : EntryError → AddError
  conflicting : Bytes → AddError

pub data Warning : Type 0 where
  invalid_entry : EntryError → Warning
  key_mismatch : Bytes → Bytes → Warning
  conflict : Bytes → Warning

-- `infoHashHexRe`, `manifestHexRe` and `revisionRe`
unfoldable pub info_hash_hex_re : Bytes → Bool
info_hash_hex_re = class_between is_hex_lower 40 40

unfoldable pub manifest_hex_re : Bytes → Bool
manifest_hex_re = class_between is_hex_lower 64 64

unfoldable pub revision_re : Bytes → Bool
revision_re = class_between is_revision_byte 1 200

-- `Entry.Validate`
unfoldable pub validate : Entry → Option EntryError
validate e =
    if not (valid_model_id e.model)
    then some (bad_model e.model)
    else if not (info_hash_hex_re e.info_hash)
    then some (bad_info_hash e.model)
    else if not (manifest_hex_re e.manifest_sha256)
    then some (bad_manifest_sha256 e.model)
    else if not (revision_re e.revision)
    then some (bad_revision e.model)
    else if contains_pair b'.' b'.' e.revision
    then some (bad_revision e.model)
    else if is_negative e.size
    then some (bad_size e.model)
    else none

-- `(*Index).Get`
unfoldable pub get : Index → Bytes → Option Entry
get ix model = find model ix

-- `(*Index).Remove`
unfoldable pub remove : Index → Bytes → Index × Bool
remove ix model = elim (find model ix) [ none ↦ (ix, false) | some e ↦ (delete model ix, true) ]

-- `(*Index).Add`
unfoldable pub add : Index → Entry → Result AddError Index
add ix e = elim (validate e) [
  | some x ↦ err (invalid x)
  | none ↦ elim (find e.model ix) [
    | none ↦ ok (insert e.model e ix)
    | some existing ↦
        if equal existing.manifest_sha256 e.manifest_sha256
        then ok (insert e.model e ix)
        else err (conflicting e.model)
  ]
]

-- What the loop of `Parse` says of one entry of the document; `none` if it is kept.
unfoldable pub check_entry : Bytes → Entry → Option Warning
check_entry model e = elim (validate e) [
  | some x ↦ some (invalid_entry x)
  | none ↦ if not (equal model e.model) then some (key_mismatch model e.model) else none
]

unfoldable pub keep_valid : Index → Index
keep_valid [] = []
keep_valid ((model, e) ∷ es) =
    let rest = keep_valid es in
    elim (check_entry model e) [ some w ↦ rest | none ↦ (model, e) ∷ rest ]

unfoldable pub entry_warnings : Index → List Warning
entry_warnings [] = []
entry_warnings ((model, e) ∷ es) =
    let rest = entry_warnings es in elim (check_entry model e) [ some w ↦ w ∷ rest | none ↦ rest ]

-- `Parse`; `none` is the error of `json.Unmarshal`
unfoldable pub parse : (Bytes → Option Index) → Bytes → Option (Index × List Warning)
parse decode b = elim (decode b) [ none ↦ none | some es ↦ some (keep_valid es, entry_warnings es) ]

-- `strings.TrimRight(base, "/") + "/index.json"`
unfoldable pub index_url : Bytes → Bytes
index_url base = trim_right b'/' base ++ codes "/index.json"

-- `ManifestURL`
unfoldable pub manifest_url : Bytes → Bytes → Bytes
manifest_url base sha = trim_right b'/' base ++ (codes "/manifests/" ++ (sha ++ codes ".json"))
