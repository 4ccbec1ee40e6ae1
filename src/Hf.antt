-- ===== src/Hf.antt =====
-- internal/hf/client.go and internal/hf/repo.go: the files of a repository on the Hub, the pages of
-- its listing, and the base URL. The requests themselves are parameters.
pub mod Download
pub mod Listing
use llmp2p.Common.{
  ℕ, Bool, true, false, not, ◌||◌, List, [], ◌∷◌, ◌++◌, Option, none, some, Result, ok, err,
  if◌then◌else◌, ◌==◌, leb, ltb,
}
use llmp2p.Common.Int.{ℤ}
use llmp2p.Common.Bytes.{Bytes, codes, equal, is_empty}

pub record FileInfo : Type 0 where
  pub path : Bytes
  pub size : ℤ
  pub lfs_oid : Bytes

pub record RepoInfo : Type 0 where
  pub revision : Bytes
  pub files : List FileInfo

pub data HfError : Type 0 where
  not_found no_answer bad_document : HfError
  http_error : ℕ → HfError

-- `DefaultBaseURL`
abbrev pub default_base_url : Bytes
default_base_url = codes "https://huggingface.co"

-- `(*Client).baseURL`
unfoldable pub base_url : Bytes → Bytes
base_url configured = if is_empty configured then default_base_url else configured

-- one element of the document that lists a tree
pub record TreeEntry : Type 0 where
  pub kind : Bytes
  pub path : Bytes
  pub size : ℤ
  pub lfs : Option Bytes

unfoldable pub oid_of : Option Bytes → Bytes
oid_of none = []
oid_of (some oid) = oid

-- the loop over the entries of a page
unfoldable pub page_files : List TreeEntry → List FileInfo
page_files [] = []
page_files (e ∷ es) =
    let rest = page_files es in
    if not (equal e.kind (codes "file"))
    then rest
    else record { path = e.path; size = e.size; lfs_oid = oid_of e.lfs } ∷ rest

-- `decodeResponse`, on the status and the decoded body
unfoldable pub decode_response {ℓ} : {A : Type ℓ} → ℕ → Option A → Result HfError A
decode_response status body =
    if status == 404
    then err not_found
    else if ltb status 200 || leb 300 status
    then err (http_error status)
    else elim body [ none ↦ err bad_document | some a ↦ ok a ]
