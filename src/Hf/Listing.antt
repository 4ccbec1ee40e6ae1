-- ===== src/Hf/Listing.antt =====
-- internal/hf/repo.go: `Resolve`, `listTree` and the link header of a page.
-- The Hub is the list of its answers to the requests for pages, made one after the other, each a
-- function of the URL; where the list ends, no answer comes. `net/url` makes the next URL absolute by
-- the parameter `resolve_url`. `sort.Slice` leaves the order of equal paths open; here it is that of
-- insertion.
pub mod Laws
use llmp2p.Common.{
  ℕ, Bool, true, false, not, ◌&&◌, List, [], ◌∷◌, ◌++◌, Option, none, some, Result, ok, err, ◌>>=◌,
  if◌then◌else◌, ◌==◌,
}
use llmp2p.Common.Bytes.{
  Bytes, codes, equal, less, is_empty, split, cut, trim_by, is_space, has_suffix, trim_right_by,
}
use llmp2p.Hf.{
  FileInfo, RepoInfo, HfError, no_answer, bad_document, TreeEntry, page_files, decode_response,
  base_url,
}

pub data TreeReply : Type 0 where
  no_reply : TreeReply
  page : ℕ → Option (List TreeEntry) → Bytes → TreeReply

-- `strings.TrimSuffix(s, "/")`: one slash goes
unfoldable pub trim_slash : Bytes → Bytes
trim_slash [] = []
trim_slash (c ∷ []) = if c == b'/' then [] else c ∷ []
trim_slash (c ∷ d ∷ cs) = c ∷ trim_slash (d ∷ cs)

-- `(*Client).endpoint`, with the encoded query
unfoldable pub endpoint : Bytes → Bytes → Bytes → Bytes
endpoint base path query =
    trim_slash (base_url base) ++ (path ++ (if is_empty query then [] else b'?' ∷ query))

-- `splitLinkHeader`
unfoldable pub split_link_header : Bytes → List Bytes
split_link_header [] = []
split_link_header (c ∷ cs) = split b',' (c ∷ cs)

unfoldable pub is_angle : ℕ → Bool
is_angle c = if c == b'<' then true else c == b'>'

unfoldable pub trim_space : Bytes → Bytes
trim_space s = trim_by is_space s

-- one part of the header: the URL, if the part is that of the next page
unfoldable pub next_of : Option (Bytes × Bytes) → Option Bytes
next_of none = none
next_of (some (url, rel)) =
    if equal (trim_space rel) (codes "rel=\"next\"")
    then some (trim_by is_angle (trim_space url))
    else none

unfoldable pub link_parts : List Bytes → Bytes
link_parts [] = []
link_parts (part ∷ parts) =
    let rest = link_parts parts in elim (next_of (cut b';' part)) [ none ↦ rest | some url ↦ url ]

-- `linkNext`
unfoldable pub link_next : Bytes → Bytes
link_next header = link_parts (split_link_header header)

unfoldable pub insert_file : FileInfo → List FileInfo → List FileInfo
insert_file f [] = f ∷ []
insert_file f (g ∷ gs) =
    let rest = insert_file f gs in if less g.path f.path then g ∷ rest else f ∷ g ∷ gs

-- `sort.Slice(files, …)`
unfoldable pub sort_files : List FileInfo → List FileInfo
sort_files [] = []
sort_files (f ∷ fs) = insert_file f (sort_files fs)

module _ (resolve_url : Bytes → Bytes → Option Bytes) where
  -- where the next page is: `none` if there is none
  unfoldable pub next_page : Bytes → Bytes → Result HfError (Option Bytes)
  next_page url link =
      if is_empty (link_next link) then ok none else elim (resolve_url url (link_next link)) [
        | none ↦ err bad_document
        | some u ↦ if is_empty u then ok none else ok (some u)
      ]

  -- the loop over the pages
  unfoldable pub list_pages :
      List (Bytes → TreeReply) → Bytes → List FileInfo → Result HfError (List FileInfo)
  list_pages [] url files = err no_answer
  list_pages (hub ∷ hubs) url files = elim (hub url) [
    | no_reply ↦ err no_answer
    | page status body link ↦ elim (decode_response status body) [
      | err e ↦ err e
      | ok entries ↦ elim (next_page url link) [
        | err e ↦ err e
        | ok next ↦ elim next [
          | none ↦ ok (files ++ page_files entries)
          | some u ↦ list_pages hubs u (files ++ page_files entries)
        ]
      ]
    ]
  ]

  -- `listTree`
  unfoldable pub list_tree :
      List (Bytes → TreeReply) → Bytes → Bytes → Bytes → Result HfError (List FileInfo)
  list_tree hubs base repo_id sha =
      list_pages hubs
        (endpoint base (codes "/api/models/" ++ (repo_id ++ (codes "/tree/" ++ sha)))
          (codes "expand=false&recursive=true"))
        []
      >>= λ files. ok (sort_files files)

  -- `Resolve`: the Hub's answer for the revision, and those for the pages
  unfoldable pub resolve :
      (Bytes → ℕ × Option Bytes)
      → List (Bytes → TreeReply)
      → Bytes
      → Bytes
      → Bytes
      → Result HfError RepoInfo
  resolve hub hubs base repo_id revision =
      let answer = hub (
        endpoint base (codes "/api/models/" ++ (repo_id ++ (codes "/revision/" ++ revision))) []) in
      decode_response answer.0 answer.1 >>= λ sha.
      list_tree hubs base repo_id sha >>= λ files. ok (record { revision = sha; files = files })
