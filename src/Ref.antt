-- ===== src/Ref.antt =====
-- internal/ref/ref.go: model references `hf:owner/repo[@revision][#path]`.
-- Texts are lists of bytes. The regular expressions are anchored and all their classes are ASCII,
-- so each is a test of the length and of every byte. An error carries the text that it quotes.
pub mod Pattern
pub mod RoundTrip
pub mod Safety
use llmp2p.Common.{
  ℕ, Bool, true, false, not, ◌&&◌, ◌||◌, List, [], ◌∷◌, ◌++◌, Option, none, some, Result, ok, err,
  check, ◌>>=◌, ◌>>◌, if◌then◌else◌, ◌==◌, leb, length,
}
use llmp2p.Common.Bytes.{
  Bytes, codes, equal, is_empty, class_between, cut_prefix, has_prefix, cut, contains_byte,
  contains_pair, split, is_alnum,
}

-- `DefaultRevision`
abbrev pub default_revision : Bytes
default_revision = codes "main"

pub record Ref : Type 0 where
  pub owner : Bytes
  pub repo : Bytes
  pub revision : Bytes
  pub path : Bytes

pub data RefError : Type 0 where
  bad_scheme bad_shape bad_owner bad_repo bad_revision absolute_path bad_path : Bytes → RefError

-- `[a-zA-Z0-9_-]`
unfoldable pub is_owner_byte : ℕ → Bool
unfolding is_alnum
is_owner_byte c = is_alnum c || c == b'_' || c == b'-'

-- `[a-zA-Z0-9._-]`
unfoldable pub is_repo_byte : ℕ → Bool
unfolding is_alnum
is_repo_byte c = is_alnum c || c == b'.' || c == b'_' || c == b'-'

-- `[a-zA-Z0-9._/-]`
unfoldable pub is_revision_byte : ℕ → Bool
unfolding is_alnum
is_revision_byte c = is_alnum c || c == b'.' || c == b'_' || c == b'/' || c == b'-'

-- `[a-zA-Z0-9._ +()'\-]`
unfoldable pub is_segment_byte : ℕ → Bool
unfolding is_alnum
is_segment_byte c =
    is_alnum c
    || c == b'.'
    || c == b'_'
    || c == b' '
    || c == b'+'
    || c == b'('
    || c == b')'
    || c == 39
    || c == b'-'

-- `[a-zA-Z0-9_-]*[a-zA-Z0-9]`, on a text that is not empty
unfoldable pub ends_alnum : ℕ → Bytes → Bool
ends_alnum c [] = is_alnum c
ends_alnum c (d ∷ cs) = is_owner_byte c && ends_alnum d cs

-- `(?:[a-zA-Z0-9_-]{0,93}[a-zA-Z0-9])?`
unfoldable pub owner_tail : Bytes → Bool
unfolding ends_alnum
owner_tail [] = true
owner_tail (c ∷ cs) = leb (length (c ∷ cs)) 94 && ends_alnum c cs

-- `ownerRe`
unfoldable pub owner_re : Bytes → Bool
unfolding owner_tail
owner_re [] = false
owner_re (c ∷ cs) = is_alnum c && owner_tail cs

-- `repoRe`
unfoldable pub repo_re : Bytes → Bool
repo_re = class_between is_repo_byte 1 96

-- `revRe`
unfoldable pub rev_re : Bytes → Bool
rev_re = class_between is_revision_byte 1 200

-- `pathSegRe`
unfoldable pub path_seg_re : Bytes → Bool
path_seg_re = class_between is_segment_byte 1 255

-- `seg == "" || seg == "." || seg == ".."`
unfoldable pub is_dots : Bytes → Bool
unfolding equal
is_dots seg = equal seg [] || equal seg (codes ".") || equal seg (codes "..")

-- the loop over the segments of the path
unfoldable pub validate_segments : Bytes → List Bytes → Option RefError
unfolding is_dots path_seg_re
validate_segments path [] = none
validate_segments path (seg ∷ segs) =
    let rest = validate_segments path segs in
    if is_dots seg || not (path_seg_re seg) then some (bad_path path) else rest

unfoldable pub validate_path : Bytes → Option RefError
unfolding is_empty has_prefix validate_segments split
validate_path path =
    if is_empty path
    then none
    else if has_prefix path (codes "/")
    then some (absolute_path path)
    else validate_segments path (split b'/' path)

-- `(*Ref).validate`
unfoldable pub validate : Ref → Option RefError
unfolding owner_re repo_re rev_re contains_pair validate_path
validate r =
    if not (owner_re r.owner)
    then some (bad_owner r.owner)
    else if not (repo_re r.repo)
    then some (bad_repo r.repo)
    else if not (rev_re r.revision)
    then some (bad_revision r.revision)
    else if contains_pair b'.' b'.' r.revision
    then some (bad_revision r.revision)
    else validate_path r.path

-- `before, after, found := strings.Cut(s, sep)`, with a default for `after`
unfoldable pub cut_or : ℕ → Bytes → Bytes → Bytes × Bytes
cut_or sep s d = elim (cut sep s) [ none ↦ (s, d) | some p ↦ p ]

-- the prefix `hf://` or `hf:`
unfoldable pub strip_scheme : Bytes → Option Bytes
unfolding cut_prefix
strip_scheme s = elim (cut_prefix s (codes "hf://")) [
  | none ↦ cut_prefix s (codes "hf:")
  | some rest ↦ some rest
]

-- the end of `Parse`, from the body, the revision and the path
unfoldable pub parse_body : Bytes → Bytes → Bytes → Result RefError Ref
parse_body body revision path = elim (cut b'/' body) [
  | none ↦ err (bad_shape body)
  | some (owner, repo) ↦
      let r : Ref = record { owner = owner; repo = repo; revision = revision; path = path } in
      check (validate r) >> ok r
]

-- what `Parse` does behind the prefix
unfoldable pub parse_rest : Bytes → Result RefError Ref
parse_rest rest =
    let p = cut_or b'#' rest [] in
    let q = cut_or b'@' p.0 default_revision in parse_body q.0 q.1 p.1

-- `Parse`
unfoldable pub parse : Bytes → Result RefError Ref
unfolding strip_scheme parse_rest
parse s = elim (strip_scheme s) [ none ↦ err (bad_scheme s) | some rest ↦ parse_rest rest ]

-- `ValidModelID`
unfoldable pub valid_model_id : Bytes → Bool
valid_model_id id = elim (cut b'/' id) [
  | none ↦ false
  | some (owner, repo) ↦ if contains_byte b'/' repo then false else owner_re owner && repo_re repo
]

-- `(*Ref).ID`
unfoldable pub ref_id : Ref → Bytes
ref_id r = r.owner ++ (b'/' ∷ r.repo)

-- `(*Ref).String`
unfoldable pub ref_string : Ref → Bytes
unfolding ref_id equal is_empty
ref_string r =
    codes "hf:"
    ++ (ref_id r
        ++ ((if equal r.revision default_revision then [] else b'@' ∷ r.revision)
            ++ (if is_empty r.path then [] else b'#' ∷ r.path)))
