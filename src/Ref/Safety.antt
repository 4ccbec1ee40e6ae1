-- ===== src/Ref/Safety.antt =====
-- What an accepted reference guarantees to the code that builds paths and URLs from it.
use llmp2p.Common.{
  ℕ, true, false, List, [], ◌∷◌, none, some, ok, err, ◌≡◌, ◌⊎◌, inl, inr, refl, arith, All, sym,
  ◌∙◌, Option-cases,
}
use llmp2p.Common.Bytes.{Bytes, codes, contains_pair, split}
use llmp2p.Common.Bytes.Laws.{equal_iff}
use llmp2p.Common.Disk.Laws.{IsPlain}
use llmp2p.Ref.{
  Ref, bad_scheme, owner_re, repo_re, rev_re, path_seg_re, is_dots, validate_segments,
  validate_path, validate, strip_scheme, parse_body, parse_rest, parse,
}

abbrev pub IsPathSegment : Bytes → Type 0
IsPathSegment seg = IsPlain seg × (path_seg_re seg ≡ true)

pub is_dots-IsPlain : (seg : Bytes) → is_dots seg ≡ false → IsPlain seg
unfolding is_dots
is_dots-IsPlain seg h =
    ground (arith, equal_iff seg [], equal_iff seg (codes "."), equal_iff seg (codes ".."))

validate_segments-All :
    (path : Bytes) (segs : List Bytes) → validate_segments path segs ≡ none → All IsPathSegment segs
unfolding validate_segments
validate_segments-All path [] h = tt
validate_segments-All path (seg ∷ segs) h =
    (ground (arith, is_dots-IsPlain seg), ground (arith, validate_segments-All path segs))

-- The path is absent, or a relative path of plain segments.
abbrev pub IsArtifact : Bytes → Type 0
IsArtifact path = (path ≡ []) ⊎ All IsPathSegment (split b'/' path)

validate_path-segments :
    (c : ℕ) (path : Bytes)
    → validate_path (c ∷ path) ≡ none
    → validate_segments (c ∷ path) (split b'/' (c ∷ path)) ≡ none
unfolding validate_path
validate_path-segments c path h = ground arith

validate_path-IsArtifact : (path : Bytes) → validate_path path ≡ none → IsArtifact path
validate_path-IsArtifact [] h = inl refl
validate_path-IsArtifact (c ∷ path) h =
    inr (validate_segments-All (c ∷ path) (split b'/' (c ∷ path)) (validate_path-segments c path h))

pub record IsWellFormed (r : Ref) : Type 0 where
  pub owner_matches : owner_re r.owner ≡ true
  pub repo_matches : repo_re r.repo ≡ true
  pub revision_matches : rev_re r.revision ≡ true
  pub revision_has_no_dots : contains_pair b'.' b'.' r.revision ≡ false
  pub artifact : IsArtifact r.path

pub validate-IsWellFormed : (r : Ref) → validate r ≡ none → IsWellFormed r
unfolding validate
validate-IsWellFormed r h = ground (arith, validate_path-IsArtifact r.path)

parse_body-validate :
    (body revision path : Bytes) {r : Ref}
    → parse_body body revision path ≡ ok r
    → validate r ≡ none
unfolding parse_body
parse_body-validate body revision path h = ground arith

parse_rest-validate : (rest : Bytes) {r : Ref} → parse_rest rest ≡ ok r → validate r ≡ none
unfolding parse_rest
parse_rest-validate rest h = parse_body-validate _ _ _ h

parse-none : (s : Bytes) → strip_scheme s ≡ none → parse s ≡ err (bad_scheme s)
unfolding parse
parse-none s e = rw (e, parse)

pub parse-some : (s rest : Bytes) → strip_scheme s ≡ some rest → parse s ≡ parse_rest rest
unfolding parse
parse-some s rest e = rw (e, parse)

pub parse-validate : (s : Bytes) {r : Ref} → parse s ≡ ok r → validate r ≡ none
parse-validate s h = elim (Option-cases (strip_scheme s)) [
  | inl e ↦ absurd (ground (arith, parse-none s e))
  | inr (rest, e) ↦ parse_rest-validate rest (sym (parse-some s rest e) ∙ h)
]

-- An accepted reference has an owner, a repo and a revision of the documented forms, a revision
-- with no `..`, and either no artifact path or a path of segments that are not empty, `.` or `..`.
pub parse-IsWellFormed : (s : Bytes) {r : Ref} → parse s ≡ ok r → IsWellFormed r
parse-IsWellFormed s {r} h = validate-IsWellFormed r (parse-validate s h)
