-- ===== src/Ref/RoundTrip.antt =====
-- `Parse` reads what `String` writes.
use llmp2p.Common.{
  ℕ, Bool, true, false, not, [], ◌∷◌, ◌++◌, none, some, ok, ◌≡◌, refl, sym, ◌∙◌, arith,
  if◌then◌else◌, inl, inr, Bool-cases, append-nil, append_assoc, ◌==◌,
}
use llmp2p.Common.Bytes.{Bytes, codes, equal, is_empty, all_bytes, cut, is_alnum}
use llmp2p.Common.Bytes.Laws.{equal_iff, all_bytes-append, cut-eq-none, cut-append}
use llmp2p.Ref.{
  Ref, default_revision, is_owner_byte, is_repo_byte, is_revision_byte, owner_re, repo_re, validate,
  cut_or, strip_scheme, parse_body, parse_rest, parse, valid_model_id, ref_id, ref_string,
}
use llmp2p.Ref.Pattern.{
  all_bytes-contains_byte, owner_re-all_bytes, repo_re-all_bytes, rev_re-all_bytes,
}
use llmp2p.Ref.Safety.{IsWellFormed, validate-IsWellFormed, parse-validate, parse-some}

abbrev other : ℕ → ℕ → Bool
other b c = not (c == b)

other_self : (b : ℕ) → other b b ≡ false
other_self b = ground arith

module _ (p q : ℕ → Bool) (sub : (c : ℕ) → p c ≡ true → q c ≡ true) where
  all_bytes_mono : (s : Bytes) → all_bytes p s ≡ true → all_bytes q s ≡ true
  unfolding all_bytes
  all_bytes_mono [] h = refl
  all_bytes_mono (c ∷ s) h = ground (arith, sub c, all_bytes_mono s)

abbrev revision_suffix : Bytes → Bytes
revision_suffix revision = if equal revision default_revision then [] else b'@' ∷ revision

abbrev path_suffix : Bytes → Bytes
path_suffix path = if is_empty path then [] else b'#' ∷ path

module _ (p : ℕ → Bool) (sep : ℕ) (s d : Bytes) (h : all_bytes p s ≡ true) (n : p sep ≡ false) where
  cut_or_none : cut_or sep s d ≡ (s, d)
  unfolding cut_or
  cut_or_none = rw (cut-eq-none p sep s h n, cut_or)

  cut_or_some : (t : Bytes) → cut_or sep (s ++ (sep ∷ t)) d ≡ (s, t)
  unfolding cut_or
  cut_or_some t = rw (cut-append p sep s t h n, cut_or)

cut_or-path_suffix :
    (s path : Bytes)
    → all_bytes (other b'#') s ≡ true
    → cut_or b'#' (s ++ path_suffix path) [] ≡ (s, path)
unfolding is_empty
cut_or-path_suffix s [] h = rw append-nil (cut_or_none (other b'#') b'#' s [] h refl)
cut_or-path_suffix s (c ∷ path) h = cut_or_some (other b'#') b'#' s [] h refl (c ∷ path)

cut_or-revision_suffix :
    (s revision : Bytes)
    → all_bytes (other b'@') s ≡ true
    → cut_or b'@' (s ++ revision_suffix revision) default_revision ≡ (s, revision)
cut_or-revision_suffix s revision h = elim (Bool-cases (equal revision default_revision)) [
  | inl e ↦
      rw (e, append-nil s, (equal_iff revision default_revision).0 e)
        (cut_or_none (other b'@') b'@' s default_revision h refl)
  | inr e ↦ rw e (cut_or_some (other b'@') b'@' s default_revision h refl revision)
]

is_owner_byte-other :
    (c : ℕ)
    → is_owner_byte c ≡ true
    → (other b'#' c ≡ true) × (other b'@' c ≡ true) × (other b'/' c ≡ true)
unfolding is_owner_byte
is_owner_byte-other c h = ground arith

is_repo_byte-other :
    (c : ℕ)
    → is_repo_byte c ≡ true
    → (other b'#' c ≡ true) × (other b'@' c ≡ true) × (other b'/' c ≡ true)
unfolding is_repo_byte
is_repo_byte-other c h = ground arith

is_revision_byte-other : (c : ℕ) → is_revision_byte c ≡ true → other b'#' c ≡ true
unfolding is_revision_byte
is_revision_byte-other c h = ground arith

module _ (r : Ref) (w : IsWellFormed r) where
  owner_bytes : all_bytes is_owner_byte r.owner ≡ true
  owner_bytes = owner_re-all_bytes r.owner w.owner_matches

  repo_bytes : all_bytes is_repo_byte r.repo ≡ true
  repo_bytes = repo_re-all_bytes r.repo w.repo_matches

  ref_id-no_at : all_bytes (other b'@') (ref_id r) ≡ true
  unfolding ref_id
  ref_id-no_at = rw all_bytes-append (
      unfold all_bytes in
      rw (
        all_bytes_mono is_owner_byte (other b'@') (λ c h. (is_owner_byte-other c h).1) r.owner
            owner_bytes,
        all_bytes_mono is_repo_byte (other b'@') (λ c h. (is_repo_byte-other c h).1) r.repo
            repo_bytes,
      ))

  ref_id-no_hash : all_bytes (other b'#') (ref_id r) ≡ true
  unfolding ref_id
  ref_id-no_hash = rw all_bytes-append (
      unfold all_bytes in
      rw (
        all_bytes_mono is_owner_byte (other b'#') (λ c h. (is_owner_byte-other c h).0) r.owner
            owner_bytes,
        all_bytes_mono is_repo_byte (other b'#') (λ c h. (is_repo_byte-other c h).0) r.repo
            repo_bytes,
      ))

  revision-no_hash : all_bytes (other b'#') (revision_suffix r.revision) ≡ true
  revision-no_hash = elim (Bool-cases (equal r.revision default_revision)) [
    | inl e ↦ rw e (unfold all_bytes in refl)
    | inr e ↦ rw e (
        unfold all_bytes in
        all_bytes_mono is_revision_byte (other b'#') is_revision_byte-other r.revision
          (rev_re-all_bytes r.revision w.revision_matches))
  ]

  body-no_hash : all_bytes (other b'#') (ref_id r ++ revision_suffix r.revision) ≡ true
  body-no_hash = rw (all_bytes-append, ref_id-no_hash, revision-no_hash)

  cut-ref_id : cut b'/' (ref_id r) ≡ some (r.owner, r.repo)
  unfolding ref_id
  cut-ref_id =
      cut-append (other b'/') b'/' r.owner r.repo
        (all_bytes_mono is_owner_byte (other b'/') (λ c h. (is_owner_byte-other c h).2) r.owner
          owner_bytes)
        refl

  parse_body-ref_id : validate r ≡ none → parse_body (ref_id r) r.revision r.path ≡ ok r
  unfolding parse_body
  parse_body-ref_id h = rw (cut-ref_id, parse_body) (rw h)

  parse_rest-ref_id :
      validate r ≡ none
      → parse_rest (ref_id r ++ (revision_suffix r.revision ++ path_suffix r.path)) ≡ ok r
  unfolding parse_rest
  parse_rest-ref_id h =
      rw
        (
          ← append_assoc,
          cut_or-path_suffix (ref_id r ++ revision_suffix r.revision) r.path body-no_hash,
          cut_or-revision_suffix (ref_id r) r.revision ref_id-no_at,
        )
        (parse_body-ref_id h)

strip_scheme-owner :
    (owner t : Bytes)
    → owner_re owner ≡ true
    → strip_scheme (codes "hf:" ++ (owner ++ t)) ≡ some (owner ++ t)
unfolding strip_scheme owner_re is_alnum
strip_scheme-owner [] t h = absurd (ground arith)
strip_scheme-owner (c ∷ owner) t h = ground arith

-- A reference accepted by `validate` is read back from its canonical form.
pub parse-ref_string : (r : Ref) → validate r ≡ none → parse (ref_string r) ≡ ok r
parse-ref_string r h =
    let w = validate-IsWellFormed r h in
    let rest = revision_suffix r.revision ++ path_suffix r.path in
    parse-some (ref_string r) (ref_id r ++ rest) (
      unfold ref_string ref_id in
      rw append_assoc (strip_scheme-owner r.owner (b'/' ∷ (r.repo ++ rest)) w.owner_matches))
    ∙ parse_rest-ref_id r w h

-- What was parsed is read back from its canonical form.
pub parse-ref_string_of_parse :
    (s : Bytes) {r : Ref} → parse s ≡ ok r → parse (ref_string r) ≡ parse s
parse-ref_string_of_parse s {r} h = parse-ref_string r (parse-validate s h) ∙ sym h

pub valid_model_id_of :
    (id owner repo : Bytes)
    → cut b'/' id ≡ some (owner, repo)
    → owner_re owner ≡ true
    → repo_re repo ≡ true
    → valid_model_id id ≡ true
unfolding valid_model_id is_repo_byte
valid_model_id_of id owner repo e o q =
    let slash = all_bytes-contains_byte is_repo_byte b'/' repo (repo_re-all_bytes repo q) refl in
    rw (e, valid_model_id) (rw (slash, o, q))

-- The id of an accepted reference is a model id, and splits into its owner and repo.
pub ref_id-valid_model_id :
    (r : Ref)
    → validate r ≡ none
    → (valid_model_id (ref_id r) ≡ true) × (cut b'/' (ref_id r) ≡ some (r.owner, r.repo))
ref_id-valid_model_id r h =
    let w = validate-IsWellFormed r h in
    let e = cut-ref_id r w in
    (valid_model_id_of (ref_id r) r.owner r.repo e w.owner_matches w.repo_matches, e)
