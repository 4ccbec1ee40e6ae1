-- ===== src/Tests/RefTests.antt =====
-- References.
use llmp2p.Common.{ok, err, none, some, true, false, ◌≡◌, refl, [], ◌∷◌, ◌++◌}
use llmp2p.Common.Bytes.{Bytes, codes, cut, cut_cons, contains_byte, class_between, split, equal}
use llmp2p.Ref.{
  Ref, bad_owner, bad_path, bad_scheme, absolute_path, parse, ref_string, ref_id, validate,
  valid_model_id, cut_or, parse_body, repo_re, owner_re, is_repo_byte,
}
use llmp2p.Ref.RoundTrip.{parse-ref_string}
use llmp2p.Tests.Samples.{sample_ref}

parse_full : parse (codes "hf:org/repo.gguf@refs/pr/1#sub/a b.gguf") ≡ ok sample_ref
unfolding parse validate cut_or parse_body cut llmp2p.Common.Bytes.is_alnum llmp2p.Ref.is_owner_byte
    class_between is_repo_byte llmp2p.Ref.is_revision_byte llmp2p.Ref.is_segment_byte
parse_full = refl

parse_short :
    parse (codes "hf://org/repo")
    ≡ ok (record { owner = codes "org"; repo = codes "repo"; revision = codes "main"; path = [] })
unfolding parse validate cut_or parse_body cut llmp2p.Common.Bytes.is_alnum llmp2p.Ref.is_owner_byte
    class_between is_repo_byte llmp2p.Ref.is_revision_byte
parse_short = refl

parse_errors :
    (parse (codes "org/repo") ≡ err (bad_scheme (codes "org/repo")))
    × (parse (codes "hf:-org/repo") ≡ err (bad_owner (codes "-org")))
    × (parse (codes "hf:org/repo#/a") ≡ err (absolute_path (codes "/a")))
    × (parse (codes "hf:org/repo#a/../b") ≡ err (bad_path (codes "a/../b")))
unfolding parse validate cut_or parse_body cut llmp2p.Common.Bytes.is_alnum llmp2p.Ref.is_owner_byte
    class_between is_repo_byte llmp2p.Ref.is_revision_byte llmp2p.Ref.is_segment_byte
parse_errors = (refl, refl, refl, refl)

string_sample : ref_string sample_ref ≡ codes "hf:org/repo.gguf@refs/pr/1#sub/a b.gguf"
unfolding ref_string
string_sample = refl

sample_valid : validate sample_ref ≡ none
unfolding validate llmp2p.Common.Bytes.is_alnum llmp2p.Ref.is_owner_byte class_between is_repo_byte
    llmp2p.Ref.is_revision_byte llmp2p.Ref.is_segment_byte
sample_valid = refl

model_ids :
    (valid_model_id (codes "org/repo") ≡ true)
    × (valid_model_id (codes "org/repo/x") ≡ false)
    × (valid_model_id (codes "org") ≡ false)
unfolding valid_model_id cut contains_byte owner_re repo_re llmp2p.Common.Bytes.is_alnum
    llmp2p.Ref.is_owner_byte class_between is_repo_byte
model_ids = (refl, refl, refl)

parse-ref_string_example : parse (ref_string sample_ref) ≡ ok sample_ref
parse-ref_string_example = parse-ref_string sample_ref sample_valid
