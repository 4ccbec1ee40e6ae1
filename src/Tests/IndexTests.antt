-- ===== src/Tests/IndexTests.antt =====
-- The index: adding, removing, parsing and fetching.
use llmp2p.Common.{
  ℕ, Bool, true, false, not, if◌then◌else◌, List, replicate, [], ◌∷◌, ◌++◌, Option, none, some, ok,
  err, ◌≡◌, ◌≢◌, ◌↔◌, refl, arith, All,
}
use llmp2p.Common.Int.{pos}
use llmp2p.Common.Bytes.{Bytes, codes, equal}
use llmp2p.Common.Dict.{find}
use llmp2p.Index.{
  Entry, Index, get, add, remove, validate, parse, index_url, conflicting, conflict, key_mismatch,
}
use llmp2p.Index.Laws.{IsIndex}
use llmp2p.Index.Fetch.{Response, unreachable, answered, fetch}
use llmp2p.Index.Fetch.Laws.{first_origin, Fails, get-fetch, fetch-Fails_iff}
use llmp2p.Tests.Samples.{zeros40, zeros64}

abbrev entry : Entry
entry = record {
  model = codes "o/r";
  info_hash = zeros40;
  manifest_sha256 = zeros64;
  revision = codes "main";
  size = pos 3;
  added_at = 0;
}

abbrev index : Index
index = (codes "o/r", entry) ∷ []

abbrev document : Index
document = (codes "x/y", entry) ∷ (codes "o/r", entry) ∷ []

-- a network on which only `https://b` answers
abbrev web : Bytes → Response
web url = if equal url (codes "https://b/index.json") then answered 200 [] else unreachable

abbrev bases : List Bytes
bases = codes "https://a" ∷ codes "https://b/" ∷ []

entry_valid : validate entry ≡ none
unfolding validate llmp2p.Ref.valid_model_id llmp2p.Common.Bytes.cut
    llmp2p.Common.Bytes.contains_byte llmp2p.Ref.owner_re llmp2p.Common.Bytes.is_alnum
    llmp2p.Ref.repo_re llmp2p.Common.Bytes.class_between llmp2p.Ref.is_repo_byte
    llmp2p.Index.info_hash_hex_re llmp2p.Common.Bytes.is_hex_lower llmp2p.Index.manifest_hex_re
    llmp2p.Index.revision_re llmp2p.Ref.is_revision_byte llmp2p.Common.Bytes.contains_pair
entry_valid = refl

add_works : add [] entry ≡ ok index
unfolding add validate llmp2p.Ref.valid_model_id llmp2p.Common.Bytes.cut
    llmp2p.Common.Bytes.contains_byte llmp2p.Ref.owner_re llmp2p.Common.Bytes.is_alnum
    llmp2p.Ref.repo_re llmp2p.Common.Bytes.class_between llmp2p.Ref.is_repo_byte
    llmp2p.Index.info_hash_hex_re llmp2p.Common.Bytes.is_hex_lower llmp2p.Index.manifest_hex_re
    llmp2p.Index.revision_re llmp2p.Ref.is_revision_byte llmp2p.Common.Bytes.contains_pair
    llmp2p.Common.Dict.find llmp2p.Common.Dict.insert llmp2p.Common.Bytes.all_bytes
    llmp2p.Common.Bytes.cut_cons equal llmp2p.Common.Bytes.is_digit llmp2p.Common.Bytes.is_lower
    llmp2p.Common.Bytes.is_upper llmp2p.Common.Dict.delete llmp2p.Ref.ends_alnum
    llmp2p.Ref.is_owner_byte llmp2p.Ref.owner_tail
add_works = refl

parse_works :
    parse (λ b. some document) [] ≡ some (index, key_mismatch (codes "x/y") (codes "o/r") ∷ [])
unfolding parse llmp2p.Index.keep_valid llmp2p.Index.entry_warnings llmp2p.Index.check_entry
    validate llmp2p.Ref.valid_model_id llmp2p.Common.Bytes.cut llmp2p.Common.Bytes.contains_byte
    llmp2p.Ref.owner_re llmp2p.Common.Bytes.is_alnum llmp2p.Ref.repo_re
    llmp2p.Common.Bytes.class_between llmp2p.Ref.is_repo_byte llmp2p.Index.info_hash_hex_re
    llmp2p.Common.Bytes.is_hex_lower llmp2p.Index.manifest_hex_re llmp2p.Index.revision_re
    llmp2p.Ref.is_revision_byte llmp2p.Common.Bytes.contains_pair llmp2p.Common.Bytes.all_bytes
    llmp2p.Common.Bytes.cut_cons equal llmp2p.Common.Bytes.is_digit llmp2p.Common.Bytes.is_lower
    llmp2p.Common.Bytes.is_upper llmp2p.Ref.ends_alnum llmp2p.Ref.is_owner_byte
    llmp2p.Ref.owner_tail
parse_works = refl

fetch_works : (fetch web (λ b. some document) bases).0.index ≡ index
unfolding fetch llmp2p.Index.Fetch.fetch_loop llmp2p.Index.Fetch.absorb llmp2p.Index.Fetch.ask
    llmp2p.Index.Fetch.answer equal index_url llmp2p.Common.Bytes.trim_right parse
    llmp2p.Index.Fetch.merge llmp2p.Index.keep_valid llmp2p.Index.check_entry validate
    llmp2p.Ref.valid_model_id llmp2p.Common.Bytes.cut llmp2p.Common.Bytes.contains_byte
    llmp2p.Ref.owner_re llmp2p.Common.Bytes.is_alnum llmp2p.Common.Bytes.all_bytes
    llmp2p.Common.Bytes.class_between llmp2p.Common.Bytes.contains_pair llmp2p.Common.Bytes.cut_cons
    llmp2p.Common.Bytes.is_digit llmp2p.Common.Bytes.is_empty llmp2p.Common.Bytes.is_hex_lower
    llmp2p.Common.Bytes.is_lower llmp2p.Common.Bytes.is_upper llmp2p.Common.Dict.delete
    llmp2p.Common.Dict.find llmp2p.Common.Dict.insert llmp2p.Index.Fetch.add_missing
    llmp2p.Index.Fetch.conflict_of llmp2p.Index.Fetch.limit_reader llmp2p.Index.Fetch.merge_warnings
    llmp2p.Index.entry_warnings llmp2p.Index.info_hash_hex_re llmp2p.Index.manifest_hex_re
    llmp2p.Index.revision_re llmp2p.Ref.ends_alnum llmp2p.Ref.is_owner_byte llmp2p.Ref.is_repo_byte
    llmp2p.Ref.is_revision_byte llmp2p.Ref.owner_tail llmp2p.Ref.repo_re
fetch_works = refl

fetch_fails : (fetch web (λ b. none) bases).1 ≡ true
unfolding fetch llmp2p.Index.Fetch.fetch_loop llmp2p.Index.Fetch.absorb llmp2p.Index.Fetch.ask
    llmp2p.Index.Fetch.answer equal index_url llmp2p.Common.Bytes.trim_right parse
fetch_fails = refl

get-entry : get index (codes "o/r") ≡ some entry
unfolding get llmp2p.Common.Dict.find equal
get-entry = refl

get-document : get document (codes "o/r") ≡ some entry
unfolding get llmp2p.Common.Dict.find equal
get-document = refl

empty-IsIndex : IsIndex []
unfolding get find
empty-IsIndex model e h = absurd (ground arith)

abbrev other : Entry
other = record entry { manifest_sha256 = replicate 64 b'1' }

other_valid : validate other ≡ none
unfolding validate llmp2p.Ref.valid_model_id llmp2p.Common.Bytes.cut
    llmp2p.Common.Bytes.contains_byte llmp2p.Ref.owner_re llmp2p.Common.Bytes.is_alnum
    llmp2p.Ref.repo_re llmp2p.Common.Bytes.class_between llmp2p.Ref.is_repo_byte
    llmp2p.Index.info_hash_hex_re llmp2p.Common.Bytes.is_hex_lower llmp2p.Index.manifest_hex_re
    llmp2p.Index.revision_re llmp2p.Ref.is_revision_byte llmp2p.Common.Bytes.contains_pair
other_valid = refl

other_digest : zeros64 ≢ other.manifest_sha256
other_digest h = absurd (ground arith)

get-fetch_example :
    get (fetch web (λ b. some document) bases).0.index (codes "o/r")
    ≡ first_origin web (λ b. some document) (codes "o/r") bases
get-fetch_example = get-fetch web (λ b. some document) bases (codes "o/r")

fetch-Fails_iff_example :
    ((fetch web (λ b. some document) bases).1 ≡ true)
    ↔ ((bases ≢ []) × All (Fails web (λ b. some document)) bases)
fetch-Fails_iff_example = fetch-Fails_iff web (λ b. some document) bases
