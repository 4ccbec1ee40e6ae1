-- ===== src/Tests/PullTests.antt =====
-- Pulls: what comes from the origins, and the local index.
use llmp2p.Common.{
  ℕ, Bool, true, false, List, [], ◌∷◌, ◌++◌, replicate, Option, none, some, Result, ok, err, ◌≡◌,
  ◌≢◌, refl, arith,
}
use llmp2p.Common.Int.{pos}
use llmp2p.Common.Bytes.{Bytes, codes}
use llmp2p.Common.Disk.{FilePath, Disk, Node, file, dir}
use llmp2p.Ref.{Ref, ref_id}
use llmp2p.Manifest.{Manifest, validate}
use llmp2p.Manifest.Codec.{bytes}
use llmp2p.Index as Index
use llmp2p.Index.{Entry, Index, get}
use llmp2p.Index.Fetch.{answered}
use llmp2p.Store.{Store, model_dir}
use llmp2p.Dht.Laws.{Among}
use llmp2p.Pull.{Environment, Pulled, PullError, Sidecar, verify_hex, check_cache, requested}
use llmp2p.Pull.Origins.{fetch_manifest, verify_manifest_signature}
use llmp2p.Pull.Publish.{local_index, publish_local_index, publish}
use llmp2p.Pull.Run.{Options, Network}
use llmp2p.Pull.Laws.{publish_local_index_conflict}
use llmp2p.Pull.Laws.Trust.{IsPinned, fetch_manifest-IsPinned, verify_manifest_signature-Among}
use llmp2p.Tests.Samples.{
  zeros40, zeros64, zero_sum, sample_manifest, sample_file, sample_torrents,
  sample_torrents-IsLawful, sample_codec, sample_entry,
}
use llmp2p.Pull.Swarm.{done}
use llmp2p.Tests.DhtTests.{libraries, seq_codec}

abbrev sidecar : Sidecar
sidecar = record { manifest_sha256 = zeros64; signature = replicate 128 b'0'; public_key = zeros64 }

-- Every origin answers every request with an empty body.
abbrev pub environment : Environment
environment = record {
  codec = sample_codec;
  torrents = sample_torrents;
  index_codec = record {
    encode = λ i. some [];
    decode = λ b. some ((codes "org/repo", sample_entry) ∷ []);
  };
  web = λ url. answered 200 [];
  decode_sidecar = λ b. some sidecar;
  ed25519_verify = λ key content signature. true;
  encode_sidecar = λ x. some [];
  decode_key = λ b. none;
  ed25519_sign = λ key content. [];
  ed25519_public = λ key. [];
  seq_codec = seq_codec;
  put_nodes = none;
}

abbrev pub store : Store
store = record { root = codes "r" ∷ [] }

abbrev pub model_path : FilePath
model_path = codes "r" ∷ codes "store" ∷ codes "org" ∷ codes "repo" ∷ []

-- the store after a pull of the file `a/b`
abbrev pub disk : Disk
disk = record {
  nodes =
      (codes "r" ∷ [], dir)
      ∷ (codes "r" ∷ codes "index.json" ∷ [], file [])
      ∷ (codes "r" ∷ codes "store" ∷ [], dir)
      ∷ (codes "r" ∷ codes "store" ∷ codes "org" ∷ [], dir)
      ∷ (model_path, dir)
      ∷ (model_path ++ codes ".llmp2p-manifest.json" ∷ [], file [])
      ∷ (model_path ++ codes "a" ∷ [], dir)
      ∷ (model_path ++ codes "a" ∷ codes "b" ∷ [], file (codes "abc"))
      ∷ [];
  refuses = λ p. false;
}

abbrev origins : List Bytes
origins = codes "https://b" ∷ []

abbrev pub options : Options
options = record {
  bootstrap_urls = origins;
  allowed_signers = zeros64 ∷ [];
  http_only = false;
  dht = false;
  p2p_grace = pos 0;
  no_http_fallback = false;
}

-- a swarm that has already delivered everything
abbrev pub network : Network
network = record {
  libraries = libraries;
  nodes = [];
  engine_starts = λ p. true;
  add_magnet = λ m. true;
  known = [];
  peers = [];
  swarm = λ h p d. (d, done none ∷ []);
  path_escape = λ s. s;
  base = [];
  hub = λ f. [];
}

fetch_works : fetch_manifest environment origins sample_entry (codes "main") ≡ ok sample_manifest
unfolding fetch_manifest llmp2p.Pull.Origins.accept_manifest llmp2p.Pull.Origins.body_of
    llmp2p.Manifest.Codec.parse validate llmp2p.Manifest.validate_content llmp2p.Common.Bytes.equal
    llmp2p.Common.Bytes.is_empty llmp2p.Manifest.is_nil llmp2p.Manifest.check_files
    llmp2p.Manifest.check_file llmp2p.Manifest.validate_manifest_path llmp2p.Common.Bytes.has_prefix
    llmp2p.Common.Bytes.contains_byte llmp2p.Manifest.has_drive llmp2p.Manifest.has_control
    llmp2p.Manifest.check_segments llmp2p.Common.Bytes.split llmp2p.Common.Bytes.Hex.hex_digit
    llmp2p.Common.Bytes.Hex.hex_encode llmp2p.Common.Bytes.all_bytes
    llmp2p.Common.Bytes.class_between llmp2p.Common.Bytes.cons_head llmp2p.Common.Bytes.is_digit
    llmp2p.Common.Bytes.is_hex_lower llmp2p.Common.Bytes.less llmp2p.Common.Bytes.trim_right
    llmp2p.Index.Fetch.limit_reader Index.manifest_url bytes llmp2p.Manifest.Codec.digest
    llmp2p.Manifest.info_re llmp2p.Manifest.is_drive_letter llmp2p.Manifest.is_unsorted
    llmp2p.Manifest.sha256_re llmp2p.Pull.Origins.is_pinned llmp2p.Tests.Samples.is_sample
    llmp2p.Tests.Samples.is_sample_files
fetch_works = refl

fetch_manifest-IsPinned_example : IsPinned environment sample_entry (codes "main") sample_manifest
fetch_manifest-IsPinned_example =
    fetch_manifest-IsPinned environment origins sample_entry (codes "main") fetch_works

signature_works :
    verify_manifest_signature environment (zeros64 ∷ []) sample_manifest origins ≡ none
unfolding verify_manifest_signature llmp2p.Manifest.Codec.digest llmp2p.Tests.Samples.is_sample
    llmp2p.Common.Bytes.equal llmp2p.Tests.Samples.is_sample_files llmp2p.Pull.Origins.fetch_sidecar
    llmp2p.Pull.Origins.body_of llmp2p.Pull.Origins.check_sidecar verify_hex
    llmp2p.Pull.is_signature llmp2p.Common.Bytes.Hex.hex_decode llmp2p.Manifest.is_nil
    llmp2p.Pull.Origins.contains
signature_works = refl

listed : zeros64 ∷ [] ≢ []
listed h = absurd (ground arith)

verify_manifest_signature-Among_example :
    (sig : Sidecar) × (canonical : Bytes) × (bytes sample_codec sample_manifest ≡ ok canonical)
    × Among sig.public_key (zeros64 ∷ [])
    × (verify_hex environment.ed25519_verify sig.public_key sig.signature canonical ≡ true)
verify_manifest_signature-Among_example =
    verify_manifest_signature-Among environment (zeros64 ∷ []) sample_manifest origins listed
      signature_works

abbrev newer : Entry
newer = record sample_entry { manifest_sha256 = replicate 64 b'1' }

newer_valid : Index.validate newer ≡ none
unfolding Index.validate llmp2p.Ref.valid_model_id llmp2p.Common.Bytes.cut
    llmp2p.Common.Bytes.contains_byte llmp2p.Ref.owner_re llmp2p.Common.Bytes.is_alnum
    llmp2p.Ref.is_owner_byte llmp2p.Ref.repo_re llmp2p.Common.Bytes.class_between
    llmp2p.Ref.is_repo_byte Index.info_hash_hex_re llmp2p.Common.Bytes.is_hex_lower
    Index.manifest_hex_re Index.revision_re llmp2p.Ref.is_revision_byte
    llmp2p.Common.Bytes.contains_pair
newer_valid = refl

entry_listed : get (local_index environment store disk) (codes "org/repo") ≡ some sample_entry
unfolding get local_index llmp2p.Common.Dict.find llmp2p.Common.Disk.read_file
    llmp2p.Store.local_index_path llmp2p.Common.Disk.join_path llmp2p.Pull.Publish.parsed_index
    Index.parse Index.keep_valid Index.check_entry Index.validate llmp2p.Ref.valid_model_id
    llmp2p.Common.Bytes.cut llmp2p.Common.Bytes.contains_byte llmp2p.Ref.owner_re
    llmp2p.Common.Bytes.is_alnum llmp2p.Ref.is_owner_byte llmp2p.Ref.repo_re
    llmp2p.Common.Bytes.class_between llmp2p.Common.Bytes.all_bytes llmp2p.Common.Bytes.cons_head
    llmp2p.Common.Bytes.contains_pair llmp2p.Common.Bytes.cut_cons llmp2p.Common.Bytes.equal
    llmp2p.Common.Bytes.is_digit llmp2p.Common.Bytes.is_hex_lower llmp2p.Common.Bytes.is_lower
    llmp2p.Common.Bytes.is_upper llmp2p.Common.Bytes.split llmp2p.Common.Disk.lookup
    llmp2p.Common.Disk.parent llmp2p.Common.Disk.path_eq llmp2p.Common.Disk.push
    llmp2p.Common.Disk.push_all llmp2p.Common.Disk.read_node llmp2p.Common.Disk.stat
    Index.entry_warnings Index.info_hash_hex_re Index.manifest_hex_re Index.revision_re
    llmp2p.Ref.ends_alnum llmp2p.Ref.is_repo_byte llmp2p.Ref.is_revision_byte llmp2p.Ref.owner_tail
entry_listed = refl

newer_digest : zeros64 ≢ newer.manifest_sha256
newer_digest h = absurd (ground arith)

publish_local_index_conflict_example : publish_local_index environment store disk newer ≡ disk
publish_local_index_conflict_example =
    publish_local_index_conflict environment store disk newer sample_entry newer_valid entry_listed
      newer_digest
