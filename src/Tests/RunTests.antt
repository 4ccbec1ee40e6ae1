-- ===== src/Tests/RunTests.antt =====
-- Pulls: from the swarm, from the cache and from the Hub.
use llmp2p.Common.{
  ℕ, Bool, true, false, List, [], ◌∷◌, ◌++◌, replicate, Option, none, some, Result, ok, err, ◌≡◌,
  ◌≢◌, refl, arith, inl, inr,
}
use llmp2p.Common.Int.{pos}
use llmp2p.Common.Bytes.{Bytes, codes}
use llmp2p.Common.Disk.{FilePath, Disk, Node, file, dir}
use llmp2p.Ref.{Ref, ref_id}
use llmp2p.Manifest.{Manifest, validate}
use llmp2p.Manifest.Codec.{bytes, load}
use llmp2p.Manifest.Stored.{manifest_in, IsStored, load_verified_iff}
use llmp2p.Store.Home.{home_of}
use llmp2p.Ref as Reference
use llmp2p.Manifest.Verify.{verify_dir}
use llmp2p.Index as Index
use llmp2p.Index.{Entry, Index, get}
use llmp2p.Index.Fetch.{answered}
use llmp2p.Hf.{FileInfo, RepoInfo}
use llmp2p.Store.{Store, model_dir}
use llmp2p.Pull.{Environment, Pulled, PullError, Sidecar, verify_hex, check_cache, requested}
use llmp2p.Pull.Origins.{fetch_manifest, verify_manifest_signature}
use llmp2p.Pull.Publish.{local_index, publish_local_index, publish}
use llmp2p.Pull.Http.{check_oids, http_manifest}
use llmp2p.Pull.Run.{
  Options, Network, Mode, cache, http, run, run_http, cached_result, pull_p2p, find_manifest,
}
use llmp2p.Pull.Laws.Fallback.{IsDirect, run-IsHttp}
use llmp2p.Hf.Download.{reply}
use llmp2p.Pull.Laws.{run_cached, pull_p2p-verify_dir}
use llmp2p.Tests.Samples.{
  zeros40, zeros64, zero_sum, sample_manifest, sample_file, sample_torrents,
  sample_torrents-IsLawful, sample_codec, sample_entry,
}
use llmp2p.Pull.Swarm.{done}
use llmp2p.Tests.PullTests.{environment, store, model_path, disk, options, network}

-- a file of the repository that is not on the disk
abbrev missing : FileInfo
missing = record { path = codes "c"; size = pos 9; lfs_oid = [] }

abbrev reference : Ref
reference = record {
  owner = codes "org";
  repo = codes "repo";
  revision = codes "main";
  path = codes "c";
}

abbrev resolved : RepoInfo
resolved = record {
  revision = codes "main";
  files = record { path = codes "a/b"; size = pos 3; lfs_oid = [] } ∷ missing ∷ [];
}

reference_valid : Reference.validate reference ≡ none
unfolding Reference.validate llmp2p.Common.Bytes.is_alnum Reference.is_owner_byte
    llmp2p.Common.Bytes.class_between Reference.is_repo_byte Reference.is_revision_byte
    Reference.is_segment_byte
reference_valid = refl

manifest_there :
    load sample_codec disk (manifest_in (home_of store.root reference)) ≡ ok sample_manifest
unfolding load llmp2p.Common.Disk.read_file llmp2p.Common.Disk.join_path llmp2p.Manifest.Codec.parse
    validate llmp2p.Manifest.validate_content llmp2p.Common.Bytes.is_empty llmp2p.Manifest.is_nil
    llmp2p.Manifest.check_files llmp2p.Manifest.check_file llmp2p.Manifest.validate_manifest_path
    llmp2p.Common.Bytes.has_prefix llmp2p.Common.Bytes.contains_byte llmp2p.Manifest.has_drive
    llmp2p.Manifest.has_control llmp2p.Manifest.check_segments llmp2p.Manifest.sha256_re
    llmp2p.Common.Bytes.class_between llmp2p.Common.Bytes.all_bytes llmp2p.Common.Bytes.cons_head
    llmp2p.Common.Bytes.equal llmp2p.Common.Bytes.is_digit llmp2p.Common.Bytes.is_hex_lower
    llmp2p.Common.Bytes.less llmp2p.Common.Bytes.split llmp2p.Common.Disk.lookup
    llmp2p.Common.Disk.parent llmp2p.Common.Disk.path_eq llmp2p.Common.Disk.push
    llmp2p.Common.Disk.push_all llmp2p.Common.Disk.read_node llmp2p.Common.Disk.stat
    llmp2p.Manifest.info_re llmp2p.Manifest.is_drive_letter llmp2p.Manifest.is_unsorted
manifest_there = refl

files_fit : verify_dir zero_sum disk (home_of store.root reference) sample_manifest ≡ none
unfolding verify_dir llmp2p.Manifest.Verify.verify_file llmp2p.Common.Disk.stat
    llmp2p.Common.Disk.join_path llmp2p.Manifest.Verify.check_node llmp2p.Manifest.Verify.node_size
    llmp2p.Manifest.Verify.hash_file llmp2p.Common.Disk.read_file llmp2p.Common.Bytes.Hex.hex_encode
files_fit = refl

stored : IsStored sample_codec disk (home_of store.root reference) sample_manifest
stored =
    (load_verified_iff sample_codec disk (home_of store.root reference) sample_manifest).0
      (manifest_there, files_fit)

run_cached_example :
    (p : Pulled) × (run environment network store options 0 reference (ok resolved) disk
      ≡ (disk, ok (cache, p)))
    × (p.files ≡ 1)
    × (p.info_hash ≡ zeros40)
run_cached_example =
    run_cached environment store network options 0 reference resolved disk sample_manifest
      reference_valid (inr (inr (inl refl))) stored refl

abbrev nothing : Pulled × Disk
nothing = (
  record {
    model = [];
    revision = [];
    files = 0;
    size = pos 0;
    info_hash = [];
    manifest_sha256 = [];
  },
  disk,
)

abbrev pulled : Pulled × Disk
pulled =
    elim (pull_p2p environment network store options 0 (codes "org/repo") [] (codes "main")
      model_path disk).1 [ err e ↦ nothing | ok p ↦ p ]

p2p_works :
    pull_p2p environment network store options 0
      (codes "org/repo")
      []
      (codes "main")
      model_path
      disk
    ≡ (disk, ok pulled)
unfolding pull_p2p find_manifest llmp2p.Pull.Run.find_entry llmp2p.Pull.Run.index_entry
    llmp2p.Index.Fetch.fetch llmp2p.Index.Fetch.fetch_loop llmp2p.Index.Fetch.absorb
    llmp2p.Index.Fetch.ask llmp2p.Index.Fetch.answer Index.parse get llmp2p.Common.Dict.find
    llmp2p.Index.Fetch.merge Index.keep_valid Index.check_entry Index.validate
    llmp2p.Ref.valid_model_id llmp2p.Common.Bytes.cut llmp2p.Common.Bytes.contains_byte
    llmp2p.Ref.owner_re llmp2p.Common.Bytes.is_alnum llmp2p.Ref.is_owner_byte llmp2p.Ref.repo_re
    llmp2p.Common.Bytes.class_between llmp2p.Ref.is_repo_byte Index.info_hash_hex_re
    llmp2p.Common.Bytes.is_hex_lower Index.manifest_hex_re Index.revision_re
    llmp2p.Ref.is_revision_byte llmp2p.Common.Bytes.contains_pair llmp2p.Common.Bytes.equal
    llmp2p.Index.Fetch.add_missing llmp2p.Common.Dict.insert llmp2p.Pull.Run.trusted_manifest
    llmp2p.Common.Bytes.is_empty fetch_manifest llmp2p.Pull.Origins.accept_manifest
    llmp2p.Pull.Origins.body_of llmp2p.Manifest.Codec.parse validate
    llmp2p.Manifest.validate_content llmp2p.Manifest.is_nil llmp2p.Manifest.check_files
    llmp2p.Manifest.check_file llmp2p.Manifest.validate_manifest_path llmp2p.Common.Bytes.has_prefix
    llmp2p.Manifest.has_drive llmp2p.Manifest.has_control llmp2p.Manifest.check_segments
    llmp2p.Common.Bytes.split llmp2p.Manifest.sha256_re llmp2p.Manifest.is_unsorted
    llmp2p.Manifest.info_re llmp2p.Pull.Origins.is_pinned llmp2p.Manifest.Codec.digest
    llmp2p.Tests.Samples.is_sample llmp2p.Tests.Samples.is_sample_files
    llmp2p.Common.Bytes.Hex.hex_encode llmp2p.Pull.Run.check_signature verify_manifest_signature
    llmp2p.Pull.Origins.fetch_sidecar llmp2p.Pull.Origins.check_sidecar verify_hex
    llmp2p.Pull.is_signature llmp2p.Common.Bytes.Hex.hex_decode llmp2p.Pull.Origins.contains
    llmp2p.Pull.Run.accept_swarm verify_dir llmp2p.Manifest.Verify.verify_file
    llmp2p.Common.Disk.stat llmp2p.Common.Disk.join_path llmp2p.Manifest.Verify.check_node
    llmp2p.Manifest.Verify.node_size llmp2p.Manifest.Verify.hash_file llmp2p.Common.Disk.read_file
    publish llmp2p.Pull.Publish.save_manifests llmp2p.Store.manifest_path llmp2p.Store.is_hex
    llmp2p.Manifest.Codec.save llmp2p.Manifest.Codec.save_bytes llmp2p.Common.Disk.mkdir_all
    llmp2p.Store.manifests_dir llmp2p.Common.Disk.write_file llmp2p.Store.model_manifest_file
    model_dir llmp2p.Store.owner_and_repo llmp2p.Store.store_dir llmp2p.Pull.Publish.save_torrent
    llmp2p.Manifest.Create.metainfo_bytes llmp2p.Manifest.Create.build_info
    llmp2p.Manifest.Create.open_files llmp2p.Pull.Announce.sign_manifest
    llmp2p.Pull.Announce.load_key llmp2p.Pull.Announce.key_path llmp2p.Manifest.Create.file_info
    llmp2p.Manifest.Create.check_pieces llmp2p.Manifest.Create.info_hash_of
    llmp2p.Store.torrent_path llmp2p.Store.torrents_dir llmp2p.Pull.Run.run_swarm
    llmp2p.Engine.prepare_magnet llmp2p.Pull.Swarm.is_delivered llmp2p.Pull.Swarm.watch
    llmp2p.Pull.Run.peers_refused llmp2p.Manifest.Create.written
p2p_works = refl

pull_p2p-verify_dir_example :
    (e : Entry) × (m : Manifest) × (find_manifest environment network store options
        (codes "org/repo")
        (codes "main")
      ≡ ok (e, m))
    × (verify_dir zero_sum disk model_path m ≡ none)
    × (publish environment store 0 (codes "org/repo") [] (codes "main") disk model_path m
        ≡ ok pulled)
pull_p2p-verify_dir_example =
    pull_p2p-verify_dir environment store network options 0 (codes "org/repo") [] (codes "main")
      model_path disk disk p2p_works

abbrev published : List FileInfo
published = record { path = codes "a/b"; size = pos 3; lfs_oid = zeros64 } ∷ []

http_works :
    http_manifest environment 7 (codes "org/repo") (codes "main") model_path disk published
    ≡ ok sample_manifest
unfolding http_manifest llmp2p.Manifest.Create.create llmp2p.Manifest.Create.hash_entries
    llmp2p.Manifest.Create.hash_entry llmp2p.Manifest.validate_manifest_path
    llmp2p.Pull.Http.entry_of llmp2p.Common.Bytes.has_prefix llmp2p.Common.Bytes.contains_byte
    llmp2p.Manifest.has_drive llmp2p.Manifest.has_control llmp2p.Manifest.check_segments
    llmp2p.Common.Bytes.split llmp2p.Common.Disk.stat llmp2p.Common.Disk.join_path
    llmp2p.Manifest.Verify.node_size llmp2p.Manifest.Verify.hash_file llmp2p.Common.Disk.read_file
    llmp2p.Manifest.Create.build_info llmp2p.Common.Bytes.Hex.hex_digit
    llmp2p.Common.Bytes.Hex.hex_encode llmp2p.Common.Bytes.all_bytes
    llmp2p.Common.Bytes.class_between llmp2p.Common.Bytes.cons_head llmp2p.Common.Bytes.cut
    llmp2p.Common.Bytes.cut_cons llmp2p.Common.Bytes.equal llmp2p.Common.Bytes.is_digit
    llmp2p.Common.Bytes.is_empty llmp2p.Common.Bytes.is_hex_lower llmp2p.Common.Bytes.less
    llmp2p.Common.Disk.lookup llmp2p.Common.Disk.parent llmp2p.Common.Disk.path_eq
    llmp2p.Common.Disk.push llmp2p.Common.Disk.push_all llmp2p.Common.Disk.read_node
    llmp2p.Manifest.Create.check_pieces llmp2p.Manifest.Create.file_info
    llmp2p.Manifest.Create.info_hash_of llmp2p.Manifest.Create.open_files
    llmp2p.Manifest.Create.slash_segments llmp2p.Manifest.Create.torrent_name
    llmp2p.Manifest.check_file llmp2p.Manifest.check_files llmp2p.Manifest.is_drive_letter
    llmp2p.Manifest.is_nil llmp2p.Manifest.is_unsorted llmp2p.Manifest.sha256_re
    llmp2p.Manifest.validate_content check_oids
http_works = refl

-- the Hub serves the file `a/b`
abbrev hub_network : Network
hub_network = record network { hub = λ f. (λ r. reply 200 (codes "abc") false) ∷ [] }

abbrev private_options : Options
private_options = record options { http_only = true; no_http_fallback = true }

abbrev whole_reference : Ref
whole_reference = record reference { path = [] }

abbrev hub_files : RepoInfo
hub_files = record { revision = codes "main"; files = published }

abbrev empty_disk : Disk
empty_disk = record { nodes = (codes "r" ∷ [], dir) ∷ []; refuses = λ p. false }

abbrev hub_pulled : Pulled
hub_pulled = record {
  model = codes "org/repo";
  revision = codes "main";
  files = 1;
  size = pos 3;
  info_hash = zeros40;
  manifest_sha256 = zeros64;
}

hub_works :
    (run environment hub_network store private_options 7 whole_reference
      (ok hub_files)
      empty_disk).1
    ≡ ok (http, hub_pulled)
unfolding run llmp2p.Pull.Run.run_requested requested model_dir llmp2p.Ref.valid_model_id
    llmp2p.Common.Bytes.cut ref_id llmp2p.Common.Bytes.contains_byte llmp2p.Ref.owner_re
    llmp2p.Common.Bytes.is_alnum llmp2p.Ref.is_owner_byte llmp2p.Ref.repo_re
    llmp2p.Common.Bytes.class_between llmp2p.Ref.is_repo_byte llmp2p.Pull.Run.run_in check_cache
    llmp2p.Store.model_manifest_file llmp2p.Manifest.Codec.load llmp2p.Common.Disk.read_file
    llmp2p.Common.Disk.join_path llmp2p.Store.owner_and_repo llmp2p.Store.store_dir
    llmp2p.Pull.Run.run_uncached run_http llmp2p.Pull.Run.with_mode llmp2p.Pull.Http.pull_http
    llmp2p.Pull.Http.fetch_files llmp2p.Pull.Http.fetch_file llmp2p.Common.Disk.mkdir_all
    llmp2p.Common.Disk.put_node llmp2p.Pull.Http.is_kept llmp2p.Hf.Download.download_file
    llmp2p.Hf.Download.resume_state llmp2p.Hf.Download.part_path llmp2p.Hf.Download.create_part
    llmp2p.Common.Disk.write_file llmp2p.Hf.Download.is_refused llmp2p.Hf.Download.receive
    llmp2p.Hf.Download.copy_body llmp2p.Hf.Download.finish llmp2p.Common.Bytes.is_empty
    llmp2p.Common.Bytes.Hex.hex_encode llmp2p.Common.Disk.rename http_manifest
    llmp2p.Manifest.Create.create llmp2p.Manifest.Create.hash_entries
    llmp2p.Manifest.Create.hash_entry llmp2p.Manifest.validate_manifest_path
    llmp2p.Pull.Http.entry_of llmp2p.Common.Bytes.has_prefix llmp2p.Manifest.has_drive
    llmp2p.Manifest.has_control llmp2p.Manifest.check_segments llmp2p.Manifest.Verify.node_size
    llmp2p.Hf.Download.write_at llmp2p.Manifest.Verify.hash_file llmp2p.Manifest.Create.build_info
    llmp2p.Manifest.validate_content llmp2p.Manifest.is_nil llmp2p.Manifest.check_files
    llmp2p.Manifest.check_file llmp2p.Manifest.sha256_re llmp2p.Common.Bytes.is_hex_lower
    llmp2p.Manifest.is_unsorted llmp2p.Manifest.Create.open_files llmp2p.Manifest.Create.file_info
    llmp2p.Manifest.Create.check_pieces check_oids publish llmp2p.Manifest.Codec.digest
    llmp2p.Tests.Samples.is_sample llmp2p.Manifest.Create.info_hash_of
    llmp2p.Tests.Samples.is_sample_files llmp2p.Pull.Publish.save_manifests
    llmp2p.Store.manifest_path llmp2p.Store.is_hex llmp2p.Manifest.Codec.save
    llmp2p.Manifest.Codec.save_bytes llmp2p.Store.manifests_dir llmp2p.Pull.Publish.save_torrent
    llmp2p.Manifest.Create.metainfo_bytes llmp2p.Pull.Announce.sign_manifest
    llmp2p.Pull.Announce.load_key llmp2p.Pull.Announce.key_path llmp2p.Store.torrent_path
    llmp2p.Store.torrents_dir llmp2p.Manifest.sum_sizes llmp2p.Manifest.Create.written
hub_works = refl

run-IsHttp_example : IsDirect environment hub_network store private_options whole_reference
run-IsHttp_example =
    run-IsHttp environment hub_network store private_options 7 whole_reference (ok hub_files)
      empty_disk refl (hub_pulled, hub_works)

abbrev next_revision : RepoInfo
next_revision = record resolved { revision = codes "v2" }

has_path : reference.path ≢ []
has_path h = absurd (ground arith)

stale_cache :
    check_cache sample_codec store disk (ref_id reference) (codes "v2") model_path ≡ ok none
unfolding check_cache llmp2p.Store.model_manifest_file model_dir llmp2p.Ref.valid_model_id
    llmp2p.Common.Bytes.cut ref_id llmp2p.Common.Bytes.contains_byte llmp2p.Ref.owner_re
    llmp2p.Common.Bytes.is_alnum llmp2p.Ref.is_owner_byte llmp2p.Ref.repo_re
    llmp2p.Common.Bytes.class_between llmp2p.Ref.is_repo_byte llmp2p.Manifest.Codec.load
    llmp2p.Common.Disk.read_file llmp2p.Common.Disk.join_path llmp2p.Store.owner_and_repo
    llmp2p.Store.store_dir llmp2p.Common.Bytes.Hex.hex_digit llmp2p.Common.Bytes.Hex.hex_encode
    llmp2p.Common.Bytes.all_bytes llmp2p.Common.Bytes.cons_head llmp2p.Common.Bytes.cut_cons
    llmp2p.Common.Bytes.equal llmp2p.Common.Bytes.has_prefix llmp2p.Common.Bytes.is_digit
    llmp2p.Common.Bytes.is_empty llmp2p.Common.Bytes.is_hex_lower llmp2p.Common.Bytes.is_lower
    llmp2p.Common.Bytes.is_upper llmp2p.Common.Bytes.less llmp2p.Common.Bytes.split
    llmp2p.Common.Disk.lookup llmp2p.Common.Disk.parent llmp2p.Common.Disk.path_eq
    llmp2p.Common.Disk.push llmp2p.Common.Disk.push_all llmp2p.Common.Disk.read_node
    llmp2p.Common.Disk.stat llmp2p.Manifest.Codec.parse llmp2p.Manifest.Verify.check_digest
    llmp2p.Manifest.Verify.check_node llmp2p.Manifest.Verify.hash_file
    llmp2p.Manifest.Verify.node_size verify_dir llmp2p.Manifest.Verify.verify_file
    llmp2p.Manifest.Verify.verify_files llmp2p.Manifest.check_file llmp2p.Manifest.check_files
    llmp2p.Manifest.check_segments llmp2p.Manifest.has_control llmp2p.Manifest.has_drive
    llmp2p.Manifest.info_re llmp2p.Manifest.is_drive_letter llmp2p.Manifest.is_nil
    llmp2p.Manifest.is_unsorted llmp2p.Manifest.sha256_re validate llmp2p.Manifest.validate_content
    llmp2p.Manifest.validate_manifest_path llmp2p.Pull.check_cached llmp2p.Ref.ends_alnum
    llmp2p.Ref.owner_tail
stale_cache = refl
