-- ===== src/Tests/ManifestTests.antt =====
-- Manifests: validation, encoding, verification and creation.
use llmp2p.Common.{ℕ, false, [], ◌∷◌, ◌++◌, none, some, ok, err, ◌≡◌, ◌≢◌, ◌↔◌, refl, arith, All}
use llmp2p.Common.Int.{pos}
use llmp2p.Common.Bytes.{Bytes, codes, split}
use llmp2p.Common.Disk.{file, FilePath, Disk, join_path, read_file}
use llmp2p.Manifest.{
  File, Manifest, validate, validate_content, validate_manifest_path, sum_sizes, has_drive,
  has_control, info_re, sha256_re, invalid_segment, too_long, absolute, not_sorted, bad_info_hash,
  bad_path,
}
use llmp2p.Manifest.Codec.{IsText, load, save, parse, parse-validate, load-save}
use llmp2p.Manifest.Verify.{
  HasContent, verify_dir, verify_dir_iff, wrong_size, wrong_digest, stat_failed,
}
use llmp2p.Manifest.Create.{torrent_name, create}
use llmp2p.Manifest.Create.Laws.{create-verify_dir, create_same_swarm, SameContent}
use llmp2p.Tests.Samples.{
  zeros40, zeros64, sample_file, sample_manifest, data_root, sample_disk, zero_sum, sample_torrents,
  sample_torrents-IsLawful, sample_codec, sample_codec-IsLawful,
}

sample_valid : validate sample_manifest ≡ none
unfolding validate validate_content llmp2p.Common.Bytes.equal llmp2p.Common.Bytes.is_empty
    llmp2p.Manifest.is_nil llmp2p.Manifest.check_files llmp2p.Manifest.check_file
    validate_manifest_path llmp2p.Common.Bytes.has_prefix llmp2p.Common.Bytes.contains_byte
    has_drive has_control llmp2p.Manifest.check_segments split sha256_re
    llmp2p.Common.Bytes.class_between llmp2p.Common.Bytes.is_hex_lower llmp2p.Manifest.is_unsorted
    llmp2p.Common.Bytes.all_bytes llmp2p.Common.Bytes.cons_head llmp2p.Common.Bytes.is_digit
    llmp2p.Common.Bytes.less info_re llmp2p.Manifest.is_drive_letter
sample_valid = refl

bad_manifests :
    (validate (record sample_manifest { info_hash = codes "xyz" })
      ≡ some (bad_info_hash (codes "xyz")))
    × (validate (record sample_manifest { files = sample_file ∷ sample_file ∷ [] })
        ≡ some (not_sorted (codes "a/b")))
unfolding validate validate_content llmp2p.Common.Bytes.equal llmp2p.Common.Bytes.is_empty
    llmp2p.Manifest.is_nil llmp2p.Manifest.check_files llmp2p.Manifest.check_file
    validate_manifest_path llmp2p.Common.Bytes.has_prefix llmp2p.Common.Bytes.contains_byte
    has_drive has_control llmp2p.Manifest.check_segments split sha256_re
    llmp2p.Common.Bytes.class_between llmp2p.Common.Bytes.is_hex_lower llmp2p.Manifest.is_unsorted
    llmp2p.Common.Bytes.all_bytes llmp2p.Common.Bytes.cons_head llmp2p.Common.Bytes.is_digit
    llmp2p.Common.Bytes.less info_re llmp2p.Manifest.is_drive_letter
bad_manifests = (refl, refl)

bad_paths :
    (validate_manifest_path (codes "/a") ≡ some absolute)
    × (validate_manifest_path (codes "a/../b") ≡ some (invalid_segment (codes "..")))
    × (validate_manifest_path (codes "a//b") ≡ some (invalid_segment []))
unfolding validate_manifest_path llmp2p.Common.Bytes.has_prefix llmp2p.Common.Bytes.contains_byte
    has_drive has_control llmp2p.Manifest.check_segments split
bad_paths = (refl, refl, refl)

verify_errors :
    (verify_dir zero_sum sample_disk data_root
        (record sample_manifest { files = record sample_file { size = pos 4 } ∷ [] })
      ≡ some (wrong_size (codes "a/b") (pos 3)))
    × (verify_dir zero_sum sample_disk data_root
          (record sample_manifest { files = record sample_file { sha256 = [] } ∷ [] })
        ≡ some (wrong_digest (codes "a/b") zeros64))
unfolding verify_dir llmp2p.Manifest.Verify.verify_file llmp2p.Common.Disk.stat join_path
    llmp2p.Manifest.Verify.check_node llmp2p.Manifest.Verify.node_size
    llmp2p.Manifest.Verify.hash_file read_file llmp2p.Common.Bytes.Hex.hex_encode
verify_errors = (refl, refl)

path_ok : validate_manifest_path (codes "a/b") ≡ none
unfolding validate_manifest_path llmp2p.Common.Bytes.has_prefix llmp2p.Common.Bytes.contains_byte
    has_drive has_control llmp2p.Manifest.check_segments split
path_ok = refl

sample-IsText : IsText sample_manifest
unfolding llmp2p.Common.Bytes.all_bytes
sample-IsText = record {
  schema_text = refl;
  model_text = refl;
  revision_text = refl;
  info_hash_text = refl;
  files_text = ((refl, refl), tt);
}

abbrev manifest_file : FilePath
manifest_file = codes "data" ∷ codes "m.json" ∷ []

abbrev disk_with_manifest : Disk
disk_with_manifest = elim (save sample_codec sample_disk manifest_file sample_manifest) [
  | err e ↦ sample_disk
  | ok d ↦ d
]

save_works : save sample_codec sample_disk manifest_file sample_manifest ≡ ok disk_with_manifest
unfolding save llmp2p.Manifest.Codec.bytes llmp2p.Tests.Samples.is_sample llmp2p.Common.Bytes.equal
    llmp2p.Tests.Samples.is_sample_files llmp2p.Manifest.Codec.save_bytes
    llmp2p.Common.Disk.mkdir_all llmp2p.Common.Disk.parent llmp2p.Common.Disk.lookup
    llmp2p.Common.Disk.write_file
save_works = refl

load-save_example : load sample_codec disk_with_manifest manifest_file ≡ ok sample_manifest
load-save_example =
    load-save sample_codec sample_codec-IsLawful sample_manifest sample_valid sample-IsText
      sample_disk disk_with_manifest manifest_file save_works

parse_works : parse sample_codec [] ≡ ok sample_manifest
unfolding parse validate validate_content llmp2p.Common.Bytes.equal llmp2p.Common.Bytes.is_empty
    llmp2p.Manifest.is_nil llmp2p.Manifest.check_files llmp2p.Manifest.check_file
    validate_manifest_path llmp2p.Common.Bytes.has_prefix llmp2p.Common.Bytes.contains_byte
    has_drive has_control llmp2p.Manifest.check_segments split sha256_re
    llmp2p.Common.Bytes.class_between llmp2p.Common.Bytes.is_hex_lower llmp2p.Common.Bytes.all_bytes
    llmp2p.Common.Bytes.cons_head llmp2p.Common.Bytes.is_digit llmp2p.Common.Bytes.less info_re
    llmp2p.Manifest.is_drive_letter llmp2p.Manifest.is_unsorted
parse_works = refl

verify_dir_iff_example :
    (verify_dir zero_sum sample_disk data_root sample_manifest ≡ none)
    ↔ All (HasContent zero_sum sample_disk data_root) (sample_file ∷ [])
verify_dir_iff_example = verify_dir_iff zero_sum sample_disk data_root sample_manifest

abbrev entry : File
entry = record { path = codes "a/b"; size = pos 3; sha256 = [] }

create_works :
    create zero_sum sample_torrents 7
      (codes "org/repo")
      (codes "main")
      (entry ∷ [])
      sample_disk
      data_root
    ≡ ok sample_manifest
unfolding create llmp2p.Manifest.Create.hash_entries llmp2p.Manifest.Create.hash_entry
    validate_manifest_path llmp2p.Common.Bytes.has_prefix llmp2p.Common.Bytes.contains_byte
    has_drive has_control llmp2p.Manifest.check_segments split llmp2p.Common.Disk.stat join_path
    llmp2p.Manifest.Verify.node_size llmp2p.Manifest.Verify.hash_file read_file
    llmp2p.Manifest.Create.build_info validate_content llmp2p.Common.Bytes.is_empty
    llmp2p.Common.Bytes.Hex.hex_digit llmp2p.Common.Bytes.Hex.hex_encode
    llmp2p.Common.Bytes.all_bytes llmp2p.Common.Bytes.class_between llmp2p.Common.Bytes.cons_head
    llmp2p.Common.Bytes.cut llmp2p.Common.Bytes.cut_cons llmp2p.Common.Bytes.equal
    llmp2p.Common.Bytes.is_digit llmp2p.Common.Bytes.is_hex_lower llmp2p.Common.Bytes.less
    llmp2p.Common.Disk.lookup llmp2p.Common.Disk.parent llmp2p.Common.Disk.path_eq
    llmp2p.Common.Disk.push llmp2p.Common.Disk.push_all llmp2p.Common.Disk.read_node
    llmp2p.Manifest.Create.check_pieces llmp2p.Manifest.Create.file_info
    llmp2p.Manifest.Create.info_hash_of llmp2p.Manifest.Create.open_files
    llmp2p.Manifest.Create.slash_segments llmp2p.Manifest.Create.torrent_name
    llmp2p.Manifest.check_file llmp2p.Manifest.check_files llmp2p.Manifest.is_drive_letter
    llmp2p.Manifest.is_nil llmp2p.Manifest.is_unsorted sha256_re
create_works = refl

create-verify_dir_example : verify_dir zero_sum sample_disk data_root sample_manifest ≡ none
create-verify_dir_example =
    create-verify_dir zero_sum sample_torrents 7 (codes "org/repo") (codes "main") (entry ∷ [])
      sample_disk data_root create_works

abbrev other_disk : Disk
other_disk = record {
  nodes = (codes "b" ∷ codes "a" ∷ codes "b" ∷ [], file (codes "abc")) ∷ [];
  refuses = λ p. false;
}

create_elsewhere :
    create zero_sum sample_torrents 9
      (codes "me/repo")
      (codes "dev")
      (entry ∷ [])
      other_disk
      (codes "b" ∷ [])
    ≡ ok
        (record sample_manifest { model = codes "me/repo"; revision = codes "dev"; created_at = 9 })
unfolding create llmp2p.Manifest.Create.hash_entries llmp2p.Manifest.Create.hash_entry
    validate_manifest_path llmp2p.Common.Bytes.has_prefix llmp2p.Common.Bytes.contains_byte
    has_drive has_control llmp2p.Manifest.check_segments split llmp2p.Common.Disk.stat join_path
    llmp2p.Manifest.Verify.node_size llmp2p.Manifest.Verify.hash_file read_file
    llmp2p.Manifest.Create.build_info validate_content llmp2p.Common.Bytes.is_empty
    llmp2p.Common.Bytes.Hex.hex_digit llmp2p.Common.Bytes.Hex.hex_encode
    llmp2p.Common.Bytes.all_bytes llmp2p.Common.Bytes.class_between llmp2p.Common.Bytes.cons_head
    llmp2p.Common.Bytes.cut llmp2p.Common.Bytes.cut_cons llmp2p.Common.Bytes.equal
    llmp2p.Common.Bytes.is_digit llmp2p.Common.Bytes.is_hex_lower llmp2p.Common.Bytes.less
    llmp2p.Common.Disk.lookup llmp2p.Common.Disk.parent llmp2p.Common.Disk.path_eq
    llmp2p.Common.Disk.push llmp2p.Common.Disk.push_all llmp2p.Common.Disk.read_node
    llmp2p.Manifest.Create.check_pieces llmp2p.Manifest.Create.file_info
    llmp2p.Manifest.Create.info_hash_of llmp2p.Manifest.Create.open_files
    llmp2p.Manifest.Create.slash_segments torrent_name llmp2p.Manifest.check_file
    llmp2p.Manifest.check_files llmp2p.Manifest.is_drive_letter llmp2p.Manifest.is_nil
    llmp2p.Manifest.is_unsorted sha256_re
create_elsewhere = refl

same_name : torrent_name (codes "org/repo") ≡ torrent_name (codes "me/repo")
unfolding torrent_name llmp2p.Common.Bytes.cut
same_name = refl

same_content :
    SameContent zero_sum sample_torrents sample_disk data_root other_disk
      (codes "b" ∷ [])
      (entry ∷ [])
unfolding read_file join_path
same_content = (refl, tt)

create_same_swarm_example : (sample_file ∷ [] ≡ sample_file ∷ []) × (zeros40 ≡ zeros40)
create_same_swarm_example =
    create_same_swarm zero_sum sample_torrents 7 9 (codes "org/repo") (codes "me/repo")
      (codes "main") (codes "dev") (entry ∷ []) sample_disk other_disk data_root (codes "b" ∷ [])
      same_name same_content create_works create_elsewhere
