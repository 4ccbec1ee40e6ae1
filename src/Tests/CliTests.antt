-- ===== src/Tests/CliTests.antt =====
-- The commands: on a stored model, with the daemon, and with keys.
use mathlib.Core.List.{Perm}
use mathlib.Core.List.Perm
use llmp2p.Common.{
  ℕ, ◌+◌, ◌-◌, Bool, true, false, List, [], ◌∷◌, ◌++◌, map, replicate, length, Option, none, some,
  Result, ok, err, ◌≡◌, ◌≢◌, ◌↔◌, refl, sym, ap, arith, if◌then◌else◌, not,
}
use llmp2p.Common.Int.{pos}
use llmp2p.Common.Bytes.{Bytes, codes, all_bytes, is_space}
use llmp2p.Common.Disk.{FilePath, Disk, Node, file, dir, read_file, path_eq}
use llmp2p.Ref.{Ref, parse}
use llmp2p.Manifest.{Manifest}
use llmp2p.Manifest.Codec.{LoadError}
use llmp2p.Store.{Store, open_store}
use llmp2p.Store.Remove.{IndexCodec, Summary}
use llmp2p.Engine.{EngineError}
use llmp2p.Ollama.{Visit, seen, default_name, find_gguf}
use llmp2p.Ollama.Names.{IsName, default_name-IsName}
use llmp2p.Ollama.Laws.{Only, find_gguf_iff}
use llmp2p.Daemon.Seeders.{Seeder, Target, targets, has_engine, start_seeders}
use llmp2p.Daemon.Seeders.Order.{has_owner, torrents_for}
use llmp2p.Daemon.Seeders.Laws.{AreDistinct, torrents_at, start_seeders_lem}
use llmp2p.Cli.{CliError, not_in_store}
use llmp2p.Cli.Keys.{KeyLibrary, load_or_create}
use llmp2p.Cli.Keys.Laws.{IsLawful, load_or_create_again}
use llmp2p.Cli.Models.{VerifyReport, confirms, verify_command, verify_in, remove_in}
use llmp2p.Cli.Models.Intact.{IsIntact, verify_command_iff}
use llmp2p.Cli.Models.Laws.{remove_in-verify_in}
use llmp2p.Tests.Samples.{zeros40, zeros64, sample_codec}

abbrev root : FilePath
root = codes "r" ∷ []

abbrev store : Store
store = record { root = root }

abbrev model_path : FilePath
model_path = codes "r" ∷ codes "store" ∷ codes "org" ∷ codes "repo" ∷ []

-- the store after a pull of the file `a/b`
abbrev disk : Disk
disk = record {
  nodes =
      (root, dir)
      ∷ (root ++ codes "manifests" ∷ [], dir)
      ∷ (root ++ codes "torrents" ∷ [], dir)
      ∷ (root ++ codes "torrents" ∷ (zeros40 ++ codes ".torrent") ∷ [], file (codes "t"))
      ∷ (root ++ codes "store" ∷ [], dir)
      ∷ (root ++ codes "store" ∷ codes "org" ∷ [], dir)
      ∷ (model_path, dir)
      ∷ (model_path ++ codes ".llmp2p-manifest.json" ∷ [], file [])
      ∷ (model_path ++ codes "a" ∷ [], dir)
      ∷ (model_path ++ codes "a" ∷ codes "b" ∷ [], file (codes "abc"))
      ∷ [];
  refuses = λ p. false;
}

abbrev argument : Bytes
argument = codes "hf:org/repo"

verify_works : (verify_command sample_codec root false argument disk).1 ≡ none
unfolding verify_command llmp2p.Cli.Models.whole_model parse llmp2p.Ref.parse_body
    llmp2p.Common.Bytes.cut llmp2p.Ref.cut_or llmp2p.Ref.validate llmp2p.Common.Bytes.is_alnum
    llmp2p.Ref.is_owner_byte llmp2p.Common.Bytes.class_between llmp2p.Ref.is_repo_byte
    llmp2p.Ref.is_revision_byte open_store llmp2p.Common.Disk.mkdir_all llmp2p.Store.store_dir
    llmp2p.Common.Disk.join_path llmp2p.Common.Disk.lookup llmp2p.Store.manifests_dir
    llmp2p.Store.torrents_dir verify_in llmp2p.Cli.load_model_manifest
    llmp2p.Store.model_manifest_file llmp2p.Store.model_dir llmp2p.Ref.valid_model_id
    llmp2p.Ref.ref_id llmp2p.Common.Bytes.contains_byte llmp2p.Manifest.Codec.load read_file
    llmp2p.Store.owner_and_repo llmp2p.Manifest.Codec.parse llmp2p.Manifest.validate
    llmp2p.Manifest.validate_content llmp2p.Manifest.is_nil llmp2p.Manifest.check_files
    llmp2p.Cli.Models.info_of llmp2p.Cli.Models.report llmp2p.Common.Bytes.Hex.hex_digit
    llmp2p.Common.Bytes.Hex.hex_encode all_bytes llmp2p.Common.Bytes.cons_head
    llmp2p.Common.Bytes.contains_pair llmp2p.Common.Bytes.cut_cons llmp2p.Common.Bytes.cut_prefix
    llmp2p.Common.Bytes.equal llmp2p.Common.Bytes.has_prefix llmp2p.Common.Bytes.is_digit
    llmp2p.Common.Bytes.is_empty llmp2p.Common.Bytes.is_hex_lower llmp2p.Common.Bytes.is_lower
    llmp2p.Common.Bytes.is_upper llmp2p.Common.Bytes.less llmp2p.Common.Bytes.split
    llmp2p.Common.Disk.mkdir_below llmp2p.Common.Disk.parent path_eq llmp2p.Common.Disk.push
    llmp2p.Common.Disk.push_all llmp2p.Common.Disk.put_node llmp2p.Common.Disk.read_node
    llmp2p.Common.Disk.stat llmp2p.Common.Int.add64 llmp2p.Common.Int.bits64
    llmp2p.Common.Int.signed64 llmp2p.Manifest.Verify.check_digest llmp2p.Manifest.Verify.check_node
    llmp2p.Manifest.Verify.hash_file llmp2p.Manifest.Verify.node_size
    llmp2p.Manifest.Verify.verify_dir llmp2p.Manifest.Verify.verify_file
    llmp2p.Manifest.Verify.verify_files llmp2p.Manifest.check_file llmp2p.Manifest.check_segments
    llmp2p.Manifest.has_control llmp2p.Manifest.has_drive llmp2p.Manifest.info_re
    llmp2p.Manifest.is_drive_letter llmp2p.Manifest.is_unsorted llmp2p.Manifest.sha256_re
    llmp2p.Manifest.sum_sizes llmp2p.Manifest.validate_manifest_path llmp2p.Ref.ends_alnum
    llmp2p.Ref.is_dots llmp2p.Ref.is_segment_byte llmp2p.Ref.owner_re llmp2p.Ref.owner_tail
    llmp2p.Ref.parse_rest llmp2p.Ref.path_seg_re llmp2p.Ref.repo_re llmp2p.Ref.rev_re
    llmp2p.Ref.strip_scheme llmp2p.Ref.validate_path llmp2p.Ref.validate_segments
verify_works = refl

verify_command_iff_example :
    ((verify_command sample_codec root false argument disk).1 ≡ none)
    ↔ IsIntact sample_codec root argument disk
verify_command_iff_example = verify_command_iff sample_codec root false argument disk

abbrev no_index : IndexCodec
no_index = record { encode = λ i. none; decode = λ b. none }

abbrev reference : Ref
reference = record { owner = codes "org"; repo = codes "repo"; revision = codes "main"; path = [] }

-- any letter y of the answer confirms
nay_confirms : confirms (codes "nay", false) ≡ true
unfolding confirms llmp2p.Common.Bytes.contains_byte llmp2p.Common.Bytes.to_lower
    llmp2p.Common.Bytes.trim_by is_space
nay_confirms = refl

abbrev removal : Disk × Result CliError Summary
removal = remove_in sample_codec root no_index false false (codes "y", false) reference store disk

abbrev summary_of : Result CliError Summary → Summary
summary_of (ok s) = s
summary_of (err e) = record {
  model = [];
  files = 0;
  size = pos 0;
  dir_removed = false;
  torrent_removed = false;
  manifest_removed = false;
  index_entry_removed = false;
}

removal_works : removal ≡ (removal.0, ok (summary_of removal.1))
unfolding remove_in llmp2p.Cli.Models.may_remove llmp2p.Cli.load_model_manifest
    llmp2p.Store.model_manifest_file llmp2p.Store.model_dir llmp2p.Ref.valid_model_id
    llmp2p.Common.Bytes.cut llmp2p.Ref.ref_id llmp2p.Common.Bytes.contains_byte llmp2p.Ref.owner_re
    llmp2p.Common.Bytes.is_alnum llmp2p.Ref.is_owner_byte llmp2p.Ref.repo_re
    llmp2p.Common.Bytes.class_between llmp2p.Ref.is_repo_byte llmp2p.Manifest.Codec.load read_file
    llmp2p.Common.Disk.join_path llmp2p.Store.owner_and_repo llmp2p.Store.store_dir
    llmp2p.Manifest.Codec.parse llmp2p.Manifest.validate llmp2p.Manifest.validate_content
    llmp2p.Common.Bytes.is_empty llmp2p.Manifest.is_nil llmp2p.Manifest.check_files
    llmp2p.Manifest.check_file llmp2p.Manifest.validate_manifest_path llmp2p.Common.Bytes.has_prefix
    llmp2p.Manifest.has_drive llmp2p.Manifest.has_control llmp2p.Manifest.check_segments
    llmp2p.Manifest.sha256_re llmp2p.Common.Bytes.is_hex_lower llmp2p.Manifest.is_unsorted
    llmp2p.Manifest.info_re confirms llmp2p.Common.Bytes.to_lower llmp2p.Common.Bytes.trim_by
    is_space llmp2p.Cli.Models.removal_result llmp2p.Store.Remove.remove_model
    llmp2p.Store.Remove.remove_files llmp2p.Common.Disk.remove_all
    llmp2p.Store.Remove.remove_artifacts llmp2p.Store.Remove.stored_manifest
    llmp2p.Store.Remove.try_remove_at llmp2p.Store.Remove.manifest_copy llmp2p.Manifest.Codec.digest
    llmp2p.Tests.Samples.is_sample llmp2p.Common.Bytes.Hex.hex_digit
    llmp2p.Common.Bytes.Hex.hex_encode all_bytes llmp2p.Common.Bytes.cons_head
    llmp2p.Common.Bytes.contains_pair llmp2p.Common.Bytes.cut_cons llmp2p.Common.Bytes.equal
    llmp2p.Common.Bytes.is_digit llmp2p.Common.Bytes.is_lower llmp2p.Common.Bytes.is_upper
    llmp2p.Common.Bytes.less llmp2p.Common.Bytes.lower_byte llmp2p.Common.Bytes.split
    llmp2p.Common.Bytes.trim_left_by llmp2p.Common.Bytes.trim_right_by llmp2p.Common.Dict.delete
    llmp2p.Common.Dict.find llmp2p.Common.Disk.has_child llmp2p.Common.Disk.is_above
    llmp2p.Common.Disk.is_dir_at llmp2p.Common.Disk.lookup llmp2p.Common.Disk.mkdir_all
    llmp2p.Common.Disk.mkdir_below llmp2p.Common.Disk.parent path_eq llmp2p.Common.Disk.push
    llmp2p.Common.Disk.push_all llmp2p.Common.Disk.put_node llmp2p.Common.Disk.read_node
    llmp2p.Common.Disk.remove llmp2p.Common.Disk.stat llmp2p.Common.Disk.sweep
    llmp2p.Common.Disk.write_file llmp2p.Common.Int.add64 llmp2p.Common.Int.bits64
    llmp2p.Common.Int.signed64 llmp2p.Index.check_entry llmp2p.Index.entry_warnings
    llmp2p.Index.info_hash_hex_re llmp2p.Index.keep_valid llmp2p.Index.manifest_hex_re
    llmp2p.Index.parse llmp2p.Index.remove llmp2p.Index.revision_re llmp2p.Index.validate
    llmp2p.Manifest.Codec.bytes llmp2p.Manifest.is_drive_letter llmp2p.Manifest.sum_sizes
    llmp2p.Ref.ends_alnum llmp2p.Ref.is_revision_byte llmp2p.Ref.owner_tail
    llmp2p.Store.Remove.drop_entry llmp2p.Store.Remove.remove_index_entry
    llmp2p.Store.Remove.save_index llmp2p.Store.Remove.try_remove llmp2p.Store.is_hex
    llmp2p.Store.is_hex_digit llmp2p.Store.local_index_path llmp2p.Store.manifest_path
    llmp2p.Store.manifests_dir llmp2p.Store.torrent_path llmp2p.Store.torrents_dir
    llmp2p.Tests.Samples.is_sample_files
removal_works = refl

remove_in-verify_in_example :
    (e : LoadError) × (verify_in sample_codec root true reference store removal.0
      ≡ (none, some (not_in_store (codes "org/repo") e)))
unfolding llmp2p.Ref.ref_id
remove_in-verify_in_example =
    remove_in-verify_in sample_codec root no_index false false true (codes "y", false) reference
      store disk removal.0 removal_works

abbrev starts : FilePath → Option EngineError
starts p = none

abbrev seeds : FilePath → FilePath → Option EngineError
seeds p t = none

abbrev org_seeder : Seeder
org_seeder = record {
  data_dir = root ++ codes "store" ∷ codes "org" ∷ [];
  torrents = (root ++ codes "torrents" ∷ (zeros40 ++ codes ".torrent") ∷ []) ∷ [];
}

abbrev in_order : List Target → List Target
in_order ts = ts

seeders_work : start_seeders starts seeds in_order sample_codec store disk ≡ ok (org_seeder ∷ [])
unfolding start_seeders llmp2p.Daemon.Seeders.start_loop targets llmp2p.Common.Disk.read_dir
    llmp2p.Store.store_dir llmp2p.Common.Disk.join_path llmp2p.Daemon.Seeders.owner_targets
    llmp2p.Daemon.Seeders.repo_targets llmp2p.Daemon.Seeders.target_of llmp2p.Manifest.Codec.load
    read_file llmp2p.Manifest.Codec.parse llmp2p.Manifest.validate llmp2p.Manifest.validate_content
    llmp2p.Common.Bytes.is_empty llmp2p.Manifest.is_nil llmp2p.Manifest.check_files
    llmp2p.Manifest.check_file all_bytes llmp2p.Common.Bytes.class_between
    llmp2p.Common.Bytes.cons_head llmp2p.Common.Bytes.contains_byte llmp2p.Common.Bytes.equal
    llmp2p.Common.Bytes.has_prefix llmp2p.Common.Bytes.is_digit llmp2p.Common.Bytes.is_hex_lower
    llmp2p.Common.Bytes.less llmp2p.Common.Bytes.split llmp2p.Common.Disk.child_of
    llmp2p.Common.Disk.entries_below llmp2p.Common.Disk.insert_entry llmp2p.Common.Disk.is_dir_at
    llmp2p.Common.Disk.lookup llmp2p.Common.Disk.parent path_eq llmp2p.Common.Disk.push
    llmp2p.Common.Disk.push_all llmp2p.Common.Disk.read_node llmp2p.Common.Disk.stat
    llmp2p.Daemon.Seeders.add_torrent has_engine llmp2p.Daemon.Seeders.seed_target
    llmp2p.Daemon.Seeders.with_engine llmp2p.Manifest.check_segments llmp2p.Manifest.has_control
    llmp2p.Manifest.has_drive llmp2p.Manifest.info_re llmp2p.Manifest.is_drive_letter
    llmp2p.Manifest.is_unsorted llmp2p.Manifest.sha256_re llmp2p.Manifest.validate_manifest_path
    llmp2p.Store.is_hex llmp2p.Store.is_hex_digit llmp2p.Store.torrent_path
    llmp2p.Store.torrents_dir
seeders_work = refl

start_seeders_lem_example :
    AreDistinct (org_seeder ∷ [])
    × ((p : FilePath)
        → has_engine p (org_seeder ∷ []) ≡ has_owner p (targets sample_codec store disk))
    × ((p : FilePath)
        → Perm (torrents_at p (org_seeder ∷ [])) (torrents_for p (targets sample_codec store disk)))
start_seeders_lem_example =
    start_seeders_lem starts seeds in_order sample_codec store disk (org_seeder ∷ []) Perm.rfl
      seeders_work

name_works : default_name (codes "Org/My  Model!") ≡ codes "my-model"
unfolding default_name llmp2p.Ollama.or_fallback llmp2p.Common.Bytes.trim_by
    llmp2p.Ollama.replace_runs llmp2p.Common.Bytes.to_lower llmp2p.Ollama.repo_of
    llmp2p.Common.Bytes.cut llmp2p.Ollama.is_name_byte llmp2p.Common.Bytes.is_lower
    llmp2p.Ollama.is_edge llmp2p.Common.Bytes.is_digit llmp2p.Ollama.starts_outside
name_works = refl

default_name-IsName_example :
    IsName (default_name (codes "Org/My  Model!"))
    × (default_name (default_name (codes "Org/My  Model!")) ≡ default_name (codes "Org/My  Model!"))
default_name-IsName_example = default_name-IsName (codes "Org/My  Model!")

abbrev gguf : FilePath
gguf = codes "m" ∷ codes "m-00001-of-00002.GGUF" ∷ []

abbrev visits : List Visit
visits =
    seen (codes "m" ∷ []) true
    ∷ seen (codes "m" ∷ codes "README.md" ∷ []) false
    ∷ seen gguf false
    ∷ []

-- a shard, by its name, but for the case of the extension
find_works : find_gguf visits ≡ ok gguf
unfolding find_gguf llmp2p.Ollama.collect llmp2p.Ollama.choose llmp2p.Ollama.sort_out
    llmp2p.Ollama.is_gguf llmp2p.Common.Bytes.has_suffix llmp2p.Common.Bytes.to_lower
    llmp2p.Ollama.base llmp2p.Ollama.is_shard llmp2p.Ollama.shard_here llmp2p.Ollama.is_text
    llmp2p.Ollama.skip_digits llmp2p.Ollama.skip_digit llmp2p.Ollama.skip
    llmp2p.Common.Bytes.cut_prefix llmp2p.Common.Bytes.is_digit
find_works = refl

find_gguf_iff_example : (find_gguf visits ≡ ok gguf) ↔ Only gguf visits
find_gguf_iff_example = find_gguf_iff visits gguf

-- an encoding that moves every byte behind the space
abbrev shift_up : Bytes → Bytes
shift_up [] = []
shift_up (c ∷ cs) = (c + 33) ∷ shift_up cs

abbrev shift_down : Bytes → Bytes
shift_down [] = []
shift_down (c ∷ cs) = (c - 33) ∷ shift_down cs

abbrev keys : KeyLibrary
keys = record {
  encode = shift_up;
  decode = λ b. some (shift_down b);
  generate = some (replicate 32 7);
  public_key = λ s. s;
}

shift_back : (s : Bytes) → shift_down (shift_up s) ≡ s
shift_back [] = refl
shift_back (c ∷ s) = ground (arith, shift_back s)

shift_plain : (s : Bytes) → all_bytes (λ c. not (is_space c)) (shift_up s) ≡ true
unfolding all_bytes is_space
shift_plain [] = refl
shift_plain (c ∷ s) = ground (arith, shift_plain s)

seed_length : (s : Bytes) → some (replicate 32 7) ≡ some s → length s ≡ 32
seed_length s h = ground arith

keys-IsLawful : IsLawful keys
keys-IsLawful = record {
  decode_encode = λ s. ap some (shift_back s);
  encode_plain = shift_plain;
  seed_length = seed_length;
}

abbrev key_file : FilePath
key_file = root ++ codes "publisher.key" ∷ []

abbrev with_key : Disk
with_key = elim (load_or_create keys key_file disk) [ err e ↦ disk | ok p ↦ p.2 ]

key_works : load_or_create keys key_file disk ≡ ok (replicate 32 7, true, with_key)
unfolding load_or_create read_file llmp2p.Cli.Keys.create_key llmp2p.Common.Disk.write_file
key_works = refl

load_or_create_again_example :
    load_or_create keys key_file with_key ≡ ok (replicate 32 7, false, with_key)
load_or_create_again_example =
    load_or_create_again keys keys-IsLawful key_file disk with_key (replicate 32 7) true key_works
