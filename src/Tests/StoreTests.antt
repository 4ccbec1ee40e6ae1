-- ===== src/Tests/StoreTests.antt =====
-- The store: paths and the removal of a model.
use llmp2p.Common.{
  ℕ, Bool, true, false, [], ◌∷◌, ◌++◌, Option, none, some, ok, err, ◌≡◌, ◌≢◌, refl, arith,
  if◌then◌else◌,
}
use llmp2p.Common.Bytes.{Bytes, codes, equal, cut}
use llmp2p.Common.Disk.{FilePath, Disk, file, dir, lookup, is_above, stat}
use llmp2p.Ref.{owner_re, repo_re}
use llmp2p.Common.Disk.Laws.{IsPlain}
use llmp2p.Store.{Store, model_dir, store_dir, torrent_path, is_hex, models}
use llmp2p.Store.Paths.{IsModelId, model_dir-injective}
use llmp2p.Store.Remove.{IndexCodec, remove_model, is_not_exist}
use llmp2p.Store.Remove.Laws.{lookup-remove_model, remove_dotdot_wipes}
use llmp2p.Tests.Samples.{zeros40, sample_codec}

abbrev store : Store
store = record { root = codes "r" ∷ [] }

abbrev model_path : FilePath
model_path = codes "r" ∷ codes "store" ∷ codes "o" ∷ codes "m" ∷ []

abbrev disk : Disk
disk = record {
  nodes =
      (codes "r" ∷ [], dir)
      ∷ (codes "r" ∷ codes "store" ∷ [], dir)
      ∷ (codes "r" ∷ codes "store" ∷ codes "o" ∷ [], dir)
      ∷ (model_path, dir)
      ∷ (model_path ++ codes "f" ∷ [], file (codes "abc"))
      ∷ (codes "r" ∷ codes "store" ∷ codes "o" ∷ codes "k" ∷ [], dir)
      ∷ [];
  refuses = λ p. false;
}

abbrev no_index : IndexCodec
no_index = record { encode = λ i. none; decode = λ b. none }

models_works : models disk store ≡ ok (codes "o/k" ∷ codes "o/m" ∷ [])
unfolding models llmp2p.Common.Disk.read_dir store_dir llmp2p.Common.Disk.join_path
    llmp2p.Store.models_of llmp2p.Store.repo_ids
models_works = refl

dir_works : model_dir store (codes "o/m") ≡ ok model_path
unfolding model_dir llmp2p.Ref.valid_model_id cut llmp2p.Common.Bytes.contains_byte owner_re
    llmp2p.Common.Bytes.is_alnum repo_re llmp2p.Common.Bytes.class_between llmp2p.Ref.is_repo_byte
    llmp2p.Common.Disk.join_path llmp2p.Store.owner_and_repo store_dir
dir_works = refl

dir_exists : is_not_exist (stat disk model_path) ≡ false
unfolding stat
dir_exists = refl

remove_works : (remove_model sample_codec no_index store disk (codes "o/m")).error ≡ none
unfolding remove_model llmp2p.Ref.valid_model_id cut llmp2p.Common.Bytes.contains_byte owner_re
    llmp2p.Common.Bytes.is_alnum repo_re llmp2p.Common.Bytes.class_between llmp2p.Ref.is_repo_byte
    model_dir stat llmp2p.Common.Disk.join_path llmp2p.Store.owner_and_repo store_dir
    llmp2p.Store.Remove.remove_files llmp2p.Common.Disk.remove_all
    llmp2p.Store.Remove.remove_artifacts llmp2p.Store.Remove.stored_manifest
    llmp2p.Store.model_manifest_file llmp2p.Manifest.Codec.load llmp2p.Common.Disk.read_file
remove_works = refl

torrent_works :
    torrent_path store zeros40
    ≡ ok (codes "r" ∷ codes "torrents" ∷ (zeros40 ++ codes ".torrent") ∷ [])
unfolding torrent_path is_hex llmp2p.Common.Disk.join_path llmp2p.Store.torrents_dir
torrent_works = refl

owner_matches : owner_re (codes "o") ≡ true
unfolding owner_re llmp2p.Common.Bytes.is_alnum
owner_matches = refl

store_exists : is_not_exist (stat disk (store_dir store)) ≡ false
unfolding stat store_dir llmp2p.Common.Disk.join_path
store_exists = refl

id : IsModelId (codes "o/m") (codes "o") (codes "m")
unfolding cut owner_re repo_re llmp2p.Common.Bytes.is_alnum llmp2p.Common.Bytes.class_between
    llmp2p.Ref.is_repo_byte
id = record { is_cut = refl; owner_matches = refl; repo_matches = refl }

plain : IsPlain (codes "m")
plain = ground arith

model_dir-injective_example : codes "o/m" ≡ codes "o/m"
model_dir-injective_example =
    model_dir-injective store (codes "o/m") (codes "o/m") (codes "o") (codes "o") (codes "m")
      (codes "m") id id plain plain dir_works dir_works

lookup-remove_model_example :
    lookup
      (model_path ++ codes "f" ∷ [])
      (remove_model sample_codec no_index store disk (codes "o/m")).disk.nodes
    ≡ (if is_above model_path (model_path ++ codes "f" ∷ [])
        then none
        else lookup (model_path ++ codes "f" ∷ []) disk.nodes)
lookup-remove_model_example =
    lookup-remove_model sample_codec no_index store disk (codes "o/m") model_path
      (model_path ++ codes "f" ∷ []) (codes "o" ∷ codes "m" ∷ codes "f" ∷ []) dir_works remove_works
      refl

remove_dotdot_wipes_example :
    ((remove_model sample_codec no_index store disk (codes "o/..")).error ≡ none)
    × ((t : FilePath)
        → lookup
            (codes "r" ∷ codes "store" ∷ t)
            (remove_model sample_codec no_index store disk (codes "o/..")).disk.nodes
          ≡ none)
remove_dotdot_wipes_example =
    remove_dotdot_wipes sample_codec no_index store disk (codes "o") owner_matches store_exists refl
