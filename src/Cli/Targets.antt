-- ===== src/Cli/Targets.antt =====
-- internal/cli/seed.go and import.go: what a seeder and an import work on.
-- The signals, the ticker and the listing of the swarm are left out.
use llmp2p.Common.{
  ◌-◌, Bool, not, ◌&&◌, List, [], ◌∷◌, Option, none, some, Result, ok, err, ◌>>=◌, wrap_err,
  if◌then◌else◌, ◌==◌, length, take,
}
use llmp2p.Common.Bytes.{Bytes, codes, contains_byte, equal, has_suffix, is_empty, to_lower}
use llmp2p.Common.Disk.{FilePath, Disk, parent, stat}
use llmp2p.Manifest.Codec.{Codec}
use llmp2p.Ref.{Ref, parse, ref_id, valid_model_id}
use llmp2p.Store.{Store, open_store, model_dir, torrent_path}
use llmp2p.Engine.{SeedRun, new_engine, seed_torrent_file}
use llmp2p.Ollama.{Visit, Command, find_gguf, base, default_name, create, path_text}
use llmp2p.Cli.{
  CliError, store_failed, bad_target, torrent_missing, engine_failed, ollama_failed,
  load_model_manifest,
}

-- `filepath.Ext`
unfoldable pub ext : Bytes → Bytes
ext [] = []
ext (c ∷ cs) =
    let rest = ext cs in
    if not (is_empty rest)
    then rest
    else if c == b'.' && not (contains_byte b'/' cs)
    then c ∷ cs
    else []

-- `strings.TrimSuffix`
unfoldable pub trim_suffix : Bytes → Bytes → Bytes
trim_suffix s suffix = if has_suffix s suffix then take (length s - length suffix) s else s

-- the torrent, if its file is there
unfoldable pub check_torrent : Disk → Bytes → FilePath → Result CliError FilePath
check_torrent d info_hash p = elim (stat d p) [
  | err e ↦ err (torrent_missing info_hash)
  | ok n ↦ ok p
]

module _ (c : Codec) (path_of : Bytes → FilePath) (root : FilePath) where
  -- the torrent of a stored model, and the directory of its owner
  unfoldable pub stored_target : Ref → Store → Disk → Result CliError (FilePath × FilePath)
  stored_target r s d = do
    m ← load_model_manifest c d s (ref_id r)
    p ← wrap_err store_failed (torrent_path s m.info_hash)
    t ← check_torrent d m.info_hash p
    dir ← wrap_err store_failed (model_dir s (ref_id r))
    ok (t, parent dir)

  -- `resolveSeedTarget`
  unfoldable pub resolve_seed_target : Bytes → Bytes → Disk → Result CliError (FilePath × FilePath)
  resolve_seed_target arg data_dir d =
      if equal (ext arg) (codes ".torrent")
      then ok (path_of arg, path_of (if is_empty data_dir then codes "." else data_dir))
      else elim (parse arg) [
        | err e ↦ err bad_target
        | ok r ↦ elim (open_store d root) [
          | err e ↦ err (store_failed e)
          | ok p ↦ stored_target r p.0 p.1
        ]
      ]

  -- `seed`, up to the ticker: the torrent that is seeded; `none` where the daemon does it
  unfoldable pub seed_command :
      Bool → (Bytes → Bool) → SeedRun → Bytes → Bytes → Disk → Result CliError (Option FilePath)
  seed_command daemon_up starts seeder arg data_dir d =
      if daemon_up
      then ok none
      else resolve_seed_target arg data_dir d >>= λ p. elim (new_engine starts (path_text p.1)) [
        | some e ↦ err (engine_failed e)
        | none ↦ elim (seed_torrent_file (path_text p.0) seeder) [
          | some e ↦ err (engine_failed e)
          | none ↦ ok (some p.0)
        ]
      ]

  -- the model that an argument of `import` names
  unfoldable pub import_id : Bytes → Result CliError Bytes
  import_id arg = elim (parse arg) [
    | ok r ↦ ok (ref_id r)
    | err e ↦ if valid_model_id arg then ok arg else err bad_target
  ]

  module _ (walk : Disk → FilePath → List Visit) where
    unfoldable pub stored_gguf : Bytes → Disk → Result CliError (FilePath × Disk)
    stored_gguf id d = do
      p ← wrap_err store_failed (open_store d root)
      dir ← wrap_err store_failed (model_dir p.0 id)
      gguf ← wrap_err ollama_failed (find_gguf (walk p.1 dir))
      ok (gguf, p.1)

    -- the file that is imported, what its name is made of, and the disk
    unfoldable pub import_target : Bytes → Disk → Result CliError (FilePath × Bytes × Disk)
    import_target arg d =
        if equal (to_lower (ext arg)) (codes ".gguf")
        then ok (path_of arg, trim_suffix (base (path_of arg)) (ext arg), d)
        else import_id arg >>= λ id. stored_gguf id d >>= λ p. ok (p.0, id, p.1)

    module _ (look_path : Bytes → Bool) (execute : Command → Disk → Disk × Bool) where
      unfoldable pub finish_import :
          Bytes → Disk × Option llmp2p.Ollama.OllamaError → Disk × Result CliError Bytes
      finish_import name (d, none) = (d, ok name)
      finish_import name (d, some e) = (d, err (ollama_failed e))

      -- `import`: the name of the imported model
      unfoldable pub import_command :
          Option FilePath → Bytes → Bytes → Bytes → Bytes → Disk → Disk × Result CliError Bytes
      import_command tmp bin name host arg d = elim (import_target arg d) [
        | err e ↦ (d, err e)
        | ok p ↦
            let label = if is_empty name then default_name p.1 else name in
            finish_import label (create look_path execute tmp bin p.0 label host p.2)
      ]
