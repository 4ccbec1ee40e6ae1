-- ===== src/Cli.antt =====
-- internal/cli: the commands, as functions of their flags, their arguments and the disk.
-- cobra fills in the flags. What is printed is a value, without its text. A path that is given as text is
-- read by the parameter `path_of`, which knows the working directory. Where a command returns no disk, or
-- fails before its work, the directories that opening the store makes do not show.
pub mod Keys
pub mod Models
pub mod Delegate
pub mod Pull
pub mod Targets
use llmp2p.Common.{
  ℕ, ltb, List, [], ◌∷◌, ◌++◌, Option, none, some, Result, ok, err, ◌>>=◌, if◌then◌else◌, length,
  take,
}
use llmp2p.Common.Int.{ℤ, pos, negsuc}
use llmp2p.Common.Bytes.{Bytes, codes}
use llmp2p.Common.Disk.{FilePath, IoError, Disk}
use llmp2p.Manifest.{Manifest}
use llmp2p.Manifest.Codec.{Codec, LoadError, load}
use llmp2p.Manifest.Verify.{VerifyError}
use llmp2p.Ref.{RefError}
use llmp2p.Store.{Store, StoreError, model_manifest_file}
use llmp2p.Pull.{PullError}
use llmp2p.Engine.{EngineError}
use llmp2p.Ollama.{OllamaError}

pub data CliError : Type 0 where
  ref_failed : RefError → CliError
  whole_models_only bad_target aborted no_answer bad_answer : CliError
  store_failed : StoreError → CliError
  not_in_store : Bytes → LoadError → CliError
  key_file_failed : IoError → CliError
  bad_swarm_key : Bytes → CliError
  bad_key_file : FilePath → CliError
  verify_failed : Bytes → VerifyError → CliError
  rejected : ℕ → CliError
  daemon_pull_failed : Bytes → CliError
  pull_failed : PullError → CliError
  torrent_missing : Bytes → CliError
  engine_failed : EngineError → CliError
  ollama_failed : OllamaError → CliError
  entropy_failed : CliError

-- `loadModelManifest`
unfoldable pub load_model_manifest : Codec → Disk → Store → Bytes → Result CliError Manifest
load_model_manifest c d s model = elim (model_manifest_file s model) [
  | err e ↦ err (store_failed e)
  | ok p ↦ elim (load c d p) [ err e ↦ err (not_in_store model e) | ok m ↦ ok m ]
]

-- `shortRev`
unfoldable pub short_rev : Bytes → Bytes
short_rev rev = if ltb 12 (length rev) then take 12 rev else rev

-- `humanBytes`: `%.1f` and `%.0f` of a quotient, and `%d`, are parameters
unfoldable pub human_bytes : (ℕ → ℕ → ℕ → Bytes) → (ℤ → Bytes) → ℤ → Bytes
human_bytes quotient decimal (negsuc n) = decimal (negsuc n) ++ codes " B"
human_bytes quotient decimal (pos n) =
    if ltb n 1024
    then decimal (pos n) ++ codes " B"
    else if ltb n 1048576
    then quotient 0 n 1024 ++ codes " KiB"
    else if ltb n 1073741824
    then quotient 1 n 1048576 ++ codes " MiB"
    else quotient 1 n 1073741824 ++ codes " GiB"
