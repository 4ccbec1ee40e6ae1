-- ===== src/Cli/Pull.antt =====
-- internal/cli/pull.go: the command `pull`.
-- The access token, the port, the static peers and the progress line are left out here: they belong to
-- the Hub's client, the torrent client and the terminal, which are parameters (the peers are those of
-- `Network`).
pub mod Laws
use llmp2p.Common.{
  ℕ, Bool, true, false, not, ◌&&◌, List, [], ◌∷◌, Option, none, some, Result, ok, err, ◌>>=◌,
  wrap_err, if◌then◌else◌,
}
use llmp2p.Common.Int.{ℤ}
use llmp2p.Common.Bytes.{Bytes, codes, equal, is_empty}
use llmp2p.Common.Disk.{FilePath, Disk}
use llmp2p.Hf.{RepoInfo, HfError}
use llmp2p.Ref.{Ref, parse, ref_string}
use llmp2p.Store.{Store, open_store}
use llmp2p.Pull.{Environment, PullError, Pulled}
use llmp2p.Pull.Run.{Options, Network, Mode, run}
use llmp2p.Cli.{CliError, ref_failed, store_failed, pull_failed, daemon_pull_failed}
use llmp2p.Cli.Keys.{resolve_swarm_key}
use llmp2p.Cli.Delegate.{JobResult, Decoder, delegate_pull}

-- `pullFlags`
pub record PullFlags : Type 0 where
  pub http_only : Bool
  pub bootstrap : List Bytes
  pub grace : ℤ
  pub no_daemon : Bool
  pub dht : Bool
  pub swarm_key : Bytes
  pub allowed_signers : List Bytes

-- `DefaultBootstrapURL`
abbrev pub default_bootstrap_url : Bytes
default_bootstrap_url = codes "https://raw.githubusercontent.com/log0u7/llmp2p/main"

unfoldable pub or_default : List Bytes → List Bytes
or_default [] = default_bootstrap_url ∷ []
or_default (u ∷ us) = u ∷ us

unfoldable pub public_options : PullFlags → Options
public_options f = record {
  bootstrap_urls = or_default f.bootstrap;
  allowed_signers = f.allowed_signers;
  http_only = f.http_only;
  dht = f.dht;
  p2p_grace = f.grace;
  no_http_fallback = false;
}

-- the mode of a private swarm
unfoldable pub private_options : PullFlags → Bytes → Options
private_options f key = record {
  bootstrap_urls = [];
  allowed_signers = key ∷ [];
  http_only = f.http_only;
  dht = true;
  p2p_grace = f.grace;
  no_http_fallback = true;
}

-- the options of the pull
unfoldable pub plan : (Bytes → FilePath) → Disk → PullFlags → Result CliError Options
plan path_of d f =
    if is_empty f.swarm_key
    then ok (public_options f)
    else resolve_swarm_key path_of d f.swarm_key >>= λ key. ok (private_options f key)

-- what the summary is printed of
pub data PullOutput : Type 0 where
  delegated : JobResult → PullOutput
  pulled : Mode → Pulled → PullOutput

unfoldable pub delegated_output : Result CliError JobResult → Result CliError PullOutput
delegated_output (err e) = err e
delegated_output (ok j) =
    if equal j.status (codes "succeeded")
    then ok (delegated j)
    else err (daemon_pull_failed j.error)

unfoldable pub pulled_output : Result PullError (Mode × Pulled) → Result CliError PullOutput
pulled_output (err e) = err (pull_failed e)
pulled_output (ok (mode, p)) = ok (pulled mode p)

-- What the command runs against: the daemon, if one is up, and the Hub.
pub record Surroundings : Type 0 where
  pub path_of : Bytes → FilePath
  pub root : FilePath
  pub daemon_up : Bool
  pub post : Bytes → Bool → Option (ℕ × Decoder)
  pub gets : List (Bytes → Option Decoder)
  pub resolution : Ref → Result HfError RepoInfo
  pub now : ℕ

module _ (v : Environment) (w : Network) (u : Surroundings) where
  unfoldable pub run_here :
      Store → Options → Ref → Disk → Disk × Option (Result CliError PullOutput)
  run_here s o r d =
      let done = run v w s o u.now r (u.resolution r) d in (done.0, some (pulled_output done.1))

  unfoldable pub delegate : PullFlags → Ref → Disk → Disk × Option (Result CliError PullOutput)
  delegate f r d = (
    d,
    elim (delegate_pull u.post u.gets (ref_string r) f.http_only) [
      | none ↦ none
      | some o ↦ some (delegated_output o)
    ],
  )

  -- behind the flags
  unfoldable pub dispatch :
      PullFlags
      → Ref
      → Store
      → Disk
      → Result CliError Options
      → Disk × Option (Result CliError PullOutput)
  dispatch f r s d (err e) = (d, some (err e))
  dispatch f r s d (ok o) =
      if not f.no_daemon && u.daemon_up then delegate f r d else run_here s o r d

  -- `pull`; there is no result while the daemon is polled
  unfoldable pub pull_command :
      PullFlags → Bytes → Disk → Disk × Option (Result CliError PullOutput)
  pull_command f text d = elim (parse text) [
    | err e ↦ (d, some (err (ref_failed e)))
    | ok r ↦ elim (open_store d u.root) [
      | err e ↦ (d, some (err (store_failed e)))
      | ok p ↦ dispatch f r p.0 p.1 (plan u.path_of p.1 f)
    ]
  ]
