-- ===== src/Daemon/Seeders.antt =====
-- internal/daemon/daemon.go: the start of the daemon.
-- An engine is the list of the torrents that were handed to it. Whether one can be started, what comes
-- of a torrent file, and the order in which Go walks the map `targets`, are parameters. The lock is the
-- list of the attempts to take it.
pub mod Order
pub mod Laws
pub mod Hub
use llmp2p.Common.{
  ℕ, Bool, true, false, not, ◌&&◌, ◌||◌, List, [], ◌∷◌, ◌++◌, Option, none, some, Result, ok, err,
  ◌>>=◌, if◌then◌else◌,
}
use llmp2p.Common.Bytes.{Bytes, codes, is_empty}
use llmp2p.Common.Int.{pos}
use llmp2p.Common.Disk.{FilePath, path_eq, join_path, Disk, stat, read_dir}
use llmp2p.Manifest.{Manifest}
use llmp2p.Manifest.Codec.{Codec, load}
use llmp2p.Store.{Store, store_dir, torrent_path}
use llmp2p.Engine.{EngineError}
use llmp2p.Pull.Run.{Options}

-- `pull.Options`, as far as the daemon sets it
pub record Template : Type 0 where
  pub store : Option Store
  pub no_lock : Bool
  pub options : Options

abbrev or_store : Option Store → Store → Option Store
or_store none s = some s
or_store (some t) s = some t

-- the zero value of the fields that the daemon leaves alone
abbrev pub zero_options : Options
zero_options = record {
  bootstrap_urls = [];
  allowed_signers = [];
  http_only = false;
  dht = false;
  p2p_grace = pos 0;
  no_http_fallback = false;
}

-- the options of a job: `opts.HTTPOnly = httpOnly`
unfoldable pub job_options : Template → Bool → Options
job_options t http_only = record t.options { http_only = http_only }

-- `defaultPullTemplate`
unfoldable pub default_pull_template : Store → Option Template → Template
default_pull_template s none = record { store = some s; no_lock = true; options = zero_options }
default_pull_template s (some t) = record t { no_lock = true; store = or_store t.store s }

pub record Target : Type 0 where
  pub model : Bytes
  pub owner_dir : FilePath
  pub torrent : FilePath

-- an engine of `Server.engines`
pub record Seeder : Type 0 where
  pub data_dir : FilePath
  pub torrents : List FilePath

pub data DaemonError : Type 0 where
  start_failed : EngineError → DaemonError
  seed_failed : Bytes → EngineError → DaemonError
  listen_failed serve_failed lock_cancelled : DaemonError

-- whether there is an engine for the directory
unfoldable pub has_engine : FilePath → List Seeder → Bool
has_engine p [] = false
has_engine p (e ∷ es) = path_eq e.data_dir p || has_engine p es

-- the torrent goes to the engine of the directory
unfoldable pub add_torrent : FilePath → FilePath → List Seeder → List Seeder
add_torrent p torrent [] = []
add_torrent p torrent (e ∷ es) =
    let rest = add_torrent p torrent es in
    if path_eq e.data_dir p
    then record e { torrents = e.torrents ++ torrent ∷ [] } ∷ es
    else e ∷ rest

module _ (c : Codec) (s : Store) (d : Disk) where
  -- a repository that can be seeded: it has a manifest and a torrent
  unfoldable pub target_of : Bytes → Bytes → Option Target
  target_of owner repo =
      let owner_dir = join_path (store_dir s) owner in
      elim (load c d (join_path (join_path owner_dir repo) (codes ".llmp2p-manifest.json"))) [
        | err e ↦ none
        | ok m ↦ elim (torrent_path s m.info_hash) [
          | err e ↦ none
          | ok t ↦ elim (stat d t) [
            | err e ↦ none
            | ok n ↦
                some (record { model = owner ++ b'/' ∷ repo; owner_dir = owner_dir; torrent = t })
          ]
        ]
      ]

  unfoldable pub repo_targets : Bytes → List (Bytes × Bool) → List Target
  repo_targets owner [] = []
  repo_targets owner ((repo, is_dir) ∷ es) =
      let rest = repo_targets owner es in
      if not is_dir then rest else elim (target_of owner repo) [ none ↦ rest | some t ↦ t ∷ rest ]

  unfoldable pub owner_targets : List (Bytes × Bool) → List Target
  owner_targets [] = []
  owner_targets ((owner, is_dir) ∷ es) =
      let rest = owner_targets es in
      if not is_dir then rest else elim (read_dir d (join_path (store_dir s) owner)) [
        | err e ↦ rest
        | ok repos ↦ repo_targets owner repos ++ rest
      ]

  -- the first half of `startSeeders`
  unfoldable pub targets : List Target
  targets = elim (read_dir d (store_dir s)) [ err e ↦ [] | ok owners ↦ owner_targets owners ]

module _ (starts : FilePath → Option EngineError)
    (seeds : FilePath → FilePath → Option EngineError) where
  -- the engine for the directory, made if there is none
  unfoldable pub with_engine : FilePath → List Seeder → Result DaemonError (List Seeder)
  with_engine p es = if has_engine p es then ok es else elim (starts p) [
    | some e ↦ err (start_failed e)
    | none ↦ ok (es ++ record { data_dir = p; torrents = [] } ∷ [])
  ]

  unfoldable pub seed_target : Target → List Seeder → Result DaemonError (List Seeder)
  seed_target t es = elim (seeds t.owner_dir t.torrent) [
    | some e ↦ err (seed_failed t.model e)
    | none ↦ ok (add_torrent t.owner_dir t.torrent es)
  ]

  -- the second half of `startSeeders`
  unfoldable pub start_loop : List Target → List Seeder → Result DaemonError (List Seeder)
  start_loop [] es = ok es
  start_loop (t ∷ ts) es =
      with_engine t.owner_dir es >>= λ fs. seed_target t fs >>= λ gs. start_loop ts gs

  -- `startSeeders`, with the order of the walk
  unfoldable pub start_seeders :
      (List Target → List Target) → Codec → Store → Disk → Result DaemonError (List Seeder)
  start_seeders order c s d = start_loop (order (targets c s d)) []

-- an attempt to take the lock: with success, or not, and then whether the context is cancelled
pub data LockTry : Type 0 where
  locked : LockTry
  busy : Bool → LockTry

-- how the server ends
pub data Ending : Type 0 where
  cancelled closed broken : Ending

-- the loop for the lock; `none` where it still waits
unfoldable pub wait_lock : List LockTry → Option Bool
wait_lock [] = none
wait_lock (locked ∷ ts) = some true
wait_lock (busy stopped ∷ ts) = let rest = wait_lock ts in if stopped then some false else rest

unfoldable pub serve : Bool → Ending → Option DaemonError
serve listens ending =
    if not listens
    then some listen_failed
    else elim ending [ cancelled ↦ none | closed ↦ none | broken ↦ some serve_failed ]

module _ (starts : FilePath → Option EngineError)
    (seeds : FilePath → FilePath → Option EngineError) where
  -- `Run`: the engines that were started, and the error; `none` where it waits for the lock
  unfoldable pub run :
      (List Target → List Target)
      → Codec
      → Store
      → Disk
      → List LockTry
      → Bool
      → Ending
      → Option (List Seeder × Option DaemonError)
  run order c s d tries listens ending = elim (wait_lock tries) [
    | none ↦ none
    | some got ↦
        if not got
        then some ([], some lock_cancelled)
        else elim (start_seeders starts seeds order c s d) [
          | err e ↦ some ([], some e)
          | ok es ↦ some (es, serve listens ending)
        ]
  ]
