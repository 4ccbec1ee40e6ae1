-- ===== src/Pull/Run.antt =====
-- `pullP2P` and `Run`.
-- The torrent client is a parameter: whether it starts, which magnets it takes, which torrents it
-- knows, and `swarm`, from an infohash, the directory of the owner and the disk, to the disk that it
-- leaves and the events that the wait for it sees.
use llmp2p.Common.{
  true, false, ℕ, Bool, not, ◌&&◌, List, [], ◌∷◌, Option, none, some, Result, ok, err, ◌>>=◌,
  wrap_err, if◌then◌else◌, length,
}
use llmp2p.Common.Int.{ℤ, pos, add64}
use llmp2p.Common.Bytes.{Bytes, equal, is_empty}
use llmp2p.Common.Disk.{FilePath, Disk, parent}
use llmp2p.Manifest.{Manifest, is_nil}
use llmp2p.Manifest.Codec.{digest, parse}
use llmp2p.Manifest.Verify.{verify_dir}
use llmp2p.Index.{Entry, get}
use llmp2p.Index.Fetch.{FetchResult, fetch}
use llmp2p.Dht.{Answer, Libraries}
use llmp2p.Hf.{FileInfo, RepoInfo, HfError}
use llmp2p.Hf.Download.{Request, Reply}
use llmp2p.Ref.{Ref, ref_id}
use llmp2p.Store.{Store, model_dir}
use llmp2p.Pull.{
  Environment, PullError, Pulled, store_failed, corrupt, origins_failed, no_entry, no_swarm_data,
  dht_off, other_revision, bad_manifest, unresolved, requested, check_cache,
}
use llmp2p.Pull.Origins.{fetch_manifest, verify_manifest_signature}
use llmp2p.Pull.Publish.{publish}
use llmp2p.Pull.Http.{pull_http}
use llmp2p.Pull.Discover.{discover}
use llmp2p.Pull.Swarm.{Event, watch, grace_of, is_delivered}
use llmp2p.Engine.{add_peers, prepare_magnet}

-- the fields of `Options` that decide what is done
pub record Options : Type 0 where
  pub bootstrap_urls : List Bytes
  pub allowed_signers : List Bytes
  pub http_only : Bool
  pub dht : Bool
  pub p2p_grace : ℤ
  pub no_http_fallback : Bool

-- `ModeCache`, `ModeP2P` and `ModeHTTP`
pub data Mode : Type 0 where
  cache p2p http : Mode

-- What a pull runs against, besides its environment.
pub record Network : Type 0 where
  pub libraries : Libraries
  pub nodes : List (Bytes → Option Answer)
  pub engine_starts : FilePath → Bool
  pub add_magnet : Bytes → Bool
  pub known : List Bytes
  pub peers : List Bytes
  pub swarm : Bytes → FilePath → Disk → Disk × List Event
  pub path_escape : Bytes → Bytes
  pub base : Bytes
  pub hub : FileInfo → List (Request → Reply)

-- the sizes of the Hub's files, added up
unfoldable pub sum_infos : ℤ → List FileInfo → ℤ
unfolding add64
sum_infos total [] = total
sum_infos total (f ∷ fs) = sum_infos (add64 total f.size) fs

module _ (v : Environment) (w : Network) (s : Store) (o : Options) where
  -- the entry of the merged bootstrap index
  unfoldable pub index_entry : Bytes → FetchResult × Bool → Result PullError (Entry × Bytes)
  index_entry model (res, failed) =
      if failed
      then err origins_failed
      else elim (get res.index model) [ none ↦ err no_entry | some e ↦ ok (e, []) ]

  -- the DHT first, then the bootstrap index
  unfoldable pub find_entry : Bytes → Bytes → Result PullError (Entry × Bytes)
  find_entry model revision =
      let found =
        if o.dht && not (is_nil o.allowed_signers)
        then discover w.libraries o.allowed_signers w.nodes model revision
        else err dht_off in
      elim found [
        | ok p ↦ ok p
        | err e ↦ index_entry model (fetch v.web v.index_codec.decode o.bootstrap_urls)
      ]

  unfoldable pub check_signature : Manifest → Result PullError Manifest
  check_signature m = elim (verify_manifest_signature v o.allowed_signers m o.bootstrap_urls) [
    | some e ↦ err e
    | none ↦ ok m
  ]

  -- the manifest that a record embeds, or the one that the origins serve
  unfoldable pub trusted_manifest : Bytes → Entry × Bytes → Result PullError Manifest
  trusted_manifest revision (entry, embedded) =
      if not (is_empty embedded)
      then wrap_err bad_manifest (parse v.codec embedded)
      else fetch_manifest v o.bootstrap_urls entry revision >>= check_signature

  -- behind the swarm: the data is verified and published
  unfoldable pub accept_swarm :
      ℕ
      → Bytes
      → Bytes
      → Bytes
      → FilePath
      → Manifest
      → Disk × Bool
      → Disk × Result PullError (Pulled × Disk)
  accept_swarm now model path revision dir m (d, complete) =
      if not complete
      then (d, err no_swarm_data)
      else elim (verify_dir v.codec.sha256_sum d dir m) [
        | some e ↦ (d, err (corrupt e))
        | none ↦ (d, publish v s now model path revision d dir m)
      ]

  -- the entry, if it is pinned to the wanted revision, with its manifest
  unfoldable pub find_manifest : Bytes → Bytes → Result PullError (Entry × Manifest)
  find_manifest model revision = do
    p ← find_entry model revision
    if not (equal p.0.revision revision)
        then err (other_revision p.0.revision)
        else trusted_manifest revision p >>= λ m. ok (p.0, m)

  -- `AddPeers`, for the static peers
  unfoldable pub peers_refused : Bytes → Bool
  peers_refused info_hash =
      if is_nil w.peers
      then false
      else elim (add_peers w.known info_hash w.peers) [ err e ↦ true | ok p ↦ false ]

  -- The engine is started and the magnet registered, and the wait for it runs until the download ends or
  -- is given up. All errors on the way show as a swarm that has not delivered.
  unfoldable pub run_swarm : Bytes → FilePath → Disk → Disk × Bool
  run_swarm info_hash dir d =
      if not (w.engine_starts dir)
      then (d, false)
      else elim (prepare_magnet w.add_magnet info_hash) [
        | some e ↦ (d, false)
        | none ↦
            if peers_refused info_hash
            then (d, false)
            else (let (e, events) = w.swarm info_hash dir d in
                (e, is_delivered (watch (grace_of o.p2p_grace) 0 (pos 0) events)))
      ]

  -- `pullP2P`
  unfoldable pub pull_p2p :
      ℕ → Bytes → Bytes → Bytes → FilePath → Disk → Disk × Result PullError (Pulled × Disk)
  pull_p2p now model path revision dir d = elim (find_manifest model revision) [
    | err e ↦ (d, err e)
    | ok p ↦ accept_swarm now model path revision dir p.1 (run_swarm p.0.info_hash (parent dir) d)
  ]

  unfoldable pub with_mode :
      Mode → Disk × Result PullError (Pulled × Disk) → Disk × Result PullError (Mode × Pulled)
  with_mode mode (d, err e) = (d, err e)
  with_mode mode (d, ok p) = (p.1, ok (mode, p.0))

  unfoldable pub run_http :
      ℕ → Ref → Bytes → FilePath → Disk → List FileInfo → Disk × Result PullError (Mode × Pulled)
  run_http now r revision dir d files =
      with_mode http
        (pull_http v s w.path_escape w.base w.hub now (ref_id r) r.path revision dir d files)

  -- what is done after an attempt over the swarm
  unfoldable pub fall_back :
      ℕ
      → Ref
      → Bytes
      → FilePath
      → List FileInfo
      → Disk × Result PullError (Pulled × Disk)
      → Disk × Result PullError (Mode × Pulled)
  fall_back now r revision dir files (d, ok p) = with_mode p2p (d, ok p)
  fall_back now r revision dir files (d, err e) =
      if o.no_http_fallback then (d, err e) else run_http now r revision dir d files

  -- behind the check of the cache
  unfoldable pub run_uncached :
      ℕ → Ref → Bytes → FilePath → Disk → List FileInfo → Disk × Result PullError (Mode × Pulled)
  run_uncached now r revision dir d files =
      if not o.http_only && is_empty r.path
      then fall_back now r revision dir files (pull_p2p now (ref_id r) r.path revision dir d)
      else run_http now r revision dir d files

  -- the answer from the cache
  unfoldable pub digest_or_empty : Manifest → Bytes
  digest_or_empty m = elim (digest v.codec m) [ err e ↦ [] | ok sha ↦ sha ]

  unfoldable pub cached_result : Ref → Bytes → List FileInfo → Manifest → Pulled
  cached_result r revision files m = record {
    model = ref_id r;
    revision = revision;
    files = length m.files;
    size = sum_infos (pos 0) files;
    info_hash = m.info_hash;
    manifest_sha256 = digest_or_empty m;
  }

  unfoldable pub run_in :
      ℕ → Ref → Bytes → List FileInfo → FilePath → Disk → Disk × Result PullError (Mode × Pulled)
  run_in now r revision files dir d = elim (check_cache v.codec s d (ref_id r) revision dir) [
    | err e ↦ run_uncached now r revision dir d files
    | ok c ↦ elim c [
      | none ↦ run_uncached now r revision dir d files
      | some m ↦ (d, ok (cache, cached_result r revision files m))
    ]
  ]

  unfoldable pub run_requested :
      ℕ
      → Ref
      → Bytes
      → Disk
      → Result PullError (List FileInfo)
      → Disk × Result PullError (Mode × Pulled)
  run_requested now r revision d (err e) = (d, err e)
  run_requested now r revision d (ok files) = elim (model_dir s (ref_id r)) [
    | err e ↦ (d, err (store_failed e))
    | ok dir ↦ run_in now r revision files dir d
  ]

  -- `Run`, on what `Resolve` returned
  unfoldable pub run :
      ℕ → Ref → Result HfError RepoInfo → Disk → Disk × Result PullError (Mode × Pulled)
  run now r (err e) d = (d, err (unresolved e))
  run now r (ok res) d = run_requested now r res.revision d (requested res.files r.path)
