-- ===== src/Daemon/Seeders/Hub.antt =====
-- The delegated pulls of a daemon that is started without a template, as `llmp2pd` does.
use llmp2p.Common.{
  ℕ, Bool, not, ◌&&◌, List, Option, none, some, Result, ok, err, ◌≡◌, refl, ap, arith, Bool-cases,
  Result-cases, inl, inr,
}
use llmp2p.Common.Bytes.{Bytes, is_empty}
use llmp2p.Common.Dict.{find}
use llmp2p.Common.Disk.{FilePath, Disk}
use llmp2p.Manifest.{Manifest}
use llmp2p.Index.{get}
use llmp2p.Index.Fetch.{fetch, fetch_loop}
use llmp2p.Hf.{FileInfo, RepoInfo, HfError}
use llmp2p.Ref.{Ref, ref_id}
use llmp2p.Store.{Store, model_dir}
use llmp2p.Pull.{Environment, PullError, Pulled, no_entry, check_cache, requested}
use llmp2p.Pull.Run.{
  Options, Network, Mode, p2p, http, run, run_requested, run_in, run_uncached, run_http, fall_back,
  with_mode, pull_p2p, find_manifest, find_entry, index_entry,
}
use llmp2p.Daemon.Seeders.{default_pull_template, job_options}

module _ (v : Environment) (w : Network) (s : Store) (http_only : Bool) where
  -- the options of a job of that daemon
  abbrev pub delegated : Options
  delegated = job_options (default_pull_template s none) http_only

  -- The pull was answered by the swarm.
  abbrev pub IsP2p : Disk × Result PullError (Mode × Pulled) → Type 0
  IsP2p r = (p : Pulled) × (r.1 ≡ ok (p2p, p))

  no_manifest :
      (model revision : Bytes) → find_manifest v w s delegated model revision ≡ err no_entry
  unfolding job_options default_pull_template find_manifest find_entry index_entry fetch fetch_loop
      get find
  no_manifest model revision = refl

  no_p2p :
      (now : ℕ) (model path revision : Bytes) (dir : FilePath) (d : Disk)
      → pull_p2p v w s delegated now model path revision dir d ≡ (d, err no_entry)
  unfolding pull_p2p
  no_p2p now model path revision dir d = let e = no_manifest model revision in ground arith

  with_mode_http :
      (x : Disk × Result PullError (Pulled × Disk)) → IsP2p (with_mode v w s delegated http x) → ⊥
  unfolding with_mode
  with_mode_http (d, err e) h = ground arith
  with_mode_http (d, ok p) h = ground arith

  -- without an entry the attempt over the swarm falls back to the Hub
  fall_back_hub :
      (now : ℕ) (r : Ref) (revision : Bytes) (dir : FilePath) (d : Disk) (files : List FileInfo)
      → fall_back v w s delegated now r revision dir files
          (pull_p2p v w s delegated now (ref_id r) r.path revision dir d)
        ≡ run_http v w s delegated now r revision dir d files
  unfolding fall_back job_options default_pull_template
  fall_back_hub now r revision dir d files =
      ap (fall_back v w s delegated now r revision dir files)
        (no_p2p now (ref_id r) r.path revision dir d)

  run_http_hub :
      (now : ℕ) (r : Ref) (revision : Bytes) (dir : FilePath) (d : Disk) (files : List FileInfo)
      → IsP2p (run_http v w s delegated now r revision dir d files)
      → ⊥
  unfolding run_http
  run_http_hub now r revision dir d files h = with_mode_http _ h

  run_uncached_hub :
      (now : ℕ) (r : Ref) (revision : Bytes) (dir : FilePath) (d : Disk) (files : List FileInfo)
      → IsP2p (run_uncached v w s delegated now r revision dir d files)
      → ⊥
  unfolding run_uncached
  run_uncached_hub now r revision dir d files h =
      let e = fall_back_hub now r revision dir d files in
      elim (Bool-cases (not delegated.http_only && is_empty r.path)) [
        | inl b ↦ run_http_hub now r revision dir d files (h.0, ground (arith, h.1))
        | inr b ↦ run_http_hub now r revision dir d files (h.0, ground (arith, h.1))
      ]

  run_in_hub :
      (now : ℕ) (r : Ref) (revision : Bytes) (files : List FileInfo) (dir : FilePath) (d : Disk)
      → IsP2p (run_in v w s delegated now r revision files dir d)
      → ⊥
  unfolding run_in
  run_in_hub now r revision files dir d h =
      go (check_cache v.codec s d (ref_id r) revision dir) refl
    where
      go :
          (c : Result PullError (Option Manifest))
          → check_cache v.codec s d (ref_id r) revision dir ≡ c
          → ⊥
      go (err e) q = run_uncached_hub now r revision dir d files (h.0, ground (arith, h.1))
      go (ok none) q = run_uncached_hub now r revision dir d files (h.0, ground (arith, h.1))
      go (ok (some m)) q = absurd (ground (arith, h.1))

  run_requested_hub :
      (now : ℕ) (r : Ref) (revision : Bytes) (d : Disk) (c : Result PullError (List FileInfo))
      → IsP2p (run_requested v w s delegated now r revision d c)
      → ⊥
  unfolding run_requested
  run_requested_hub now r revision d (err e) h = absurd (ground (arith, h.1))
  run_requested_hub now r revision d (ok files) h = elim (Result-cases (model_dir s (ref_id r))) [
    | inr (e, q) ↦ absurd (ground (arith, h.1))
    | inl (dir, q) ↦ run_in_hub now r revision files dir d (h.0, ground (arith, h.1))
  ]

  -- A daemon that is started without a template never pulls from the swarm: each delegated pull is answered
  -- from the cache or by the Hub, or fails.
  pub run-IsP2p :
      (now : ℕ) (r : Ref) (res : Result HfError RepoInfo) (d : Disk)
      → ¬ IsP2p (run v w s delegated now r res d)
  unfolding run
  run-IsP2p now r (err e) d h = absurd (ground (arith, h.1))
  run-IsP2p now r (ok res) d h =
      run_requested_hub now r res.revision d (requested res.files r.path) h
