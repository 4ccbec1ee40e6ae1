-- ===== src/Pull/Laws/Fallback.antt =====
-- When a pull goes to the Hub.
use llmp2p.Common.{
  ℕ, Bool, true, false, List, [], ◌∷◌, Option, none, some, Result, ok, err, ◌≡◌, ◌≢◌, ◌⊎◌, refl,
  arith, inl, inr,
}
use llmp2p.Common.Bytes.{Bytes, is_empty}
use llmp2p.Common.Disk.{FilePath, Disk}
use llmp2p.Manifest.{Manifest}
use llmp2p.Hf.{FileInfo, RepoInfo, HfError}
use llmp2p.Ref.{Ref, ref_id}
use llmp2p.Store.{Store, StoreError, model_dir}
use llmp2p.Pull.{Environment, PullError, Pulled, check_cache, requested}
use llmp2p.Pull.Run.{
  Options, Network, Mode, http, run, run_requested, run_in, run_uncached, run_http, fall_back,
  with_mode, pull_p2p,
}

module _ (v : Environment) (w : Network) (s : Store) (o : Options) where
  -- the pull was answered by the Hub
  abbrev pub IsHttp : Disk × Result PullError (Mode × Pulled) → Type 0
  IsHttp r = (p : Pulled) × (r.1 ≡ ok (http, p))

  -- the reasons for which the Hub is used though its fallback is off
  abbrev pub IsDirect : Ref → Type 0
  IsDirect r = (o.http_only ≡ true) ⊎ (r.path ≢ [])

  fall_back_lem :
      (now : ℕ) (r : Ref) (revision : Bytes) (dir : FilePath) (files : List FileInfo)
      (x : Disk × Result PullError (Pulled × Disk))
      → o.no_http_fallback ≡ true
      → IsHttp (fall_back v w s o now r revision dir files x)
      → ⊥
  unfolding fall_back with_mode
  fall_back_lem now r revision dir files (d, ok p) n h = ground arith
  fall_back_lem now r revision dir files (d, err e) n h = ground arith

  run_uncached_lem :
      (now : ℕ) (r : Ref) (revision : Bytes) (dir : FilePath) (d : Disk) (files : List FileInfo)
      → o.no_http_fallback ≡ true
      → IsHttp (run_uncached v w s o now r revision dir d files)
      → IsDirect r
  unfolding run_uncached is_empty
  run_uncached_lem now r revision dir d files n h = go o.http_only refl r.path refl
    where
      go : (b : Bool) → o.http_only ≡ b → (p : Bytes) → r.path ≡ p → IsDirect r
      go true e p q = inl e
      go false e (c ∷ p) q = inr (λ z. ground arith)
      go false e [] q = absurd (
          fall_back_lem now r revision dir files
            (pull_p2p v w s o now (ref_id r) r.path revision dir d) n (ground arith))

  -- Where the fallback to the Hub is off, a pull that was answered by the Hub was asked for the Hub
  -- only, or for a single file.
  pub run-IsHttp :
      (now : ℕ) (r : Ref) (res : Result HfError RepoInfo) (d : Disk)
      → o.no_http_fallback ≡ true
      → IsHttp (run v w s o now r res d)
      → IsDirect r
  unfolding run run_requested run_in
  run-IsHttp now r (err e) d n h = absurd (ground arith)
  run-IsHttp now r (ok res) d n h = files (requested res.files r.path) refl
    where
      in_dir :
          (fs : List FileInfo) (dir : FilePath)
          → IsHttp (run_in v w s o now r res.revision fs dir d)
          → (c : Result PullError (Option Manifest))
          → check_cache v.codec s d (ref_id r) res.revision dir ≡ c
          → IsDirect r
      in_dir fs dir h (err e) q =
          run_uncached_lem now r res.revision dir d fs n (h.0, ground (arith, h.1))
      in_dir fs dir h (ok none) q =
          run_uncached_lem now r res.revision dir d fs n (h.0, ground (arith, h.1))
      in_dir fs dir h (ok (some m)) q = absurd (ground (arith, h.1))

      dirs :
          (fs : List FileInfo)
          → IsHttp (run_requested v w s o now r res.revision d (ok fs))
          → (c : Result StoreError FilePath) → model_dir s (ref_id r) ≡ c
          → IsDirect r
      dirs fs h (err e) q = absurd (ground (arith, h.1))
      dirs fs h (ok dir) q =
          in_dir fs dir (h.0, ground (arith, h.1))
            (check_cache v.codec s d (ref_id r) res.revision dir) refl

      files : (c : Result PullError (List FileInfo)) → requested res.files r.path ≡ c → IsDirect r
      files (err e) q = absurd (ground (arith, h.1))
      files (ok fs) q = dirs fs (h.0, ground (arith, h.1)) (model_dir s (ref_id r)) refl

  -- A pull of a single file that is not answered from the cache goes to the Hub, also where the
  -- fallback to it is off.
  pub run_path :
      (now : ℕ) (r : Ref) (res : RepoInfo) (d : Disk) (files : List FileInfo) (dir : FilePath)
      → r.path ≢ []
      → requested res.files r.path ≡ ok files
      → model_dir s (ref_id r) ≡ ok dir
      → check_cache v.codec s d (ref_id r) res.revision dir ≡ ok none
      → run v w s o now r (ok res) d ≡ run_http v w s o now r res.revision dir d files
  unfolding run run_requested run_in run_uncached is_empty
  run_path now r res d files dir n q m c = go r.path refl
    where
      go :
          (p : Bytes)
          → r.path ≡ p
          → run v w s o now r (ok res) d ≡ run_http v w s o now r res.revision dir d files
      go [] e = absurd (n e)
      go (x ∷ p) e = ground arith
