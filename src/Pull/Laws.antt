-- ===== src/Pull/Laws.antt =====
-- What a pull accepts from the origins, from the swarm, from the cache and from the Hub.
pub mod Trust
pub mod Fallback
use llmp2p.Common.{
  ℕ, Bool, true, false, not, ◌&&◌, ◌||◌, List, [], ◌∷◌, map, Option, none, some, Result, ok, err,
  ◌≡◌, ◌≢◌, ◌⊎◌, refl, arith, if◌then◌else◌, inl, inr, length, Bool-cases, Result-cases, >>=-eq-ok,
  wrap_err, wrap_err-eq-ok, ◌>>=◌,
}
use llmp2p.Common.Int.{ℤ}
use llmp2p.Common.Bytes.{Bytes, equal}
use llmp2p.Common.Bytes.Laws.{equal_iff}
use llmp2p.Common.Disk.{FilePath, Disk, parent}
use llmp2p.Manifest.{Manifest, validate}
use llmp2p.Manifest.Verify.{verify_dir}
use llmp2p.Manifest.Codec.{Codec}
use llmp2p.Manifest.Stored.{IsStored, load_verified_iff}
use llmp2p.Store.Home.{home_of, model_dir-ref_id, manifest_file_of}
use llmp2p.Ref as Reference
use llmp2p.Manifest.Create as Create
use llmp2p.Manifest.Create.{create}
use llmp2p.Manifest.Create.Laws.{create-validate, create-verify_dir}
use llmp2p.Index.{Entry, get, add}
use llmp2p.Index as Index
use llmp2p.Index.Laws.{add-conflicting}
use llmp2p.Hf.{FileInfo, RepoInfo}
use llmp2p.Ref.{Ref, ref_id}
use llmp2p.Store.{Store, model_dir}
use llmp2p.Pull.{
  Environment, PullError, Pulled, check_cache, check_cached, requested, filter_path, create_failed,
}
use llmp2p.Pull.Publish.{local_index, publish_local_index, publish}
use llmp2p.Pull.Http.{entry_of, check_oids, http_manifest}
use llmp2p.Pull.Run.{
  Options, Network, cache, run, run_requested, run_in, cached_result, pull_p2p, accept_swarm,
  find_manifest,
}

-- The Hub lists a file at the path.
abbrev pub IsListed : Bytes → List FileInfo → Type 0
IsListed path [] = ⊥
IsListed path (f ∷ fs) = (f.path ≡ path) ⊎ IsListed path fs

filter_path-IsListed :
    (fs : List FileInfo) (path : Bytes) → IsListed path fs → filter_path fs path ≢ []
unfolding filter_path
filter_path-IsListed [] path l h = absurd l
filter_path-IsListed (f ∷ fs) path l h = elim (Bool-cases (equal f.path path)) [
  | inl e ↦ absurd (ground arith)
  | inr e ↦ elim l [
    | inl same ↦ absurd (ground (arith, equal_iff f.path path))
    | inr later ↦ filter_path-IsListed fs path later (ground arith)
  ]
]

requested-IsListed :
    (fs : List FileInfo) (path : Bytes)
    → (path ≡ []) ⊎ IsListed path fs
    → (files : List FileInfo) × (requested fs path ≡ ok files)
unfolding requested
requested-IsListed fs [] l = (fs, refl)
requested-IsListed fs (c ∷ path) (inl n) = absurd (ground arith)
requested-IsListed fs (c ∷ path) (inr l) = go (filter_path fs (c ∷ path)) refl
  where
    go :
        (o : List FileInfo)
        → filter_path fs (c ∷ path) ≡ o
        → (files : List FileInfo) × (requested fs (c ∷ path) ≡ ok files)
    go [] e = absurd (filter_path-IsListed fs (c ∷ path) l e)
    go (f ∷ gs) e = (f ∷ gs, ground arith)

-- The cache check finds a stored model of the revision.
check_cache-IsStored :
    (c : Codec) (s : Store) (d : Disk) (id revision : Bytes) (dir : FilePath) (m : Manifest)
    → model_dir s id ≡ ok dir
    → IsStored c d dir m
    → m.revision ≡ revision
    → check_cache c s d id revision dir ≡ ok (some m)
unfolding check_cache check_cached
check_cache-IsStored c s d id revision dir m h i q =
    let (l, fits) = (load_verified_iff c d dir m).1 i in
    let at = manifest_file_of s id dir h in ground (arith, equal_iff m.revision revision)

module _ (v : Environment) (s : Store) where
  -- If the local index lists another manifest for the model, publishing a valid entry leaves the
  -- disk as it is.
  pub publish_local_index_conflict :
      (d : Disk) (e old : Entry)
      → Index.validate e ≡ none
      → get (local_index v s d) e.model ≡ some old
      → old.manifest_sha256 ≢ e.manifest_sha256
      → publish_local_index v s d e ≡ d
  unfolding publish_local_index
  publish_local_index_conflict d e old a g n =
      ground (arith, add-conflicting (local_index v s d) e old a g n)

  module _ (w : Network) (o : Options) where
    -- Take an accepted reference to a whole repository or to a file that the Hub lists, whose model is stored:
    -- its directory has a valid manifest, for the revision of the reference on the Hub, and every file of that
    -- manifest, with its size and digest. Then a pull reports success from the cache, with the number of files
    -- and the infohash of the stored manifest, and leaves the disk as it is - whatever files the Hub lists for
    -- the repository, and whether or not the file that the reference asks for is in the manifest.
    pub run_cached :
        (now : ℕ) (r : Ref) (res : RepoInfo) (d : Disk) (m : Manifest)
        → Reference.validate r ≡ none
        → (r.path ≡ []) ⊎ IsListed r.path res.files
        → IsStored v.codec d (home_of s.root r) m
        → m.revision ≡ res.revision
        → (p : Pulled) × (run v w s o now r (ok res) d ≡ (d, ok (cache, p)))
          × (p.files ≡ length m.files)
          × (p.info_hash ≡ m.info_hash)
    unfolding run run_requested run_in cached_result
    run_cached now r res d m a l i q =
        let (files, asked) = requested-IsListed res.files r.path l in
        let home = model_dir-ref_id s r a in
        let hit =
          check_cache-IsStored v.codec s d (ref_id r) res.revision (home_of s.root r) m home i q in
        (cached_result v w s o r res.revision files m, ground arith, refl, refl)

    -- A pull over the swarm that returns no error has verified every file on the disk against the
    -- manifest that it trusts, and publishes that manifest.
    pub pull_p2p-verify_dir :
        (now : ℕ) (model path revision : Bytes) (dir : FilePath) (d e : Disk) {p : Pulled × Disk}
        → pull_p2p v w s o now model path revision dir d ≡ (e, ok p)
        → (entry : Entry) × (m : Manifest) × (find_manifest v w s o model revision ≡ ok (entry, m))
          × (verify_dir v.codec.sha256_sum e dir m ≡ none)
          × (publish v s now model path revision e dir m ≡ ok p)
    unfolding pull_p2p accept_swarm
    pull_p2p-verify_dir now model path revision dir d e {p} h =
        go (find_manifest v w s o model revision) refl
      where
        go :
            (f : Result PullError (Entry × Manifest))
            → find_manifest v w s o model revision ≡ f
            → (entry : Entry) × (m : Manifest) × (find_manifest v w s o model revision
                ≡ ok (entry, m))
              × (verify_dir v.codec.sha256_sum e dir m ≡ none)
              × (publish v s now model path revision e dir m ≡ ok p)
        go (err x) q = absurd (ground arith)
        go (ok (entry, m)) q = (entry, m, q, ground arith, ground arith)

module _ (v : Environment) where
  -- Where SHA-1 sums have 20 bytes, the manifest that a pull from the Hub makes is valid,
  -- describes the files on the disk, and has the digests that the Hub published for its large
  -- files.
  pub http_manifest-verify_dir :
      (now : ℕ) (model revision : Bytes) (dir : FilePath) (d : Disk) (files : List FileInfo)
      {m : Manifest}
      → Create.IsLawful v.torrents
      → http_manifest v now model revision dir d files ≡ ok m
      → (validate m ≡ none)
        × (verify_dir v.codec.sha256_sum d dir m ≡ none)
        × (check_oids files m.files ≡ none)
  unfolding http_manifest
  http_manifest-verify_dir now model revision dir d files {m} l h =
      let made =
        create v.codec.sha256_sum v.torrents now model revision (map entry_of files) d dir in
      let (n, q, h1) =
        >>=-eq-ok (wrap_err create_failed made)
          (λ n. elim (check_oids files n.files) [ some e ↦ err e | none ↦ ok n ]) h in
      let created : made ≡ ok m = wrap_err-eq-ok create_failed made (ground arith) in
      (
        create-validate v.codec.sha256_sum v.torrents now model revision (map entry_of files) d dir
            l created,
        create-verify_dir v.codec.sha256_sum v.torrents now model revision (map entry_of files) d
            dir created,
        ground arith,
      )
