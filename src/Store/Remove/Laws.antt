-- ===== src/Store/Remove/Laws.antt =====
-- What `Remove` deletes, and what it leaves alone.
use llmp2p.Common.{
  true, false, List, [], ◌∷◌, ◌++◌, Option, none, some, Result, ok, err, ◌≡◌, refl, arith, ◌∙◌,
  if◌then◌else◌, append_assoc, to_option, to_option-eq-some,
}
use llmp2p.Common.Bytes.{Bytes, codes}
use llmp2p.Common.Disk.{
  FilePath, path_eq, is_above, Disk, IoError, lookup, stat, remove, remove_all, read_file,
  mkdir_all, parent,
}
use llmp2p.Common.Disk.Laws.{
  is_above-append, is_above_self, lookup-remove, lookup-remove_all, lookup-write_file,
  lookup-mkdir_all, parent-append, path_eq_apart,
}
use llmp2p.Manifest.{Manifest}
use llmp2p.Manifest.Codec.{Codec, LoadError, digest}
use llmp2p.Index
use llmp2p.Index.{Index, Warning}
use llmp2p.Ref.{owner_re}
use llmp2p.Store.{Store, model_dir, store_dir, torrent_path, manifest_path, local_index_path}
use llmp2p.Store.Paths.{
  store_dir_lem, local_index_path_lem, torrent_path_lem, manifest_path_lem, model_dir_dotdot,
  model_dir-valid,
}
use llmp2p.Store.Remove.{
  IndexCodec, Summary, empty_summary, try_remove, try_remove_at, save_index, is_not_exist,
  stored_manifest, manifest_copy, remove_artifacts, drop_entry, remove_index_entry, remove_files,
  remove_model,
}

lookup-try_remove :
    (d : Disk) (p q : FilePath)
    → path_eq p q ≡ false
    → lookup q (try_remove d p).0.nodes ≡ lookup q d.nodes
unfolding try_remove
lookup-try_remove d p q n = go (remove d p) refl
  where
    go :
        (r : Result IoError Disk)
        → remove d p ≡ r
        → lookup q (try_remove d p).0.nodes ≡ lookup q d.nodes
    go (ok e) h = ground (arith, lookup-remove d e p q h n)
    go (err x) h = ground arith

-- Saving an index at `root/name` changes nothing below another entry of the root.
lookup-save_index :
    (x : IndexCodec) (d e : Disk) (p q : FilePath) (ix : Index)
    → save_index x d p ix ≡ some e
    → path_eq p q ≡ false
    → is_above q (parent p) ≡ false
    → lookup q e.nodes ≡ lookup q d.nodes
unfolding save_index
lookup-save_index x d e p q ix h n a = go (x.encode ix) refl (mkdir_all d (parent p)) refl
  where
    go :
        (o : Option Bytes)
        → x.encode ix ≡ o
        → (r : Result IoError Disk) → mkdir_all d (parent p) ≡ r
        → lookup q e.nodes ≡ lookup q d.nodes
    go none f r g = absurd (ground arith)
    go (some b) f (err y) g = absurd (ground arith)
    go (some b) f (ok d') g =
        lookup-write_file d' e p q b (ground arith) n ∙ lookup-mkdir_all d d' (parent p) q g a

module _ (c : Codec) (x : IndexCodec) (s : Store) where
  -- A path below the directory of all models, that directory included.
  abbrev InStore : FilePath → Type 0
  InStore q = (t : FilePath) × (q ≡ s.root ++ codes "store" ∷ t)

  module _ (q : FilePath) (i : InStore q) where
    not_index : path_eq (local_index_path s) q ≡ false
    not_index =
        rw (local_index_path_lem s, i.1)
          (path_eq_apart s.root (codes "index.json") (codes "store") [] i.0 (λ e. cc))

    not_above_root : is_above q (parent (local_index_path s)) ≡ false
    not_above_root =
        rw (local_index_path_lem s, parent-append s.root (codes "index.json"), i.1)
          (is_above_self s.root (codes "store") i.0)

    not_torrent : (h : Bytes) {p : FilePath} → torrent_path s h ≡ ok p → path_eq p q ≡ false
    not_torrent h e =
        rw ((torrent_path_lem s h e).1, i.1)
          (path_eq_apart s.root (codes "torrents") (codes "store") _ i.0 (λ e. cc))

    not_manifest : (h : Bytes) {p : FilePath} → manifest_path s h ≡ ok p → path_eq p q ≡ false
    not_manifest h e =
        rw ((manifest_path_lem s h e).1, i.1)
          (path_eq_apart s.root (codes "manifests") (codes "store") _ i.0 (λ e. cc))

    lookup-try_remove_at :
        (d : Disk) (o : Option FilePath)
        → ((p : FilePath) → o ≡ some p → path_eq p q ≡ false)
        → lookup q (try_remove_at d o).0.nodes ≡ lookup q d.nodes
    unfolding try_remove_at
    lookup-try_remove_at d none n = refl
    lookup-try_remove_at d (some p) n = lookup-try_remove d p q (n p refl)

    torrent_apart :
        (h : Bytes) (p : FilePath) → to_option (torrent_path s h) ≡ some p → path_eq p q ≡ false
    torrent_apart h p e = not_torrent h (to_option-eq-some (torrent_path s h) e)

    copy_apart :
        (m : Manifest) (p : FilePath) → manifest_copy c x s m ≡ some p → path_eq p q ≡ false
    unfolding manifest_copy
    copy_apart m p h = go (digest c m) refl
      where
        go : (r : Result LoadError Bytes) → digest c m ≡ r → path_eq p q ≡ false
        go (err e) g = absurd (ground arith)
        go (ok sha) g = not_manifest sha (to_option-eq-some (manifest_path s sha) (ground arith))

    lookup-remove_artifacts :
        (d : Disk) (sum : Summary) (o : Option Manifest)
        → lookup q (remove_artifacts c x s d sum o).0.nodes ≡ lookup q d.nodes
    unfolding remove_artifacts
    lookup-remove_artifacts d sum none = refl
    lookup-remove_artifacts d sum (some m) =
        lookup-try_remove_at _ (manifest_copy c x s m) (copy_apart m)
        ∙ lookup-try_remove_at d (to_option (torrent_path s m.info_hash))
            (torrent_apart m.info_hash)

    lookup-drop_entry :
        (d : Disk) (id : Bytes) (o : Option (Index × List Warning))
        → lookup q (drop_entry c x s d id o).0.nodes ≡ lookup q d.nodes
    unfolding drop_entry
    lookup-drop_entry d id none = refl
    lookup-drop_entry d id (some (ix, ws)) =
        let ix' : Index = (Index.remove ix id).0 in
        go ix' refl (save_index x d (local_index_path s) ix') refl
      where
        go :
            (ix' : Index)
            → (Index.remove ix id).0 ≡ ix'
            → (o : Option Disk) → save_index x d (local_index_path s) ix' ≡ o
            → lookup q (drop_entry c x s d id (some (ix, ws))).0.nodes ≡ lookup q d.nodes
        go ix' g none h = ground arith
        go ix' g (some e) h =
            ground
              (arith, lookup-save_index x d e (local_index_path s) q ix' h not_index not_above_root)

    lookup-remove_index_entry :
        (d : Disk) (id : Bytes)
        → lookup q (remove_index_entry c x s d id).0.nodes ≡ lookup q d.nodes
    unfolding remove_index_entry
    lookup-remove_index_entry d id = go (read_file d (local_index_path s)) refl
      where
        go :
            (r : Result IoError Bytes)
            → read_file d (local_index_path s) ≡ r
            → lookup q (remove_index_entry c x s d id).0.nodes ≡ lookup q d.nodes
        go (err e) g = ground arith
        go (ok b) g = ground (arith, lookup-drop_entry d id (Index.parse x.decode b))

    lookup-remove_files :
        (dir : FilePath) (id : Bytes) (d : Disk) (sum : Summary)
        → (remove_files c x s dir id (d, sum)).error ≡ none
        → lookup q (remove_files c x s dir id (d, sum)).disk.nodes
          ≡ (if is_above dir q then none else lookup q d.nodes)
    unfolding remove_files
    lookup-remove_files dir id d sum h = go (remove_all d dir) refl
      where
        go :
            (r : Result IoError Disk)
            → remove_all d dir ≡ r
            → lookup q (remove_files c x s dir id (d, sum)).disk.nodes
              ≡ (if is_above dir q then none else lookup q d.nodes)
        go (err e) g = absurd (ground arith)
        go (ok d') g =
            rw (g, remove_files) (lookup-remove_index_entry d' id ∙ lookup-remove_all d d' dir q g)

  remove_model-remove_files :
      (d : Disk) (id : Bytes) (dir : FilePath)
      → model_dir s id ≡ ok dir
      → is_not_exist (stat d dir) ≡ false
      → remove_model c x s d id
        ≡ remove_files c x s dir id
            (remove_artifacts c x s d (empty_summary id) (stored_manifest c x s d id))
  unfolding remove_model
  remove_model-remove_files d id dir m n = ground (arith, model_dir-valid s id m)

  remove_model-error :
      (d : Disk) (id : Bytes) (dir : FilePath)
      → model_dir s id ≡ ok dir
      → (remove_model c x s d id).error ≡ none
      → is_not_exist (stat d dir) ≡ false
  unfolding remove_model
  remove_model-error d id dir m h = ground (arith, model_dir-valid s id m)

  -- After a removal with no error every path at or below the model's directory is gone, and every
  -- other path below the directory of all models holds what it held.
  pub lookup-remove_model :
      (d : Disk) (id : Bytes) (dir q t : FilePath)
      → model_dir s id ≡ ok dir
      → (remove_model c x s d id).error ≡ none
      → q ≡ s.root ++ codes "store" ∷ t
      → lookup q (remove_model c x s d id).disk.nodes
        ≡ (if is_above dir q then none else lookup q d.nodes)
  lookup-remove_model d id dir q t m h i =
      let e = remove_model-remove_files d id dir m (remove_model-error d id dir m h) in
      let p = remove_artifacts c x s d (empty_summary id) (stored_manifest c x s d id) in
      rw e (
        lookup-remove_files q (t, i) dir id p.0 p.1 (rw e at h)
        ∙ rw (lookup-remove_artifacts q (t, i) d (empty_summary id) (stored_manifest c x s d id)))

  refuses-try_remove_at :
      (d : Disk) (o : Option FilePath) → (try_remove_at d o).0.refuses ≡ d.refuses
  unfolding try_remove_at try_remove remove
  refuses-try_remove_at d none = refl
  refuses-try_remove_at d (some p) = ground arith

  refuses-remove_artifacts :
      (d : Disk) (sum : Summary) (o : Option Manifest)
      → (remove_artifacts c x s d sum o).0.refuses ≡ d.refuses
  unfolding remove_artifacts
  refuses-remove_artifacts d sum none = refl
  refuses-remove_artifacts d sum (some m) =
      refuses-try_remove_at _ (manifest_copy c x s m)
      ∙ refuses-try_remove_at d (to_option (torrent_path s m.info_hash))

  remove_files-error :
      (dir : FilePath) (id : Bytes) (d : Disk) (sum : Summary)
      → d.refuses dir ≡ false
      → (remove_files c x s dir id (d, sum)).error ≡ none
  unfolding remove_files remove_all
  remove_files-error dir id d sum r = ground arith

  -- A model whose directory is there, and that the system lets be deleted, is removed with no error,
  -- whatever else of it is missing or broken.
  pub remove_model_succeeds :
      (d : Disk) (id : Bytes) (dir : FilePath)
      → model_dir s id ≡ ok dir
      → is_not_exist (stat d dir) ≡ false
      → d.refuses dir ≡ false
      → (remove_model c x s d id).error ≡ none
  remove_model_succeeds d id dir m n r =
      let sum = empty_summary id in
      let mm = stored_manifest c x s d id in
      let p = remove_artifacts c x s d sum mm in
      rw (remove_model-remove_files d id dir m n)
        (remove_files-error dir id p.0 p.1 (rw (refuses-remove_artifacts d sum mm) r))

  -- For an owner of the documented form, removing the id `owner/..` succeeds if the directory of
  -- all models exists and may be deleted; it deletes that directory with every model of every
  -- owner.
  pub remove_dotdot_wipes :
      (d : Disk) (owner : Bytes)
      → owner_re owner ≡ true
      → is_not_exist (stat d (store_dir s)) ≡ false
      → d.refuses (store_dir s) ≡ false
      → ((remove_model c x s d (owner ++ codes "/..")).error ≡ none)
        × ((t : FilePath)
            → lookup
                (s.root ++ codes "store" ∷ t)
                (remove_model c x s d (owner ++ codes "/..")).disk.nodes
              ≡ none)
  remove_dotdot_wipes d owner o n r =
      let id = owner ++ codes "/.." in
      let m = (model_dir_dotdot s owner o).1 in
      let h = remove_model_succeeds d id (store_dir s) m n r in
      (
        h,
        λ t.
            lookup-remove_model d id (store_dir s) (s.root ++ codes "store" ∷ t) t m h refl
            ∙ rw (below_store t),
      )
    where
      below_store : (t : FilePath) → is_above (store_dir s) (s.root ++ codes "store" ∷ t) ≡ true
      below_store t =
          rw (store_dir_lem s, ← append_assoc s.root (codes "store" ∷ []) t)
            (is_above-append (s.root ++ codes "store" ∷ []) t)
