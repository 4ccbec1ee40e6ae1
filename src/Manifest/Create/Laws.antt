-- ===== src/Manifest/Create/Laws.antt =====
-- A manifest that `Create` returns is valid, describes what is on the disk, and has an infohash
-- that only depends on the content.
use llmp2p.Common.{
  ℕ, true, List, [], ◌∷◌, map, Option, none, some, Result, ok, err, check, ◌≡◌, refl, ap, sym, ◌∙◌,
  arith, All, length, >>=-eq-ok, ok-injective,
}
use llmp2p.Common.Int.{pos, int_eq_iff}
use llmp2p.Common.Bytes.{Bytes, class_between}
use llmp2p.Common.Bytes.Hex.{length-hex_encode, all_bytes-hex_encode}
use llmp2p.Common.Disk.{
  FilePath, join_path, IoError, Node, file, dir, Disk, stat, read_file, read_node,
}
use llmp2p.Common.Disk.Laws.{stat_of_read_file}
use llmp2p.Manifest.{
  File, Manifest, schema_v1, default_piece_length, info_re, validate_content, validate,
}
use llmp2p.Manifest.Content.{validate_iff, validate_content_iff}
use llmp2p.Manifest.Verify.{node_size, hash_file, HasContent, verify_dir, verify_dir_iff}
use llmp2p.Manifest.Create.{
  Info, Torrents, IsLawful, torrent_name, file_info, open_files, build_info, info_hash_of,
  hash_entry, hash_entries, create,
}

check-eq-ok : {E : Type 0} (o : Option E) {u : Unit {0}} → check o ≡ ok u → o ≡ none
check-eq-ok none h = refl
check-eq-ok (some e) h = cc

module _ (sha256_sum : Bytes → Bytes) (t : Torrents) where
  -- The manifest that `Create` builds before it knows the infohash.
  abbrev draft : ℕ → Bytes → Bytes → List File → Manifest
  draft now model revision files = record {
    schema = schema_v1;
    model = model;
    revision = revision;
    created_at = now;
    piece_length = default_piece_length;
    info_hash = [];
    files = files;
  }

  record Created (now : ℕ) (model revision : Bytes) (entries : List File) (d : Disk)
      (root : FilePath) (m : Manifest) : Type 0 where
    files : List File
    info : Info
    hashed : hash_entries sha256_sum t d root entries ≡ ok files
    built : build_info sha256_sum t d root (draft now model revision files) ≡ ok info
    is_filled :
        m ≡ record (draft now model revision files) { info_hash = info_hash_of sha256_sum t info }

  module _ (now : ℕ) (model revision : Bytes) (entries : List File) (d : Disk)
      (root : FilePath) where
    create-Created :
        {m : Manifest}
        → create sha256_sum t now model revision entries d root ≡ ok m
        → Created now model revision entries d root m
    unfolding create
    create-Created h =
        let (files, eh, h1) = >>=-eq-ok (hash_entries sha256_sum t d root entries) _ h in
        let (info, eb, h2) =
          >>=-eq-ok (build_info sha256_sum t d root (draft now model revision files)) _ h1 in
        record { files = files; info = info; hashed = eh; built = eb; is_filled = cc }

  build_info-validate_content :
      (d : Disk) (root : FilePath) (m : Manifest) {info : Info}
      → build_info sha256_sum t d root m ≡ ok info
      → validate_content m ≡ none
  unfolding build_info
  build_info-validate_content d root m h = ground arith

  build_info_any_hash :
      (d : Disk) (root : FilePath) (m : Manifest) (x : Bytes)
      → build_info sha256_sum t d root (record m { info_hash = x })
        ≡ build_info sha256_sum t d root m
  unfolding build_info validate_content
  build_info_any_hash d root m x = refl

  validate_content_any_hash :
      (m : Manifest) (x : Bytes)
      → validate_content (record m { info_hash = x }) ≡ validate_content m
  unfolding validate_content
  validate_content_any_hash m x = refl

  info_hash_of-info_re : IsLawful t → (i : Info) → info_re (info_hash_of sha256_sum t i) ≡ true
  unfolding info_re class_between info_hash_of
  info_hash_of-info_re l i =
      let b = t.sha1_sum (t.info_bytes i) in
      ground (
        arith,
        length-hex_encode b,
        all_bytes-hex_encode b (l.sum_bytes (t.info_bytes i)),
        l.sum_length (t.info_bytes i),
      )

  module _ (now : ℕ) (model revision : Bytes) (entries : List File) (d : Disk) (root : FilePath)
      {m : Manifest} where
    Created-validate :
        (l : IsLawful t) → Created now model revision entries d root m → validate m ≡ none
    Created-validate l c = rw c.is_filled (
        (validate_iff _).1 (
          (validate_content_iff _).0 (
              validate_content_any_hash (draft now model revision c.files) _
              ∙ build_info-validate_content d root _ c.built),
          info_hash_of-info_re l c.info,
        ))

    -- A manifest that `Create` returns passes `Validate`, where SHA-1 sums have 20 bytes.
    pub create-validate :
        IsLawful t
        → create sha256_sum t now model revision entries d root ≡ ok m
        → validate m ≡ none
    create-validate l h = Created-validate l (create-Created now model revision entries d root h)

  hash_entry-HasContent :
      (d : Disk) (root : FilePath) (e : File) {f : File}
      → hash_entry sha256_sum t d root e ≡ ok f
      → HasContent sha256_sum d root f
  unfolding hash_entry hash_file node_size read_file read_node
  hash_entry-HasContent d root e {f} h = go (stat d (join_path root e.path)) refl
    where
      go :
          (r : Result IoError Node)
          → stat d (join_path root e.path) ≡ r
          → HasContent sha256_sum d root f
      go (ok (file b)) q =
          (b, ground arith, ground (arith, int_eq_iff (pos (length b)) e.size), ground arith)
      go (ok dir) q = absurd (ground arith)
      go (err x) q = absurd (ground arith)

  hash_entries-HasContent :
      (d : Disk) (root : FilePath) (es : List File) {fs : List File}
      → hash_entries sha256_sum t d root es ≡ ok fs
      → All (HasContent sha256_sum d root) fs
  unfolding hash_entries
  hash_entries-HasContent d root [] h = rw (← ok-injective h) tt
  hash_entries-HasContent d root (e ∷ es) h =
      let (f, ef, h1) = >>=-eq-ok (hash_entry sha256_sum t d root e) _ h in
      let (fs, es', h2) = >>=-eq-ok (hash_entries sha256_sum t d root es) _ h1 in
      rw (← ok-injective h2)
        (hash_entry-HasContent d root e ef, hash_entries-HasContent d root es es')

  -- What `Create` describes is on the disk: `VerifyDir` passes right after it.
  pub create-verify_dir :
      (now : ℕ) (model revision : Bytes) (entries : List File) (d : Disk) (root : FilePath)
      {m : Manifest}
      → create sha256_sum t now model revision entries d root ≡ ok m
      → verify_dir sha256_sum d root m ≡ none
  create-verify_dir now model revision entries d root {m} h =
      let c = create-Created now model revision entries d root h in
      (verify_dir_iff sha256_sum d root m).1
        (rw c.is_filled (hash_entries-HasContent d root entries c.hashed))

  -- Two places hold the same content for these entries.
  abbrev pub SameContent : Disk → FilePath → Disk → FilePath → List File → Type 0
  SameContent d root d' root' =
      All (λ e. read_file d (join_path root e.path) ≡ read_file d' (join_path root' e.path))

  hash_entry-read_file :
      (d : Disk) (root : FilePath) (e : File) {f : File}
      → hash_entry sha256_sum t d root e ≡ ok f
      → (b : Bytes) × (read_file d (join_path root e.path) ≡ ok b) × (f.path ≡ e.path)
  unfolding hash_entry
  hash_entry-read_file d root e {f} h =
      let (b, q, _, _) = hash_entry-HasContent d root e h in
      let same : f.path ≡ e.path = ground arith in (b, rw same at q, same)

  hash_entry_same :
      (d d' : Disk) (root root' : FilePath) (e : File) {f : File}
      → read_file d (join_path root e.path) ≡ read_file d' (join_path root' e.path)
      → hash_entry sha256_sum t d root e ≡ ok f
      → hash_entry sha256_sum t d' root' e ≡ ok f
  unfolding hash_entry hash_file
  hash_entry_same d d' root root' e s h =
      let (b, q, _) = hash_entry-read_file d root e h in
      ground (
        arith,
        stat_of_read_file d (join_path root e.path) b q,
        stat_of_read_file d' (join_path root' e.path) b (sym s ∙ q),
      )

  hash_entries_same :
      (d d' : Disk) (root root' : FilePath) (es : List File) {fs : List File}
      → SameContent d root d' root' es
      → hash_entries sha256_sum t d root es ≡ ok fs
      → (hash_entries sha256_sum t d' root' es ≡ ok fs) × SameContent d root d' root' fs
  unfolding hash_entries
  hash_entries_same d d' root root' [] s h = (h, rw (← ok-injective h) tt)
  hash_entries_same d d' root root' (e ∷ es) {fs} s h =
      let (f, ef, h1) = >>=-eq-ok (hash_entry sha256_sum t d root e) _ h in
      let (gs, eg, h2) = >>=-eq-ok (hash_entries sha256_sum t d root es) _ h1 in
      let (q, r) = hash_entries_same d d' root root' es s.1 eg in
      let (_, _, same) = hash_entry-read_file d root e ef in
      (rw (hash_entry_same d d' root root' e s.0 ef, q) h2, rw (← ok-injective h2) (rw same s.0, r))

  open_files_same :
      (d d' : Disk) (root root' : FilePath) (fs : List File)
      → SameContent d root d' root' fs
      → open_files d root (map file_info fs) ≡ open_files d' root' (map file_info fs)
  unfolding open_files file_info join_path
  open_files_same d d' root root' [] s = refl
  open_files_same d d' root root' (f ∷ fs) s = rw (s.0, open_files_same d d' root root' fs s.1)

  build_info_same :
      (d d' : Disk) (root root' : FilePath) (m m' : Manifest) {info info' : Info}
      → m.piece_length ≡ m'.piece_length
      → torrent_name m.model ≡ torrent_name m'.model
      → m.files ≡ m'.files
      → open_files d root (map file_info m.files) ≡ open_files d' root' (map file_info m'.files)
      → build_info sha256_sum t d root m ≡ ok info
      → build_info sha256_sum t d' root' m' ≡ ok info'
      → info ≡ info'
  unfolding build_info
  build_info_same d d' root root' m m' p n f o h h' = ground arith

  -- Two manifests that `Create` returns for the same entries and the same content, and for
  -- repositories of the same base name, have the same files and the same infohash, whatever the
  -- disks, the directories, the owners, the revisions and the times.
  pub create_same_swarm :
      (now now' : ℕ) (model model' revision revision' : Bytes) (entries : List File) (d d' : Disk)
      (root root' : FilePath) {m m' : Manifest}
      → torrent_name model ≡ torrent_name model'
      → SameContent d root d' root' entries
      → create sha256_sum t now model revision entries d root ≡ ok m
      → create sha256_sum t now' model' revision' entries d' root' ≡ ok m'
      → (m.files ≡ m'.files) × (m.info_hash ≡ m'.info_hash)
  create_same_swarm now now' model model' revision revision' entries d d' root root' n s h h' =
      let c = create-Created now model revision entries d root h in
      let c' = create-Created now' model' revision' entries d' root' h' in
      let (q, r) = hash_entries_same d d' root root' entries s c.hashed in
      let same_files : c.files ≡ c'.files = ok-injective (sym q ∙ c'.hashed) in
      let same_info : c.info ≡ c'.info =
        build_info_same d d' root root' (draft now model revision c.files)
          (draft now' model' revision' c'.files) refl n same_files
          (open_files_same d d' root root' c.files r
            ∙ ap (λ fs. open_files d' root' (map file_info fs)) same_files)
          c.built c'.built in
      (
        ap (λ (x : Manifest). x.files) c.is_filled
            ∙ same_files
            ∙ sym (ap (λ (x : Manifest). x.files) c'.is_filled),
        ap (λ (x : Manifest). x.info_hash) c.is_filled
            ∙ ap (info_hash_of sha256_sum t) same_info
            ∙ sym (ap (λ (x : Manifest). x.info_hash) c'.is_filled),
      )
