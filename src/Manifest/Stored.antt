-- ===== src/Manifest/Stored.antt =====
-- A model as it lies in its directory: the manifest next to the files that it describes.
use llmp2p.Common.{
  [], ◌∷◌, ◌++◌, none, some, ok, ◌≡◌, ◌↔◌, arith, All, >>=-eq-ok, wrap_err, wrap_err-eq-ok,
}
use llmp2p.Common.Bytes.{Bytes, codes}
use llmp2p.Common.Disk.{FilePath, Disk, read_file}
use llmp2p.Manifest.{Manifest, validate}
use llmp2p.Manifest.Codec.{Codec, io, invalid, parse, load}
use llmp2p.Manifest.Verify.{HasContent, verify_dir, verify_dir_iff}

abbrev pub manifest_in : FilePath → FilePath
manifest_in dir = dir ++ codes ".llmp2p-manifest.json" ∷ []

module _ (c : Codec) (d : Disk) where
  -- A file that decodes to the manifest, which is valid.
  pub record IsManifestFile (p : FilePath) (m : Manifest) : Type 0 where
    pub contents : Bytes
    pub is_read : read_file d p ≡ ok contents
    pub is_decoded : c.decode contents ≡ some m
    pub is_valid : validate m ≡ none

  -- The directory holds the manifest, and every file that it lists, with its size and its digest.
  pub record IsStored (dir : FilePath) (m : Manifest) : Type 0 where
    pub manifest_file : IsManifestFile (manifest_in dir) m
    pub has_files : All (HasContent c.sha256_sum d dir) m.files

  parse-eq-ok :
      (b : Bytes) {m : Manifest} → parse c b ≡ ok m → (c.decode b ≡ some m) × (validate m ≡ none)
  unfolding parse
  parse-eq-ok b h = ground arith

  parse_lem :
      (b : Bytes) (m : Manifest) → c.decode b ≡ some m → validate m ≡ none → parse c b ≡ ok m
  unfolding parse
  parse_lem b m h v = ground arith

  load_iff : (p : FilePath) (m : Manifest) → (load c d p ≡ ok m) ↔ IsManifestFile p m
  unfolding load
  load_iff p m = (
    λ h.
        let (b, e, q) =
          >>=-eq-ok (wrap_err io (read_file d p)) (λ b. wrap_err invalid (parse c b)) h in
        let (x, y) = parse-eq-ok b (wrap_err-eq-ok invalid (parse c b) q) in
        record {
          contents = b;
          is_read = wrap_err-eq-ok io (read_file d p) e;
          is_decoded = x;
          is_valid = y;
        },
    λ i. rw (i.is_read, parse_lem i.contents m i.is_decoded i.is_valid),
  )

  -- `Load` and `VerifyDir` succeed together exactly if the model is stored.
  pub load_verified_iff :
      (dir : FilePath) (m : Manifest)
      → ((load c d (manifest_in dir) ≡ ok m) × (verify_dir c.sha256_sum d dir m ≡ none))
        ↔ IsStored dir m
  load_verified_iff dir m = (
    λ h. record {
      manifest_file = (load_iff (manifest_in dir) m).0 h.0;
      has_files = (verify_dir_iff c.sha256_sum d dir m).0 h.1;
    },
    λ i. (
      (load_iff (manifest_in dir) m).1 i.manifest_file,
      (verify_dir_iff c.sha256_sum d dir m).1 i.has_files,
    ),
  )
