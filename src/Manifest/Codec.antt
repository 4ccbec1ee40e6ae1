-- ===== src/Manifest/Codec.antt =====
-- The encodings of a manifest: `Bytes`, `SHA256`, `Parse`, `Save` and `Load`.
-- encoding/json and crypto/sha256 are the parameter `Codec`.
use llmp2p.Common.{
  ◌<◌, Bool, true, Option, none, some, Result, ok, err, ◌>>=◌, ◌>>◌, check, wrap_err, ◌≡◌, arith,
  All, length, ltb, >>=-eq-ok, wrap_err-eq-ok,
}
use llmp2p.Common.Bytes.{Bytes, all_bytes}
use llmp2p.Common.Bytes.Hex.{hex_encode}
use llmp2p.Common.Disk.{FilePath, IoError, Disk, read_file, write_file, mkdir_all, parent}
use llmp2p.Common.Disk.Laws.{read_file-write_file}
use llmp2p.Manifest.{Manifest, ManifestError, decode_failed, validate}

-- `json.Marshal`, which may fail, `json.Unmarshal`, and the 32 bytes of `sha256.Sum256`.
pub record Codec : Type 0 where
  pub encode : Manifest → Option Bytes
  pub decode : Bytes → Option Manifest
  pub sha256_sum : Bytes → Bytes

pub data LoadError : Type 0 where
  io : IoError → LoadError
  invalid : ManifestError → LoadError
  encode_failed : LoadError

abbrev is_ascii : Bytes → Bool
is_ascii = all_bytes (λ c. ltb c 128)

-- Texts that JSON carries unchanged. (Go replaces bytes that are no UTF-8.)
pub record IsText (m : Manifest) : Type 0 where
  pub schema_text : is_ascii m.schema ≡ true
  pub model_text : is_ascii m.model ≡ true
  pub revision_text : is_ascii m.revision ≡ true
  pub info_hash_text : is_ascii m.info_hash ≡ true
  pub files_text : All (λ f. (is_ascii f.path ≡ true) × (is_ascii f.sha256 ≡ true)) m.files

-- What encoding/json and crypto/sha256 promise.
pub record IsLawful (c : Codec) : Type 0 where
  pub decode_encode :
      (m : Manifest) (b : Bytes) → IsText m → c.encode m ≡ some b → c.decode b ≡ some m
  pub sum_length : (b : Bytes) → length (c.sha256_sum b) ≡ 32
  pub sum_bytes : (b : Bytes) → All (λ x. x < 256) (c.sha256_sum b)

unfoldable pub save_bytes : Disk → FilePath → Bytes → Result LoadError Disk
save_bytes d p b = do e ← wrap_err io (mkdir_all d (parent p)); wrap_err io (write_file e p b)

module _ (c : Codec) where
  -- `(*Manifest).Bytes`
  unfoldable pub bytes : Manifest → Result LoadError Bytes
  bytes m = elim (c.encode m) [ none ↦ err encode_failed | some b ↦ ok b ]

  -- `(*Manifest).SHA256`
  unfoldable pub digest : Manifest → Result LoadError Bytes
  unfolding bytes
  digest m = do b ← bytes m; ok (hex_encode (c.sha256_sum b))

  -- `Parse`
  unfoldable pub parse : Bytes → Result ManifestError Manifest
  parse b = elim (c.decode b) [ none ↦ err decode_failed | some m ↦ check (validate m) >> ok m ]

  -- `Load`
  unfoldable pub load : Disk → FilePath → Result LoadError Manifest
  load d p = do b ← wrap_err io (read_file d p); wrap_err invalid (parse b)

  -- `(*Manifest).Save`
  unfoldable pub save : Disk → FilePath → Manifest → Result LoadError Disk
  save d p m = bytes m >>= save_bytes d p

  -- `Parse` only returns manifests that `Validate` accepts.
  pub parse-validate : (b : Bytes) {m : Manifest} → parse b ≡ ok m → validate m ≡ none
  unfolding parse
  parse-validate b h = ground arith

  pub load-validate : (d : Disk) (p : FilePath) {m : Manifest} → load d p ≡ ok m → validate m ≡ none
  unfolding load
  load-validate d p h =
      let (b, e, q) = >>=-eq-ok (wrap_err io (read_file d p)) (λ b. wrap_err invalid (parse b)) h in
      parse-validate b (wrap_err-eq-ok invalid (parse b) q)

  module _ (l : IsLawful c) (m : Manifest) (v : validate m ≡ none) (t : IsText m) where
    -- A valid manifest of plain text is read back from its canonical encoding.
    pub parse-bytes : (b : Bytes) → bytes m ≡ ok b → parse b ≡ ok m
    unfolding bytes parse
    parse-bytes b h = ground (arith, l.decode_encode m b)

    -- A valid manifest of plain text that was saved to a file is loaded from it unchanged.
    pub load-save : (d e : Disk) (p : FilePath) → save d p m ≡ ok e → load e p ≡ ok m
    unfolding save save_bytes load
    load-save d e p h =
        let (b, eb, h1) = >>=-eq-ok (bytes m) (save_bytes d p) h in
        let (d', ed, h2) =
          >>=-eq-ok (wrap_err io (mkdir_all d (parent p))) (λ f. wrap_err io (write_file f p b))
            h1 in
        let r = read_file-write_file d' e p b (wrap_err-eq-ok io (write_file d' p b) h2) in
        rw (r, parse-bytes b eb)
