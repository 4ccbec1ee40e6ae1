-- ===== src/Pull/Announce.antt =====
-- `signManifest`, with `LoadOrCreate` of internal/signing, and `publishToDHT` of internal/pull/dht.go.
-- Both only log their errors, so that each is a function of the disk. The key file was found by
-- `stat` before it is read, so that no key is created.
use llmp2p.Common.{
  ℕ, List, [], ◌∷◌, ◌++◌, Option, none, some, ok, err, if◌then◌else◌, ◌==◌, ltb, length, to_option,
}
use llmp2p.Common.Int.{ℤ}
use llmp2p.Common.Bytes.{Bytes, codes}
use llmp2p.Common.Bytes.Hex.{hex_encode, hex_decode}
use llmp2p.Common.Disk.{FilePath, join_path, Disk, stat, read_file, write_file}
use llmp2p.Manifest.{Manifest}
use llmp2p.Manifest.Codec.{bytes, digest}
use llmp2p.Dht.{Record, max_embedded_manifest}
use llmp2p.Dht.Publisher.{PutTo, SeqState, load_seq_state, put_record}
use llmp2p.Store.{Store, signature_path}
use llmp2p.Store.Remove.{is_not_exist}
use llmp2p.Pull.{Environment}

unfoldable pub is_length : ℕ → Option Bytes → Option Bytes
is_length n none = none
is_length n (some b) = if length b == n then some b else none

-- `filepath.Join(opts.Store.Root(), signing.DefaultKeyFile)`
unfoldable pub key_path : Store → FilePath
key_path s = join_path s.root (codes "publisher.key")

unfoldable pub both : Option Bytes → Option Bytes → Option (Bytes × Bytes)
both (some a) (some b) = some (a, b)
both _ _ = none

module _ (v : Environment) (s : Store) where
  -- the key that `LoadOrCreate` reads from the file, if there is one
  unfoldable pub load_key : Disk → Option Bytes
  load_key d =
      if is_not_exist (stat d (key_path s))
      then none
      else elim (read_file d (key_path s)) [ err e ↦ none | ok b ↦ is_length 32 (v.decode_key b) ]

  unfoldable pub write_sidecar : Disk → FilePath → Option Bytes → Disk
  write_sidecar d p none = d
  write_sidecar d p (some b) = elim (write_file d p (b ++ 10 ∷ [])) [ err e ↦ d | ok f ↦ f ]

  -- the sidecar is made and written
  unfoldable pub write_signature : Disk → Bytes → Bytes → Bytes → Disk
  write_signature d key sha canonical = elim (signature_path s sha) [
    | err e ↦ d
    | ok p ↦ write_sidecar d p (
        v.encode_sidecar (record {
          manifest_sha256 = sha;
          signature = hex_encode (v.ed25519_sign key canonical);
          public_key = hex_encode (v.ed25519_public key);
        }))
  ]

  -- `signManifest`
  unfoldable pub sign_manifest : Disk → Manifest → Disk
  sign_manifest d m = elim (load_key d) [
    | none ↦ d
    | some key ↦ elim (both (to_option (digest v.codec m)) (to_option (bytes v.codec m))) [
      | none ↦ d
      | some p ↦ write_signature d key p.0 p.1
    ]
  ]

  -- the loop over the nodes, until one takes the record
  unfoldable pub put_loop : Bytes → SeqState → Disk → Bytes → Record → List PutTo → Disk
  put_loop key t d model r [] = d
  put_loop key t d model r (node ∷ nodes) =
      let p = put_record v.seq_codec v.codec.sha256_sum key node t d model r in
      elim p.2 [ none ↦ p.1 | some e ↦ put_loop key p.0 p.1 model r nodes ]

  -- `manifestBytes = nil` above the cap
  unfoldable pub embedded : Bytes → Bytes
  embedded canonical = if ltb max_embedded_manifest (length canonical) then [] else canonical

  -- the record is put to the nodes, with the counters of `dht-seq.json`
  unfoldable pub put_to_nodes :
      Bytes → Disk → List PutTo → Bytes → Bytes → ℤ → Bytes → Bytes × Bytes → Disk
  put_to_nodes key d nodes model revision size canonical (info_hash, sha) =
      put_loop key (load_seq_state v.seq_codec d (join_path s.root (codes "dht-seq.json"))) d model
        (record {
          info_hash = info_hash;
          manifest_sha256 = sha;
          revision = revision;
          size = size;
          manifest = embedded canonical;
        })
        nodes

  -- `publishToDHT`, where the DHT is on: it is `none` otherwise
  unfoldable pub publish_to_dht :
      Disk → Option (List PutTo) → Bytes → Bytes → Bytes → Bytes → ℤ → Bytes → Disk
  publish_to_dht d none model info_hash sha revision size canonical = d
  publish_to_dht d (some nodes) model info_hash sha revision size canonical = elim (load_key d) [
    | none ↦ d
    | some key ↦ elim (both (is_length 20 (hex_decode info_hash)) (is_length 32 (hex_decode sha))) [
      | none ↦ d
      | some p ↦ put_to_nodes key d nodes model revision size canonical p
    ]
  ]
