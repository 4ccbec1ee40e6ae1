-- ===== src/Pull.antt =====
-- internal/pull/pull.go, with internal/signing: how a pull decides what to do.
-- The libraries are the records that the components take; `Environment` adds the network, ed25519, the
-- sidecar's JSON, the base64 of the key file, and the nodes that records are put to (if the DHT is on).
-- Log lines, progress reports, cancellation and the lock are left out.
pub mod Origins
pub mod Announce
pub mod Publish
pub mod Http
pub mod Swarm
pub mod Discover
pub mod Run
pub mod Laws
use llmp2p.Common.{
  ℕ, Bool, true, false, not, ◌&&◌, ◌||◌, List, [], ◌∷◌, ◌++◌, Option, none, some, Result, ok, err,
  ◌>>=◌, wrap_err, if◌then◌else◌, ◌==◌, length,
}
use llmp2p.Common.Int.{ℤ}
use llmp2p.Common.Bytes.{Bytes, equal}
use llmp2p.Common.Bytes.Hex.{hex_decode}
use llmp2p.Common.Disk.{FilePath, IoError, Disk}
use llmp2p.Manifest.{Manifest, ManifestError}
use llmp2p.Manifest.Codec.{Codec, LoadError, load}
use llmp2p.Manifest.Verify.{VerifyError, verify_dir}
use llmp2p.Manifest.Create.{Torrents, CreateError}
use llmp2p.Index.Fetch.{Response}
use llmp2p.Hf.{FileInfo, HfError}
use llmp2p.Dht.{GetError, KeyError}
use llmp2p.Dht.Publisher.{SeqCodec, PutTo}
use llmp2p.Hf.Download.{DownloadError}
use llmp2p.Store.{Store, StoreError, model_manifest_file}
use llmp2p.Store.Remove.{IndexCodec}

-- `manifestSignature`
pub record Sidecar : Type 0 where
  pub manifest_sha256 : Bytes
  pub signature : Bytes
  pub public_key : Bytes

pub record Environment : Type 0 where
  pub codec : Codec
  pub torrents : Torrents
  pub index_codec : IndexCodec
  pub web : Bytes → Response
  pub decode_sidecar : Bytes → Option Sidecar
  pub ed25519_verify : Bytes → Bytes → Bytes → Bool
  pub encode_sidecar : Sidecar → Option Bytes
  pub decode_key : Bytes → Option Bytes
  pub ed25519_sign : Bytes → Bytes → Bytes
  pub ed25519_public : Bytes → Bytes
  pub seq_codec : SeqCodec
  pub put_nodes : Option (List PutTo)

pub data PullError : Type 0 where
  store_failed : StoreError → PullError
  load_failed : LoadError → PullError
  io : IoError → PullError
  corrupt : VerifyError → PullError
  unreachable bad_sidecar unsigned bad_signature : PullError
  unknown_signer no_such_file : Bytes → PullError
  download_failed : Bytes → DownloadError → PullError
  create_failed : CreateError → PullError
  wrong_oid : Bytes → PullError
  no_record : GetError → PullError
  bad_key : ℕ → KeyError → PullError
  other_revision : Bytes → PullError
  origins_failed no_entry no_swarm_data dht_off : PullError
  bad_manifest : ManifestError → PullError
  unresolved : HfError → PullError

-- `Result`, without the mode
pub record Pulled : Type 0 where
  pub model : Bytes
  pub revision : Bytes
  pub files : ℕ
  pub size : ℤ
  pub info_hash : Bytes
  pub manifest_sha256 : Bytes

-- `filterPath`
unfoldable pub filter_path : List FileInfo → Bytes → List FileInfo
filter_path [] path = []
filter_path (f ∷ fs) path =
    let rest = filter_path fs path in if equal f.path path then f ∷ [] else rest

-- the files that `Run` asks for: those of the reference's path, or all
unfoldable pub requested : List FileInfo → Bytes → Result PullError (List FileInfo)
requested files [] = ok files
requested files (c ∷ path) = elim (filter_path files (c ∷ path)) [
  | [] ↦ err (no_such_file (c ∷ path))
  | f ∷ fs ↦ ok (f ∷ fs)
]

-- the end of `checkCache`, on a manifest that was loaded
unfoldable pub check_cached :
    (Bytes → Bytes) → Disk → Bytes → FilePath → Manifest → Result PullError (Option Manifest)
check_cached sha256_sum d revision dir m =
    if not (equal m.revision revision)
    then ok none
    else elim (verify_dir sha256_sum d dir m) [ some e ↦ err (corrupt e) | none ↦ ok (some m) ]

-- `checkCache`
unfoldable pub check_cache :
    Codec → Store → Disk → Bytes → Bytes → FilePath → Result PullError (Option Manifest)
check_cache c s d model revision dir = elim (model_manifest_file s model) [
  | err e ↦ err (store_failed e)
  | ok p ↦ elim (load c d p) [ err e ↦ ok none | ok m ↦ check_cached c.sha256_sum d revision dir m ]
]

-- `signing.Verify`
unfoldable pub is_signature : Option Bytes → Option Bytes → (Bytes → Bytes → Bool) → Bool
is_signature none signature verify = false
is_signature (some key) none verify = false
is_signature (some key) (some signature) verify =
    length key == 32 && length signature == 64 && verify key signature

unfoldable pub verify_hex : (Bytes → Bytes → Bytes → Bool) → Bytes → Bytes → Bytes → Bool
verify_hex ed25519_verify key signature content =
    is_signature (hex_decode key) (hex_decode signature) (λ k s. ed25519_verify k content s)
