-- ===== src/Cli/Keys.antt =====
-- internal/cli/pull.go: `resolveSwarmKey`; keygen.go, with internal/signing: `LoadOrCreate`.
-- base64 and ed25519 are parameters, as is the seed that `GenerateKey` makes.
pub mod Laws
use llmp2p.Common.{
  ℕ, Bool, true, false, not, ◌&&◌, ◌||◌, List, [], ◌∷◌, ◌++◌, Option, none, some, Result, ok, err,
  ◌>>=◌, if◌then◌else◌, ◌==◌, leb, length,
}
use llmp2p.Common.Bytes.{Bytes, codes, all_bytes, cut_prefix, is_digit, is_space, trim_by}
use llmp2p.Common.Bytes.Hex.{hex_encode}
use llmp2p.Common.Disk.{FilePath, IoError, not_exist, Disk, read_file, write_file}
use llmp2p.Store.{Store}
use llmp2p.Store.Remove.{is_not_exist}
use llmp2p.Pull.Announce.{key_path}
use llmp2p.Cli.{CliError, key_file_failed, bad_swarm_key, bad_key_file, entropy_failed}

-- `isHexKey`
unfoldable pub is_hex_byte : ℕ → Bool
is_hex_byte c = is_digit c || ((leb b'a' c && leb c b'f') || (leb b'A' c && leb c b'F'))

unfoldable pub is_hex_key : Bytes → Bool
is_hex_key s = all_bytes is_hex_byte s

-- the text of the key: inline, or in a file
unfoldable pub swarm_key_text : (Bytes → FilePath) → Disk → Bytes → Result CliError Bytes
swarm_key_text path_of d v = elim (cut_prefix v (codes "@")) [
  | none ↦ ok v
  | some p ↦ elim (read_file d (path_of p)) [
    | err e ↦ err (key_file_failed e)
    | ok b ↦ ok (trim_by is_space b)
  ]
]

unfoldable pub check_swarm_key : Bytes → Result CliError Bytes
check_swarm_key key =
    if not (length key == 64) || not (is_hex_key key) then err (bad_swarm_key key) else ok key

-- `resolveSwarmKey`
unfoldable pub resolve_swarm_key : (Bytes → FilePath) → Disk → Bytes → Result CliError Bytes
resolve_swarm_key path_of d v = swarm_key_text path_of d v >>= check_swarm_key

-- encoding/base64, and crypto/ed25519 with the next seed of crypto/rand
pub record KeyLibrary : Type 0 where
  pub encode : Bytes → Bytes
  pub decode : Bytes → Option Bytes
  pub generate : Option Bytes
  pub public_key : Bytes → Bytes

module _ (l : KeyLibrary) where
  -- the seed that a key file holds
  unfoldable pub seed_of : FilePath → Bytes → Result CliError Bytes
  seed_of p b = elim (l.decode (trim_by is_space b)) [
    | none ↦ err (bad_key_file p)
    | some seed ↦ if not (length seed == 32) then err (bad_key_file p) else ok seed
  ]

  unfoldable pub create_key : FilePath → Disk → Result CliError (Bytes × Bool × Disk)
  create_key p d = elim l.generate [
    | none ↦ err entropy_failed
    | some seed ↦ elim (write_file d p (l.encode seed ++ 10 ∷ [])) [
      | err e ↦ err (key_file_failed e)
      | ok f ↦ ok (seed, true, f)
    ]
  ]

  -- `LoadOrCreate`: the seed of the key, whether it is new, and the disk
  unfoldable pub load_or_create : FilePath → Disk → Result CliError (Bytes × Bool × Disk)
  load_or_create p d = elim (read_file d p) [
    | ok b ↦ seed_of p b >>= λ seed. ok (seed, false, d)
    | err e ↦ if is_not_exist (read_file d p) then create_key p d else err (key_file_failed e)
  ]

  -- `PublicKeyHex`
  unfoldable pub public_key_hex : Bytes → Bytes
  public_key_hex seed = hex_encode (l.public_key seed)

  -- `keygen`: whether the key is new, the public key that is printed, and the disk
  unfoldable pub keygen : Store → Disk → Result CliError (Bool × Bytes × Disk)
  keygen s d = load_or_create (key_path s) d >>= λ r. ok (r.1, public_key_hex r.0, r.2)
