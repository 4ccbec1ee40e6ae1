-- ===== src/Engine.antt =====
-- internal/engine/engine.go: the torrent client of a pull and of a seeder.
-- The client of anacrolix/torrent is a parameter: what it says of a magnet link and what is seen of a
-- torrent, observation by observation. Where the observations end the context is cancelled.
pub mod Laws
use llmp2p.Common.{
  ℕ, Bool, true, false, not, ◌&&◌, ◌||◌, List, [], ◌∷◌, ◌++◌, Option, none, some, Result, ok, err,
  if◌then◌else◌, ◌==◌, length,
}
use llmp2p.Common.Int.{ℤ, add64, pos}
use llmp2p.Common.Bytes.{Bytes, codes, equal, is_empty, to_lower}
use llmp2p.Common.Bytes.Hex.{hex_encode, hex_decode}

pub data EngineError : Type 0 where
  no_data_dir no_client cancelled interrupted verify_failed not_added : EngineError
  bad_info_hash add_failed : Bytes → EngineError

-- `Progress`
pub record Progress : Type 0 where
  pub completed : ℤ
  pub total : ℤ
  pub peers : ℕ
  pub complete : Bool

-- `Status`
pub record Status : Type 0 where
  pub name : Bytes
  pub info_hash : Bytes
  pub completed : ℤ
  pub total : ℤ
  pub peers : ℤ
  pub complete : Bool
  pub seeding : Bool
  pub downloaded : ℤ
  pub uploaded : ℤ

-- `New`, with what the client library says of the directory
unfoldable pub new_engine : (Bytes → Bool) → Bytes → Option EngineError
new_engine starts data_dir =
    if is_empty data_dir then some no_data_dir else if starts data_dir then none else some no_client

-- `hashFromHex`
unfoldable pub hash_from_hex : Bytes → Result EngineError Bytes
hash_from_hex s = elim (hex_decode s) [
  | none ↦ err (bad_info_hash s)
  | some b ↦ if not (length b == 20) then err (bad_info_hash s) else ok b
]

unfoldable pub magnet_of : Bytes → Bytes
magnet_of info_hash = codes "magnet:?xt=urn:btih:" ++ to_lower info_hash

-- `PrepareMagnet`
unfoldable pub prepare_magnet : (Bytes → Bool) → Bytes → Option EngineError
prepare_magnet add_magnet info_hash =
    if not (length info_hash == 40)
    then some (bad_info_hash info_hash)
    else if add_magnet (magnet_of info_hash)
    then none
    else some (add_failed info_hash)

-- the loop of `pull`: the progress that is reported, and the error
unfoldable pub pull_loop : Progress → List Progress → List Progress × Option EngineError
pull_loop p [] = (p ∷ [], if p.complete then none else some interrupted)
pull_loop p (r ∷ rs) =
    let rest = pull_loop r rs in if p.complete then (p ∷ [], none) else (p ∷ rest.0, rest.1)

-- `pull`; there are no observations where the metadata never comes
unfoldable pub pull : List Progress → List Progress × Option EngineError
pull [] = ([], some cancelled)
pull (p ∷ ps) = pull_loop p ps

-- `PullMagnet`
unfoldable pub pull_magnet :
    (Bytes → Bool) → Bytes → List Progress → List Progress × Option EngineError
pull_magnet add_magnet info_hash ps =
    if not (length info_hash == 40)
    then ([], some (bad_info_hash info_hash))
    else if add_magnet (magnet_of info_hash)
    then pull ps
    else ([], some (add_failed info_hash))

unfoldable pub is_known : List Bytes → Bytes → Bool
is_known [] h = false
is_known (k ∷ ks) h = equal k h || is_known ks h

-- `AddPeers`: the peers that are handed to a torrent of the client
unfoldable pub add_peers : List Bytes → Bytes → List Bytes → Result EngineError (Bytes × List Bytes)
add_peers known info_hash addrs = elim (hash_from_hex info_hash) [
  | err e ↦ err e
  | ok h ↦ if is_known known h then ok (h, addrs) else err not_added
]

-- What the client library says of a torrent file that is to be seeded.
pub record SeedRun : Type 0 where
  pub added : Bool
  pub has_info : Bool
  pub complete : Bool
  pub verifies : Bool
  pub completes : Bool

-- `SeedTorrentFile`
unfoldable pub seed_torrent_file : Bytes → SeedRun → Option EngineError
seed_torrent_file path r =
    if not r.added
    then some (add_failed path)
    else if not r.has_info
    then some cancelled
    else if not r.complete && not r.verifies
    then some verify_failed
    else if r.completes
    then none
    else some interrupted
