-- ===== src/Manifest/Create.antt =====
-- internal/manifest/builder.go: `Create`, `buildInfo` and `MetaInfoBytes`.
-- The bencoding and the piece hashing of anacrolix/torrent are the parameter `Torrents`.
pub mod Laws
use llmp2p.Common.{
  ℕ, ◌<◌, Bool, true, false, not, List, [], ◌∷◌, ◌++◌, map, Option, none, some, Result, ok, err,
  ◌>>=◌, ◌>>◌, check, wrap_err, ◌≡◌, refl, ap, sym, ◌∙◌, arith, if◌then◌else◌, All, length, inl,
  inr, >>=-eq-ok, Result-cases,
}
use llmp2p.Common.Int.{ℤ, pos, int_eq}
use llmp2p.Common.Bytes.{Bytes, equal, split, cut, class_between, is_hex_lower}
use llmp2p.Common.Bytes.Laws.{equal_refl}
use llmp2p.Common.Bytes.Hex.{hex_encode, length-hex_encode, all_bytes-hex_encode}
use llmp2p.Common.Disk.{FilePath, push_all, join_path, IoError, Disk, stat, read_file}
use llmp2p.Manifest.{
  File, Manifest, PathError, ManifestError, schema_v1, default_piece_length, info_re,
  validate_manifest_path, validate_content, validate,
}
use llmp2p.Manifest.Verify.{node_size, hash_file}

-- `metainfo.FileInfo` and `metainfo.Info`
pub record FileInfo : Type 0 where
  pub path : List Bytes
  pub length_of : ℤ

pub record Info : Type 0 where
  pub piece_length : ℤ
  pub name : Bytes
  pub files : List FileInfo
  pub pieces : Bytes

-- `GeneratePieces` over the files and what each holds (it fails on a file that is too short), the
-- bencoded info, its SHA-1, and the bytes of the .torrent file, unless `Write` fails.
pub record Torrents : Type 0 where
  pub generate_pieces : ℤ → List (FileInfo × Bytes) → Option Bytes
  pub info_bytes : Info → Bytes
  pub sha1_sum : Bytes → Bytes
  pub torrent_bytes : Bytes → Option Bytes

-- A SHA-1 sum is 20 bytes.
pub record IsLawful (t : Torrents) : Type 0 where
  pub sum_length : (b : Bytes) → length (t.sha1_sum b) ≡ 20
  pub sum_bytes : (b : Bytes) → All (λ x. x < 256) (t.sha1_sum b)

pub data CreateError : Type 0 where
  bad_entry : Bytes → PathError → CreateError
  hash_failed : Bytes → IoError → CreateError
  wrong_size : Bytes → ℤ → CreateError
  invalid : ManifestError → CreateError
  open_failed : IoError → CreateError
  pieces_failed : CreateError
  wrong_info_hash : Bytes → CreateError
  write_failed : CreateError

-- `torrentName`: what follows the first slash, or nothing
unfoldable pub torrent_name : Bytes → Bytes
torrent_name model = elim (cut b'/' model) [ none ↦ [] | some (owner, repo) ↦ repo ]

-- `slashSegments`
unfoldable pub slash_segments : Bytes → List Bytes
slash_segments = split b'/'

unfoldable pub file_info : File → FileInfo
unfolding slash_segments
file_info f = record { path = slash_segments f.path; length_of = f.size }

-- What the callback of `GeneratePieces` reads, file by file.
unfoldable pub open_files :
    Disk → FilePath → List FileInfo → Result CreateError (List (FileInfo × Bytes))
unfolding push_all
open_files d root [] = ok []
open_files d root (fi ∷ fis) = do
  b ← wrap_err open_failed (read_file d (push_all root fi.path))
  rest ← open_files d root fis
  ok ((fi, b) ∷ rest)

module _ (sha256_sum : Bytes → Bytes) (t : Torrents) where
  unfoldable pub check_pieces : Option Bytes → Result CreateError Bytes
  check_pieces none = err pieces_failed
  check_pieces (some p) = ok p

  -- `(*Manifest).buildInfo`
  unfoldable pub build_info : Disk → FilePath → Manifest → Result CreateError Info
  build_info d root m = do
    let infos = map file_info m.files
    wrap_err invalid (check (validate_content m))
    opened ← open_files d root infos
    pieces ← check_pieces (t.generate_pieces m.piece_length opened)
    ok (record {
      piece_length = m.piece_length;
      name = torrent_name m.model;
      files = infos;
      pieces = pieces;
    })

  -- `mi.HashInfoBytes().HexString()`
  unfoldable pub info_hash_of : Info → Bytes
  info_hash_of info = hex_encode (t.sha1_sum (t.info_bytes info))

  -- one round of the loop of `Create`
  unfoldable pub hash_entry : Disk → FilePath → File → Result CreateError File
  hash_entry d root e = do
    wrap_err (bad_entry e.path) (check (validate_manifest_path e.path))
    n ← wrap_err (hash_failed e.path) (stat d (join_path root e.path))
    if int_eq (node_size n) e.size
        then wrap_err (hash_failed e.path) (hash_file sha256_sum d (join_path root e.path))
          >>= (λ sum. ok (record e { sha256 = sum }))
        else err (wrong_size e.path (node_size n))

  unfoldable pub hash_entries : Disk → FilePath → List File → Result CreateError (List File)
  hash_entries d root [] = ok []
  hash_entries d root (e ∷ es) = do
    f ← hash_entry d root e
    fs ← hash_entries d root es
    ok (f ∷ fs)

  -- `Create`, at the time `now`
  unfoldable pub create :
      ℕ → Bytes → Bytes → List File → Disk → FilePath → Result CreateError Manifest
  create now model revision entries d root = do
    files ← hash_entries d root entries
    let m : Manifest = record {
      schema = schema_v1;
      model = model;
      revision = revision;
      created_at = now;
      piece_length = default_piece_length;
      info_hash = [];
      files = files;
    }
    info ← build_info d root m
    ok (record m { info_hash = info_hash_of info })

  -- `mi.Write`
  unfoldable pub written : Option Bytes → Result CreateError Bytes
  written none = err write_failed
  written (some b) = ok b

  -- `(*Manifest).MetaInfoBytes`
  unfoldable pub metainfo_bytes : Disk → FilePath → Manifest → Result CreateError Bytes
  metainfo_bytes d root m = do
    info ← build_info d root m
    if equal (info_hash_of info) m.info_hash
        then written (t.torrent_bytes (t.info_bytes info))
        else err (wrong_info_hash (info_hash_of info))
