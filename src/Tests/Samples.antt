-- ===== src/Tests/Samples.antt =====
-- Small data for the tests: a reference, a manifest of one file, a disk that holds it, and concrete
-- functions in place of the libraries.
use llmp2p.Common.{
  Bool, true, false, ◌&&◌, List, [], ◌∷◌, none, some, ◌≡◌, refl, arith, replicate, if◌then◌else◌,
  ◌==◌,
}
use llmp2p.Common.Int.{pos, int_eq, int_eq_iff}
use llmp2p.Common.Bytes.{Bytes, codes, equal}
use llmp2p.Common.Bytes.Laws.{equal_iff}
use llmp2p.Common.Disk.{FilePath, Disk, file, dir}
use llmp2p.Ref.{Ref}
use llmp2p.Manifest.{File, Manifest, schema_v1, default_piece_length}
use llmp2p.Index.{Entry}
use llmp2p.Manifest.Codec as Codec
use llmp2p.Manifest.Create as Create

abbrev pub zeros40 : Bytes
zeros40 = replicate 40 b'0'

abbrev pub zeros64 : Bytes
zeros64 = replicate 64 b'0'

abbrev pub sample_ref : Ref
sample_ref = record {
  owner = codes "org";
  repo = codes "repo.gguf";
  revision = codes "refs/pr/1";
  path = codes "sub/a b.gguf";
}

abbrev pub sample_file : File
sample_file = record { path = codes "a/b"; size = pos 3; sha256 = zeros64 }

abbrev pub sample_manifest : Manifest
sample_manifest = record {
  schema = schema_v1;
  model = codes "org/repo";
  revision = codes "main";
  created_at = 7;
  piece_length = default_piece_length;
  info_hash = zeros40;
  files = sample_file ∷ [];
}

abbrev pub sample_entry : Entry
sample_entry = record {
  model = codes "org/repo";
  info_hash = zeros40;
  manifest_sha256 = zeros64;
  revision = codes "main";
  size = pos 3;
  added_at = 0;
}

abbrev pub data_root : FilePath
data_root = codes "data" ∷ []

abbrev pub sample_disk : Disk
sample_disk = record {
  nodes =
      (codes "data" ∷ codes "a" ∷ codes "b" ∷ [], file (codes "abc"))
      ∷ (codes "data" ∷ codes "a" ∷ [], dir)
      ∷ (codes "data" ∷ [], dir)
      ∷ [];
  refuses = λ p. false;
}

-- a sum that is always zero
abbrev pub zero_sum : Bytes → Bytes
zero_sum b = replicate 32 0

-- Torrents without pieces, whose info is written as the name.
abbrev pub sample_torrents : Create.Torrents
sample_torrents = record {
  generate_pieces = λ n fs. some [];
  info_bytes = λ i. i.name;
  sha1_sum = λ b. replicate 20 0;
  torrent_bytes = λ b. some b;
}

pub sample_torrents-IsLawful : Create.IsLawful sample_torrents
sample_torrents-IsLawful = record { sum_length = λ b. refl; sum_bytes = λ b. ground arith }

-- An encoding that knows one manifest, as the empty document.
unfoldable pub is_sample_files : List File → Bool
is_sample_files [] = false
is_sample_files (f ∷ []) =
    equal f.path (codes "a/b") && int_eq f.size (pos 3) && equal f.sha256 zeros64
is_sample_files (f ∷ g ∷ fs) = false

unfoldable pub is_sample : Manifest → Bool
is_sample m =
    equal m.schema schema_v1
    && equal m.model (codes "org/repo")
    && equal m.revision (codes "main")
    && m.created_at == 7
    && int_eq m.piece_length default_piece_length
    && equal m.info_hash zeros40
    && is_sample_files m.files

abbrev pub sample_codec : Codec.Codec
sample_codec = record {
  encode = λ m. if is_sample m then some [] else none;
  decode = λ b. some sample_manifest;
  sha256_sum = zero_sum;
}

file_ext : (f g : File) → f.path ≡ g.path → f.size ≡ g.size → f.sha256 ≡ g.sha256 → f ≡ g
file_ext f g p q r = λ i. record { path = p i; size = q i; sha256 = r i }

is_sample_files_lem : (fs : List File) → is_sample_files fs ≡ true → fs ≡ sample_file ∷ []
unfolding is_sample_files
is_sample_files_lem [] h = absurd (ground arith)
is_sample_files_lem (f ∷ []) h =
    let pa : f.path ≡ codes "a/b" = ground (arith, equal_iff f.path (codes "a/b")) in
    let pb : f.size ≡ pos 3 = ground (arith, int_eq_iff f.size (pos 3)) in
    let pc : f.sha256 ≡ zeros64 = ground (arith, equal_iff f.sha256 zeros64) in
    λ i. file_ext f sample_file pa pb pc i ∷ []
is_sample_files_lem (f ∷ g ∷ fs) h = absurd (ground arith)

is_sample_lem : (m : Manifest) → is_sample m ≡ true → m ≡ sample_manifest
unfolding is_sample
is_sample_lem m h =
    let pa : m.schema ≡ schema_v1 = ground (arith, equal_iff m.schema schema_v1) in
    let pb : m.model ≡ codes "org/repo" = ground (arith, equal_iff m.model (codes "org/repo")) in
    let pc : m.revision ≡ codes "main" = ground (arith, equal_iff m.revision (codes "main")) in
    let pd : m.created_at ≡ 7 = ground arith in
    let pe : m.piece_length ≡ default_piece_length =
      ground (arith, int_eq_iff m.piece_length default_piece_length) in
    let pf : m.info_hash ≡ zeros40 = ground (arith, equal_iff m.info_hash zeros40) in
    let pg : m.files ≡ sample_file ∷ [] = ground (arith, is_sample_files_lem m.files) in
    λ i. record {
      schema = pa i;
      model = pb i;
      revision = pc i;
      created_at = pd i;
      piece_length = pe i;
      info_hash = pf i;
      files = pg i;
    }

pub sample_codec-IsLawful : Codec.IsLawful sample_codec
sample_codec-IsLawful = record {
  decode_encode = λ m b t e. go m b e;
  sum_length = λ b. refl;
  sum_bytes = λ b. ground arith;
}
  where
    go :
        (m : Manifest) (b : Bytes) → sample_codec.encode m ≡ some b → sample_codec.decode b ≡ some m
    go m b e = ground (arith, is_sample_lem m)
