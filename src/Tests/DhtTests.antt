-- ===== src/Tests/DhtTests.antt =====
-- Records and sequence numbers.
use llmp2p.Common.{
  ℕ, ◌+◌, ◌^◌, ◌<◌, Bool, true, false, List, [], ◌∷◌, replicate, Option, none, some, Result, ok,
  err, ◌≡◌, ◌≢◌, refl, arith,
}
use llmp2p.Common.Int.{ℤ, pos, add64}
use llmp2p.Common.Bytes.{Bytes, codes}
use llmp2p.Common.Bytes.Hex.{hex_encode}
use llmp2p.Common.Disk.{Disk}
use llmp2p.Dht.{Record, Answer, Libraries, decode_record, get_record}
use llmp2p.Dht.Publisher.{SeqCodec, SeqState, next}
use llmp2p.Dht.Laws.{Among, IsSigned, IsRecord, get_record-IsSigned, counter, next-counter}
use llmp2p.Pull.{no_such_file}
use llmp2p.Pull.Discover.{discover_loop, entry_of_record}
use llmp2p.Pull.Laws.Trust.{discover_loop-IsSigned}
use llmp2p.Tests.Samples.{zero_sum, sample_disk}

abbrev pub item : Record
item = record {
  info_hash = replicate 20 0;
  manifest_sha256 = replicate 32 0;
  revision = codes "main";
  size = pos 3;
  manifest = codes "m";
}

abbrev pub libraries : Libraries
libraries = record {
  sha256_sum = zero_sum;
  bdecode = λ b. some item;
  verify = λ key salt seq value signature. true;
}

abbrev key : Bytes
key = replicate 32 7

abbrev node : Bytes → Option Answer
node k = some (record { value = codes "d"; key = k; sequence = some 1; signature = [] })

decode_works : decode_record libraries (codes "d") ≡ ok item
unfolding decode_record llmp2p.Dht.check_record llmp2p.Common.Bytes.is_empty
    llmp2p.Common.Bytes.equal
decode_works = refl

get_works : get_record libraries node (key ∷ []) (codes "org/repo") ≡ ok item
unfolding get_record llmp2p.Dht.get_loop llmp2p.Dht.check_answer llmp2p.Common.Bytes.is_empty
    llmp2p.Common.Bytes.equal llmp2p.Dht.check_signed decode_record llmp2p.Dht.check_record
get_works = refl

discover_works :
    discover_loop libraries
      (key ∷ [])
      (codes "org/repo")
      (codes "main")
      (no_such_file [])
      (node ∷ [])
    ≡ ok (entry_of_record (codes "org/repo") item, codes "m")
unfolding discover_loop llmp2p.Pull.Discover.accept_record get_record llmp2p.Dht.get_loop
    llmp2p.Dht.check_answer llmp2p.Common.Bytes.is_empty llmp2p.Common.Bytes.equal
    llmp2p.Dht.check_signed decode_record llmp2p.Dht.check_record
discover_works = refl

discover_loop-IsSigned_example :
    (r : Record) × (k : Bytes) × (a : Answer) × Among k (key ∷ [])
    × IsSigned libraries (codes "org/repo") k a r
    × IsRecord libraries r
    × (r.revision ≡ codes "main")
    × (entry_of_record (codes "org/repo") item ≡ entry_of_record (codes "org/repo") r)
    × (codes "m" ≡ r.manifest)
discover_loop-IsSigned_example =
    discover_loop-IsSigned libraries (key ∷ []) (codes "org/repo") (codes "main") (no_such_file [])
      (node ∷ []) (entry_of_record (codes "org/repo") item) (codes "m") discover_works

get_record-IsSigned_example :
    (k : Bytes) × (a : Answer) × Among k (key ∷ [])
    × (node k ≡ some a)
    × IsSigned libraries (codes "org/repo") k a item
    × IsRecord libraries item
get_record-IsSigned_example =
    get_record-IsSigned libraries node (key ∷ []) (codes "org/repo") get_works

abbrev pub seq_codec : SeqCodec
seq_codec = record { encode = λ m. some []; decode = λ b. [] }

abbrev state : SeqState
state = record { path = codes "data" ∷ codes "seq" ∷ []; seqs = (codes "00", pos 4) ∷ [] }

state_loaded : state.seqs ≢ []
state_loaded h = absurd (ground arith)

next-counter_example :
    (counter seq_codec (next seq_codec sample_disk state (0 ∷ [])).0 (0 ∷ [])
      ≡ add64 (counter seq_codec state (0 ∷ [])) (pos 1))
    × ((k : ℕ)
        → counter seq_codec state (0 ∷ []) ≡ pos k
        → k + 1 < 2 ^ 63
        → counter seq_codec (next seq_codec sample_disk state (0 ∷ [])).0 (0 ∷ []) ≡ pos (k + 1))
    × (hex_encode (1 ∷ []) ≢ hex_encode (0 ∷ [])
        → counter seq_codec (next seq_codec sample_disk state (0 ∷ [])).0 (1 ∷ [])
          ≡ counter seq_codec state (1 ∷ []))
    × ((n : ℤ) (e : Disk)
        → (next seq_codec sample_disk state (0 ∷ [])).1 ≡ ok (n, e)
        → n ≡ counter seq_codec (next seq_codec sample_disk state (0 ∷ [])).0 (0 ∷ []))
next-counter_example = next-counter seq_codec sample_disk state (0 ∷ []) (1 ∷ []) state_loaded
