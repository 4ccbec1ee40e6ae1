-- ===== src/Dht/Publisher.antt =====
-- internal/dht/publisher.go: the sequence counters and `Put`.
-- A counter is an int64, which wraps around. encoding/json, BEP 44 items and the node are parameters.
-- The lock of the counters is left out: one call runs after the other. So is a counter file that holds
-- `null`, after which Go has no map to write to.
use llmp2p.Common.{
  ltb, length, if◌then◌else◌, ℕ, [], ◌∷◌, Option, none, some, Result, ok, err, ◌>>=◌, wrap_err,
}
use llmp2p.Common.Int.{ℤ, pos, add64}
use llmp2p.Common.Bytes.{Bytes}
use llmp2p.Common.Bytes.Hex.{hex_encode}
use llmp2p.Common.Dict.{Dict, find, insert}
use llmp2p.Common.Disk.{FilePath, IoError, Disk, parent, read_file, write_file, mkdir_all}
use llmp2p.Dht.{Record, max_embedded_manifest}

-- `json.Marshal` of the counters, and what `json.Unmarshal` leaves of a document in an empty map
pub record SeqCodec : Type 0 where
  pub encode : Dict ℤ → Option Bytes
  pub decode : Bytes → Dict ℤ

pub data PutError : Type 0 where
  manifest_too_long : ℕ → PutError
  sequence_state : IoError → PutError
  not_encoded no_item token_failed no_token put_failed : PutError

-- `seqState`
pub record SeqState : Type 0 where
  pub path : FilePath
  pub seqs : Dict ℤ

-- the counter of a salt, which is 0 before its first use
unfoldable pub count_of : Option ℤ → ℤ
count_of none = pos 0
count_of (some n) = n

module _ (c : SeqCodec) where
  unfoldable pub read_seqs : Disk → FilePath → Dict ℤ → Dict ℤ
  read_seqs d p seqs = elim (read_file d p) [ err e ↦ seqs | ok b ↦ c.decode b ]

  -- `loadSeqState`
  unfoldable pub load_seq_state : Disk → FilePath → SeqState
  load_seq_state d p = record { path = p; seqs = read_seqs d p [] }

  -- the counters before an increment: read again while there are none
  unfoldable pub current_seqs : Disk → FilePath → Dict ℤ → Dict ℤ
  current_seqs d p [] = read_seqs d p []
  current_seqs d p (s ∷ ss) = s ∷ ss

  unfoldable pub save_seqs : Disk → FilePath → Dict ℤ → Result PutError Disk
  save_seqs d p seqs = do
    e ← wrap_err sequence_state (mkdir_all d (parent p))
    elim (c.encode seqs) [
      | none ↦ err not_encoded
      | some b ↦ wrap_err sequence_state (write_file e p b)
    ]

  -- the counters in memory after `next`, whether or not they can be saved
  unfoldable pub bump : Disk → SeqState → Bytes → SeqState
  bump d s salt =
      let seqs = current_seqs d s.path s.seqs in
      let key = hex_encode salt in
      record s { seqs = insert key (add64 (count_of (find key seqs)) (pos 1)) seqs }

  -- `(*seqState).next`
  unfoldable pub next : Disk → SeqState → Bytes → SeqState × Result PutError (ℤ × Disk)
  next d s salt =
      let t = bump d s salt in
      (t, save_seqs d s.path t.seqs >>= λ e. ok (count_of (find (hex_encode salt) t.seqs), e))

-- What the libraries make of a put: with the key, they sign the item, get a write token from the node, and put it.
abbrev pub PutTo : Type 0
PutTo = Bytes → Record → Bytes → ℤ → Option PutError

-- `(*Publisher).Put`: the counters, the disk, and the error
unfoldable pub put_record :
    SeqCodec
    → (Bytes → Bytes)
    → Bytes
    → PutTo
    → SeqState
    → Disk
    → Bytes
    → Record
    → SeqState × Disk × Option PutError
put_record c sha256_sum key node s d model r =
    if ltb max_embedded_manifest (length r.manifest)
    then (s, d, some (manifest_too_long (length r.manifest)))
    else let salt = sha256_sum model in
      let (t, result) = next c d s salt in
      elim result [ err e ↦ (t, d, some e) | ok p ↦ (t, p.1, node key r salt p.0) ]
