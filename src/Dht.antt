-- ===== src/Dht.antt =====
-- internal/dht: signed records that point from a model to its manifest.
-- Bencoding, SHA-256, and BEP 44 signatures are parameters, and so is what a node answers.
pub mod Publisher
pub mod Laws
use llmp2p.Common.{
  ℕ, suc, Bool, true, false, not, ◌&&◌, List, [], ◌∷◌, Option, none, some, Result, ok, err, ◌>>=◌,
  if◌then◌else◌, ◌==◌, ltb, length,
}
use llmp2p.Common.Int.{ℤ}
use llmp2p.Common.Bytes.{Bytes, equal, is_empty}
use llmp2p.Common.Bytes.Hex.{hex_decode}

-- `MaxEmbeddedManifest`
abbrev pub max_embedded_manifest : ℕ
max_embedded_manifest = 700

pub record Record : Type 0 where
  pub info_hash : Bytes
  pub manifest_sha256 : Bytes
  pub revision : Bytes
  pub size : ℤ
  pub manifest : Bytes

pub data RecordError : Type 0 where
  not_bencoded no_revision wrong_digest : RecordError
  bad_info_hash_length bad_digest_length manifest_too_long : ℕ → RecordError

pub data KeyError : Type 0 where
  bad_hex : KeyError
  bad_key_length : ℕ → KeyError

pub data GetError : Type 0 where
  no_trusted_keys not_found query_failed empty_reply untrusted_key no_sequence bad_signature :
      GetError
  bad_record : RecordError → GetError

-- The answer of a node to a query for a target; `none` is an error.
pub record Answer : Type 0 where
  pub value : Bytes
  pub key : Bytes
  pub sequence : Option ℕ
  pub signature : Bytes

-- What the client asks its libraries for: the digest, the decoded record, the check of a BEP 44
-- signature, and the node's answer to the query for a key and a salt.
pub record Libraries : Type 0 where
  pub sha256_sum : Bytes → Bytes
  pub bdecode : Bytes → Option Record
  pub verify : Bytes → Bytes → ℕ → Bytes → Bytes → Bool

-- `decodeHexKey`
unfoldable pub decode_hex_key : Bytes → Result KeyError Bytes
decode_hex_key h = elim (hex_decode h) [
  | none ↦ err bad_hex
  | some b ↦ if not (length b == 32) then err (bad_key_length (length b)) else ok b
]

-- `NewClient`, with the number of the key that is refused
unfoldable pub new_client : ℕ → List Bytes → Result (ℕ × KeyError) (List Bytes)
new_client i [] = ok []
new_client i (h ∷ hs) =
    let rest = new_client (suc i) hs in
    elim (decode_hex_key h) [ err e ↦ err (i, e) | ok b ↦ rest >>= λ bs. ok (b ∷ bs) ]

module _ (l : Libraries) where
  -- `SaltFor`
  unfoldable pub salt_for : Bytes → Bytes
  salt_for model = l.sha256_sum model

  -- the checks of `DecodeRecord` on what was decoded
  unfoldable pub check_record : Record → Result RecordError Record
  check_record r =
      if not (length r.info_hash == 20)
      then err (bad_info_hash_length (length r.info_hash))
      else if not (length r.manifest_sha256 == 32)
      then err (bad_digest_length (length r.manifest_sha256))
      else if is_empty r.revision
      then err no_revision
      else if ltb max_embedded_manifest (length r.manifest)
      then err (manifest_too_long (length r.manifest))
      else if not (is_empty r.manifest) && not (equal (l.sha256_sum r.manifest) r.manifest_sha256)
      then err wrong_digest
      else ok r

  -- `DecodeRecord`
  unfoldable pub decode_record : Bytes → Result RecordError Record
  decode_record v = elim (l.bdecode v) [ none ↦ err not_bencoded | some r ↦ check_record r ]

  -- the end of one round of `Get`: the signature, and the record
  unfoldable pub check_signed : Bytes → Answer → ℕ → Result GetError Record
  check_signed salt a seq =
      if not (l.verify a.key salt seq a.value a.signature)
      then err bad_signature
      else elim (decode_record a.value) [ err e ↦ err (bad_record e) | ok r ↦ ok r ]

  -- one round of the loop of `Get`, for a trusted key
  unfoldable pub check_answer : Bytes → Bytes → Option Answer → Result GetError Record
  check_answer salt trusted none = err query_failed
  check_answer salt trusted (some a) =
      if is_empty a.value
      then err empty_reply
      else if not (equal a.key trusted)
      then err untrusted_key
      else elim a.sequence [ none ↦ err no_sequence | some seq ↦ check_signed salt a seq ]

  -- the loop, with the error of the last round
  unfoldable pub get_loop :
      (Bytes → Option Answer) → Bytes → GetError → List Bytes → Result GetError Record
  get_loop node salt last [] = err last
  get_loop node salt last (trusted ∷ keys) = elim (check_answer salt trusted (node trusted)) [
    | err e ↦ get_loop node salt e keys
    | ok r ↦ ok r
  ]

  -- `(*Client).Get`: the node answers by the trusted key that the target is made of
  unfoldable pub get_record : (Bytes → Option Answer) → List Bytes → Bytes → Result GetError Record
  get_record node [] model = err no_trusted_keys
  get_record node (key ∷ keys) model = get_loop node (salt_for model) not_found (key ∷ keys)
