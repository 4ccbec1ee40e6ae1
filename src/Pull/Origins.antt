-- ===== src/Pull/Origins.antt =====
-- `fetchManifest`, `fetchManifestSignature` and `verifyManifestSignature`: what the bootstrap origins
-- serve, and whether it is to be trusted.
use llmp2p.Common.{
  ℕ, Bool, false, not, ◌&&◌, ◌||◌, List, [], ◌∷◌, ◌++◌, Option, none, some, Result, ok, err,
  if◌then◌else◌, ◌==◌,
}
use llmp2p.Common.Bytes.{Bytes, codes, equal}
use llmp2p.Manifest.{Manifest, is_nil}
use llmp2p.Manifest.Codec.{bytes, digest, parse}
use llmp2p.Index.{Entry, manifest_url}
use llmp2p.Index.Fetch.{Response, bad_url, unreachable, unreadable, answered, limit_reader}
use llmp2p.Pull as Pull
use llmp2p.Pull.{
  Environment, PullError, Sidecar, load_failed, bad_sidecar, unsigned, bad_signature,
  unknown_signer, verify_hex,
}

-- the body of a response of status 200, up to a limit
unfoldable pub body_of : ℕ → Response → Option Bytes
body_of limit bad_url = none
body_of limit unreachable = none
body_of limit unreadable = none
body_of limit (answered status body) =
    if not (status == 200) then none else some (limit_reader limit body)

unfoldable pub contains : List Bytes → Bytes → Bool
contains [] key = false
contains (k ∷ ks) key = equal k key || contains ks key

module _ (v : Environment) where
  -- the pins: the digest, the infohash and the revision
  unfoldable pub is_pinned : Entry → Bytes → Manifest → Bool
  is_pinned entry revision m = elim (digest v.codec m) [
    | err e ↦ false
    | ok sum ↦
        equal sum entry.manifest_sha256
        && equal m.info_hash entry.info_hash
        && equal m.revision revision
  ]

  -- one round of the loop of `fetchManifest`
  unfoldable pub accept_manifest : Entry → Bytes → Option Bytes → Option Manifest
  accept_manifest entry revision none = none
  accept_manifest entry revision (some body) = elim (parse v.codec body) [
    | err e ↦ none
    | ok m ↦ if is_pinned entry revision m then some m else none
  ]

  -- `fetchManifest`
  unfoldable pub fetch_manifest : List Bytes → Entry → Bytes → Result PullError Manifest
  fetch_manifest [] entry revision = err Pull.unreachable
  fetch_manifest (base ∷ bases) entry revision =
      let rest = fetch_manifest bases entry revision in
      let response = v.web (manifest_url base entry.manifest_sha256) in
      elim (accept_manifest entry revision (body_of 67108864 response)) [
        | none ↦ rest
        | some m ↦ ok m
      ]

  -- `fetchManifestSignature`: the first sidecar that is served
  unfoldable pub fetch_sidecar : List Bytes → Bytes → Result PullError (Option Sidecar)
  fetch_sidecar [] sha = ok none
  fetch_sidecar (base ∷ bases) sha =
      let rest = fetch_sidecar bases sha in
      elim (body_of 1048576 (v.web (manifest_url base sha ++ codes ".sig"))) [
        | none ↦ rest
        | some body ↦ elim (v.decode_sidecar body) [
          | none ↦ err bad_sidecar
          | some sig ↦ ok (some sig)
        ]
      ]

  -- the end of `verifyManifestSignature`, on the canonical bytes
  unfoldable pub check_sidecar : List Bytes → Option Sidecar → Bytes → Option PullError
  check_sidecar allowed none canonical = if is_nil allowed then none else some unsigned
  check_sidecar allowed (some sig) canonical =
      if not (verify_hex v.ed25519_verify sig.public_key sig.signature canonical)
      then some bad_signature
      else if not (is_nil allowed) && not (contains allowed sig.public_key)
      then some (unknown_signer sig.public_key)
      else none

  -- `verifyManifestSignature`
  unfoldable pub verify_manifest_signature : List Bytes → Manifest → List Bytes → Option PullError
  verify_manifest_signature allowed m bases = elim (digest v.codec m) [
    | err e ↦ some (load_failed e)
    | ok sha ↦ elim (fetch_sidecar bases sha) [
      | err e ↦ some e
      | ok sig ↦ elim (bytes v.codec m) [
        | err e ↦ some (load_failed e)
        | ok canonical ↦ check_sidecar allowed sig canonical
      ]
    ]
  ]
