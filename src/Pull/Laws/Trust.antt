-- ===== src/Pull/Laws/Trust.antt =====
-- What `fetchManifest`, `verifyManifestSignature` and `discoverViaDHT` let through.
use llmp2p.Common.{
  true, List, [], ◌∷◌, Option, none, some, Result, ok, err, ◌≡◌, ◌≢◌, refl, sym, arith, Bool-cases,
  inl, inr,
}
use llmp2p.Common.Bytes.{Bytes, equal}
use llmp2p.Common.Bytes.Laws.{equal_iff}
use llmp2p.Manifest.{Manifest, ManifestError, validate, is_nil}
use llmp2p.Manifest.Codec.{LoadError, bytes, digest, parse, parse-validate}
use llmp2p.Index.{Entry, manifest_url}
use llmp2p.Dht.{Record, Answer, Libraries, GetError, get_record}
use llmp2p.Dht.Laws.{Among, IsSigned, IsRecord, get_record-IsSigned}
use llmp2p.Pull.{Environment, PullError, Sidecar, no_record, other_revision, verify_hex}
use llmp2p.Pull.Origins.{
  body_of, contains, is_pinned, accept_manifest, fetch_manifest, fetch_sidecar, check_sidecar,
  verify_manifest_signature,
}
use llmp2p.Pull.Discover.{entry_of_record, accept_record, discover_loop}

contains-Among : (keys : List Bytes) (key : Bytes) → contains keys key ≡ true → Among key keys
unfolding contains
contains-Among [] key h = absurd (ground arith)
contains-Among (k ∷ ks) key h = elim (Bool-cases (equal k key)) [
  | inl e ↦ inl (sym ((equal_iff k key).0 e))
  | inr e ↦ inr (contains-Among ks key (ground arith))
]

module _ (v : Environment) where
  -- What the index pins of a manifest.
  pub record IsPinned (entry : Entry) (revision : Bytes) (m : Manifest) : Type 0 where
    pub accepted : validate m ≡ none
    pub digest_pinned : digest v.codec m ≡ ok entry.manifest_sha256
    pub info_hash_pinned : m.info_hash ≡ entry.info_hash
    pub revision_pinned : m.revision ≡ revision

  is_pinned-IsPinned :
      (entry : Entry) (revision : Bytes) (m : Manifest)
      → validate m ≡ none
      → is_pinned v entry revision m ≡ true
      → IsPinned entry revision m
  unfolding is_pinned
  is_pinned-IsPinned entry revision m a h = go (digest v.codec m) refl
    where
      go : (o : Result LoadError Bytes) → digest v.codec m ≡ o → IsPinned entry revision m
      go (err e) q = absurd (ground arith)
      go (ok sum) q = record {
        accepted = a;
        digest_pinned = ground (arith, equal_iff sum entry.manifest_sha256);
        info_hash_pinned = ground (arith, equal_iff m.info_hash entry.info_hash);
        revision_pinned = ground (arith, equal_iff m.revision revision);
      }

  accept_manifest-IsPinned :
      (entry : Entry) (revision : Bytes) (o : Option Bytes) {m : Manifest}
      → accept_manifest v entry revision o ≡ some m
      → IsPinned entry revision m
  unfolding accept_manifest
  accept_manifest-IsPinned entry revision none h = absurd (ground arith)
  accept_manifest-IsPinned entry revision (some body) {m} h = go (parse v.codec body) refl
    where
      go : (o : Result ManifestError Manifest) → parse v.codec body ≡ o → IsPinned entry revision m
      go (err e) q = absurd (ground arith)
      go (ok n) q =
          let same : n ≡ m = ground arith in
          is_pinned-IsPinned entry revision m (parse-validate v.codec body (ground arith))
            (ground arith)

  -- A manifest that is fetched from the origins is valid and has the digest, the infohash and the
  -- revision that the index entry pins, whatever the origins serve.
  pub fetch_manifest-IsPinned :
      (bases : List Bytes) (entry : Entry) (revision : Bytes) {m : Manifest}
      → fetch_manifest v bases entry revision ≡ ok m
      → IsPinned entry revision m
  unfolding fetch_manifest
  fetch_manifest-IsPinned [] entry revision h = absurd (ground arith)
  fetch_manifest-IsPinned (base ∷ bases) entry revision {m} h =
      go (λ g. fetch_manifest-IsPinned bases entry revision g)
        (accept_manifest v entry revision
          (body_of 67108864 (v.web (manifest_url base entry.manifest_sha256))))
        refl
    where
      go :
          (fetch_manifest v bases entry revision ≡ ok m → IsPinned entry revision m)
          → (o : Option Manifest)
          → accept_manifest v entry revision
              (body_of 67108864 (v.web (manifest_url base entry.manifest_sha256)))
            ≡ o
          → IsPinned entry revision m
      go later none q = later (ground arith)
      go later (some n) q =
          accept_manifest-IsPinned entry revision
            (body_of 67108864 (v.web (manifest_url base entry.manifest_sha256))) (ground arith)

  check_sidecar-Among :
      (allowed : List Bytes) (o : Option Sidecar) (canonical : Bytes)
      → allowed ≢ []
      → check_sidecar v allowed o canonical ≡ none
      → (sig : Sidecar) × Among sig.public_key allowed
        × (verify_hex v.ed25519_verify sig.public_key sig.signature canonical ≡ true)
  unfolding check_sidecar is_nil
  check_sidecar-Among [] o canonical n h = absurd (n refl)
  check_sidecar-Among (k ∷ ks) none canonical n h = absurd (ground arith)
  check_sidecar-Among (k ∷ ks) (some sig) canonical n h =
      (sig, contains-Among (k ∷ ks) sig.public_key (ground arith), ground arith)

  -- Where an allowlist is set, a manifest only passes with a sidecar whose key is on the list and
  -- whose signature holds for the canonical bytes.
  pub verify_manifest_signature-Among :
      (allowed : List Bytes) (m : Manifest) (bases : List Bytes)
      → allowed ≢ []
      → verify_manifest_signature v allowed m bases ≡ none
      → (sig : Sidecar) × (canonical : Bytes) × (bytes v.codec m ≡ ok canonical)
        × Among sig.public_key allowed
        × (verify_hex v.ed25519_verify sig.public_key sig.signature canonical ≡ true)
  unfolding verify_manifest_signature
  verify_manifest_signature-Among allowed m bases n h = go (digest v.codec m) refl
    where
      Passed : Type 0
      Passed =
          (sig : Sidecar) × (canonical : Bytes) × (bytes v.codec m ≡ ok canonical)
          × Among sig.public_key allowed
          × (verify_hex v.ed25519_verify sig.public_key sig.signature canonical ≡ true)

      with_sidecar :
          (sha : Bytes) (o : Result PullError (Option Sidecar))
          → digest v.codec m ≡ ok sha
          → fetch_sidecar v bases sha ≡ o
          → (b : Result LoadError Bytes) → bytes v.codec m ≡ b
          → Passed
      with_sidecar sha (err e) q p b j = absurd (ground arith)
      with_sidecar sha (ok sig) q p (err e) j = absurd (ground arith)
      with_sidecar sha (ok sig) q p (ok canonical) j =
          let (g, among, holds) = check_sidecar-Among allowed sig canonical n (ground arith) in
          (g, canonical, j, among, holds)

      go : (o : Result LoadError Bytes) → digest v.codec m ≡ o → Passed
      go (err e) q = absurd (ground arith)
      go (ok sha) q = with_sidecar sha (fetch_sidecar v bases sha) q refl (bytes v.codec m) refl

-- What discovery returns is made of a record that is signed by a key of the client over the
-- model's salt, pins the wanted revision, and has the right shape.
pub discover_loop-IsSigned :
    (l : Libraries) (keys : List Bytes) (model revision : Bytes) (last : PullError)
    (nodes : List (Bytes → Option Answer)) (entry : Entry) (embedded : Bytes)
    → discover_loop l keys model revision last nodes ≡ ok (entry, embedded)
    → (r : Record) × (key : Bytes) × (a : Answer) × Among key keys
      × IsSigned l model key a r
      × IsRecord l r
      × (r.revision ≡ revision)
      × (entry ≡ entry_of_record model r)
      × (embedded ≡ r.manifest)
unfolding discover_loop accept_record
discover_loop-IsSigned l keys model revision last [] entry embedded h = absurd (ground arith)
discover_loop-IsSigned l keys model revision last (node ∷ nodes) entry embedded h =
    go (λ e g. discover_loop-IsSigned l keys model revision e nodes entry embedded g)
      (get_record l node keys model) refl
  where
    Accepted : Type 0
    Accepted =
        (r : Record) × (key : Bytes) × (a : Answer) × Among key keys
        × IsSigned l model key a r
        × IsRecord l r
        × (r.revision ≡ revision)
        × (entry ≡ entry_of_record model r)
        × (embedded ≡ r.manifest)

    go :
        ((e : PullError)
          → discover_loop l keys model revision e nodes ≡ ok (entry, embedded)
          → Accepted)
        → (o : Result GetError Record) → get_record l node keys model ≡ o
        → Accepted
    go later (err e) q = later (no_record e) (ground arith)
    go later (ok r) q = elim (Bool-cases (equal r.revision revision)) [
      | inl t ↦
          let (key, a, m, n, sg, shape) = get_record-IsSigned l node keys model q in
          (r, key, a, m, sg, shape, (equal_iff r.revision revision).0 t, ground arith, ground arith)
      | inr t ↦ later (other_revision r.revision) (ground arith)
    ]
