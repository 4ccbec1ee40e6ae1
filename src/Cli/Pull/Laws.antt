-- ===== src/Cli/Pull/Laws.antt =====
-- The private swarm of the command `pull`, and a pull that a daemon takes over.
use llmp2p.Common.{
  ℕ, Bool, not, ◌&&◌, List, [], ◌∷◌, Option, none, some, Result, ok, err, ◌>>=◌, ◌≡◌, ◌≢◌, ◌⊎◌,
  refl, sym, ◌∙◌, ap, subst, arith, if◌then◌else◌, ◌==◌, length, inl, inr, Bool-cases, Result-cases,
  >>=-eq-ok, ok-injective, wrap_err-eq-ok,
}
use llmp2p.Common.Bytes.{Bytes, is_empty}
use llmp2p.Common.Disk.{Disk}
use llmp2p.Manifest.{Manifest, is_nil}
use llmp2p.Manifest.Codec.{parse}
use llmp2p.Index.{Entry, get}
use llmp2p.Index.Fetch.{fetch, fetch_loop}
use llmp2p.Dht.{not_found, Record, Answer, new_client, decode_hex_key}
use llmp2p.Dht.Laws.{IsSigned}
use llmp2p.Ref.{Ref}
use llmp2p.Store.{Store, open_store}
use llmp2p.Pull.{Environment, PullError, bad_manifest, no_record}
use llmp2p.Pull.Origins.{fetch_manifest}
use llmp2p.Pull.Discover.{entry_of_record, discover, discover_loop}
use llmp2p.Pull.Laws.Trust.{discover_loop-IsSigned}
use llmp2p.Pull.Run.{Options, Network, find_entry, index_entry, find_manifest, trusted_manifest}
use llmp2p.Cli.Pull.{PullFlags, plan, private_options, Surroundings}

-- The manifest comes inside a record of the DHT for the revision, which the holder of the key has signed.
pub record IsFromSwarm (w : Network) (v : Environment) (key model revision : Bytes) (e : Entry)
    (m : Manifest) : Type 0 where
  pub raw : Bytes
  pub record_found : Record
  pub answer : Answer
  pub key_read : decode_hex_key key ≡ ok raw
  pub is_signed : IsSigned w.libraries model raw answer record_found
  pub same_revision : record_found.revision ≡ revision
  pub same_entry : e ≡ entry_of_record model record_found
  pub same_manifest : parse v.codec record_found.manifest ≡ ok m

module _ (v : Environment) (w : Network) (s : Store) (f : PullFlags) (key : Bytes) where
  abbrev o : Options
  o = private_options f key

  no_index_entry :
      (model : Bytes) (e : Entry) (b : Bytes)
      → index_entry v w s o model (fetch v.web v.index_codec.decode []) ≢ ok (e, b)
  unfolding index_entry fetch fetch_loop get llmp2p.Common.Dict.find
  no_index_entry model e b h = absurd (ground arith)

  find_entry-discover :
      (model revision : Bytes) (e : Entry) (b : Bytes)
      → find_entry v w s o model revision ≡ ok (e, b)
      → discover w.libraries (key ∷ []) w.nodes model revision ≡ ok (e, b)
  unfolding find_entry private_options is_nil
  find_entry-discover model revision e b h =
      go (discover w.libraries (key ∷ []) w.nodes model revision) refl
    where
      go :
          (x : Result PullError (Entry × Bytes))
          → discover w.libraries (key ∷ []) w.nodes model revision ≡ x
          → discover w.libraries (key ∷ []) w.nodes model revision ≡ ok (e, b)
      go (err y) q = absurd (no_index_entry model e b (ground arith))
      go (ok y) q = ground arith

  trusted_manifest-parse :
      (revision : Bytes) (e : Entry) (b : Bytes) (m : Manifest)
      → trusted_manifest v w s o revision (e, b) ≡ ok m
      → parse v.codec b ≡ ok m
  unfolding trusted_manifest is_empty fetch_manifest private_options
  trusted_manifest-parse revision e [] m h = absurd (ground arith)
  trusted_manifest-parse revision e (c ∷ b) m h =
      wrap_err-eq-ok bad_manifest (parse v.codec (c ∷ b)) h

  new_client_one :
      (raw : Bytes) → decode_hex_key key ≡ ok raw → new_client 0 (key ∷ []) ≡ ok (raw ∷ [])
  unfolding new_client
  new_client_one raw q = ground arith

  discover-key :
      (model revision : Bytes) (e : Entry) (b : Bytes)
      → discover w.libraries (key ∷ []) w.nodes model revision ≡ ok (e, b)
      → (raw : Bytes) × (decode_hex_key key ≡ ok raw)
        × (last : PullError) × (discover_loop w.libraries (raw ∷ []) model revision last w.nodes
            ≡ ok (e, b))
  unfolding discover new_client
  discover-key model revision e b h = elim (Result-cases (decode_hex_key key)) [
    | inr (y, q) ↦ absurd (ground arith)
    | inl (raw, q) ↦ (raw, q, no_record not_found, ground (arith, new_client_one raw q))
  ]

  find_manifest-trusted :
      (model revision : Bytes) (e : Entry) (m : Manifest)
      → find_manifest v w s o model revision ≡ ok (e, m)
      → (b : Bytes) × (find_entry v w s o model revision ≡ ok (e, b))
        × (trusted_manifest v w s o revision (e, b) ≡ ok m)
  unfolding find_manifest
  find_manifest-trusted model revision e m h =
      elim (Result-cases (find_entry v w s o model revision)) [
        | inr (y, q) ↦ absurd (ground arith)
        | inl ((e', b), q) ↦ elim (Result-cases (trusted_manifest v w s o revision (e', b))) [
          | inr (y, t) ↦ absurd (ground arith)
          | inl (m', t) ↦
              let same_entry : e' ≡ e = ground arith in
              let same_manifest : m' ≡ m = ground arith in
              (
                b,
                q ∙ ap (λ y. ok (y, b)) same_entry,
                subst (λ y. trusted_manifest v w s o revision (y, b) ≡ ok m) same_entry
                    (t ∙ ap ok same_manifest),
              )
        ]
      ]

  -- In a private swarm the manifest of a pull from the swarm comes inside a record of the DHT that pins the
  -- revision and is signed by the swarm's key.
  pub find_manifest-IsFromSwarm :
      (model revision : Bytes) (e : Entry) (m : Manifest)
      → find_manifest v w s o model revision ≡ ok (e, m)
      → IsFromSwarm w v key model revision e m
  find_manifest-IsFromSwarm model revision e m h =
      let (b, fe, tm) = find_manifest-trusted model revision e m h in
      let (raw, dk, last, dl) =
        discover-key model revision e b (find_entry-discover model revision e b fe) in
      let (r, k, a, among, signed, shape, rev, ent, emb) =
        discover_loop-IsSigned w.libraries (raw ∷ []) model revision last w.nodes e b dl in
      let same : k ≡ raw = elim among [ inl q ↦ q | inr n ↦ absurd n ] in
      record {
        raw = raw;
        record_found = r;
        answer = a;
        key_read = dk;
        is_signed = subst (λ y. IsSigned w.libraries model y a r) same signed;
        same_revision = rev;
        same_entry = ent;
        same_manifest =
            subst (λ y. parse v.codec y ≡ ok m) emb (trusted_manifest-parse revision e b m tm);
      }

module _ (v : Environment) (w : Network) (u : Surroundings) where
  -- where the flags of the pull are accepted
  abbrev pub IsPlanned : PullFlags → Disk → Type 0
  IsPlanned f d =
      (s : Store) (e : Disk)
      → open_store d u.root ≡ ok (s, e)
      → (o : Options) × (plan u.path_of e f ≡ ok o)
