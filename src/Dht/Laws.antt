-- ===== src/Dht/Laws.antt =====
-- What the client accepts, and the order of the sequence numbers.
use llmp2p.Common.{
  ℕ, ◌+◌, ◌^◌, ◌≤◌, ◌<◌, ◌∙◌, ap, true, false, List, [], ◌∷◌, Option, none, some, Result, ok, err,
  ◌≡◌, ◌≢◌, ◌⊎◌, refl, arith, length, inl, inr, >>=-eq-ok,
}
use llmp2p.Common.Int.{ℤ, pos, add64, add64-pos}
use llmp2p.Common.Bytes.{Bytes, is_empty}
use llmp2p.Common.Bytes.Laws.{equal_iff, equal_refl}
use llmp2p.Common.Bytes.Hex.{hex_encode}
use llmp2p.Common.Dict.{Dict, find, find-insert}
use llmp2p.Common.Disk.{FilePath, Disk}
use llmp2p.Dht.{
  Record, RecordError, Answer, GetError, Libraries, max_embedded_manifest, salt_for, check_record,
  decode_record, check_signed, check_answer, get_loop, get_record,
}
use llmp2p.Dht.Publisher.{SeqCodec, SeqState, count_of, save_seqs, current_seqs, bump, next}

-- a key of a list
abbrev pub Among : Bytes → List Bytes → Type 0
Among k [] = ⊥
Among k (j ∷ js) = (k ≡ j) ⊎ Among k js

module _ (l : Libraries) where
  -- A record in the shape that the format wants, with the digest of what it embeds.
  pub record IsRecord (r : Record) : Type 0 where
    pub info_hash_length : length r.info_hash ≡ 20
    pub digest_length : length r.manifest_sha256 ≡ 32
    pub revision_named : r.revision ≢ []
    pub manifest_short : length r.manifest ≤ max_embedded_manifest
    pub manifest_digest : (r.manifest ≡ []) ⊎ (l.sha256_sum r.manifest ≡ r.manifest_sha256)

  -- The node's answer for the key is signed by it, over the model's salt, and holds the record.
  pub record IsSigned (model key : Bytes) (a : Answer) (r : Record) : Type 0 where
    pub own_key : a.key ≡ key
    pub signature_holds :
        (seq : ℕ) × (a.sequence ≡ some seq)
        × (l.verify key (salt_for l model) seq a.value a.signature ≡ true)
    pub decoded : decode_record l a.value ≡ ok r

  is_empty_split : (b : Bytes) → (is_empty b ≡ true → b ≡ []) × (is_empty b ≡ false → b ≢ [])
  unfolding is_empty
  is_empty_split [] = ground arith
  is_empty_split (c ∷ b) = ground arith

  -- `DecodeRecord` only returns records in the right shape; an embedded manifest has the digest that
  -- the record pins.
  pub decode_record-IsRecord : (v : Bytes) {r : Record} → decode_record l v ≡ ok r → IsRecord r
  unfolding decode_record check_record
  decode_record-IsRecord v {r} h = go (l.bdecode v) refl
    where
      go : (o : Option Record) → l.bdecode v ≡ o → IsRecord r
      go none q = absurd (ground arith)
      go (some s) q = record {
        info_hash_length = ground arith;
        digest_length = ground arith;
        revision_named = ground (arith, is_empty_split s.revision);
        manifest_short = ground arith;
        manifest_digest = ground (
          arith,
          is_empty_split s.manifest,
          equal_iff (l.sha256_sum s.manifest) s.manifest_sha256,
        );
      }

  check_answer-IsSigned :
      (model key : Bytes) (o : Option Answer) {r : Record}
      → check_answer l (salt_for l model) key o ≡ ok r
      → (a : Answer) × (o ≡ some a) × IsSigned model key a r
  unfolding check_answer check_signed
  check_answer-IsSigned model key none h = absurd (ground arith)
  check_answer-IsSigned model key (some a) {r} h = go a.sequence refl (decode_record l a.value) refl
    where
      go :
          (seq : Option ℕ)
          → a.sequence ≡ seq
          → (o : Result RecordError Record) → decode_record l a.value ≡ o
          → (b : Answer) × (some a ≡ some b) × IsSigned model key b r
      go none q o p = absurd (ground arith)
      go (some seq) q (err x) p = absurd (ground arith)
      go (some seq) q (ok s) p =
          let same : a.key ≡ key = ground (arith, equal_iff a.key key) in
          (
            a,
            refl,
            record {
              own_key = same;
              signature_holds = (seq, q, ground arith);
              decoded = ground arith;
            },
          )

  get_loop-IsSigned :
      (node : Bytes → Option Answer) (model : Bytes) (last : GetError) (keys : List Bytes)
      {r : Record}
      → get_loop l node (salt_for l model) last keys ≡ ok r
      → (key : Bytes) × (a : Answer) × Among key keys × (node key ≡ some a) × IsSigned model key a r
  unfolding get_loop
  get_loop-IsSigned node model last [] h = absurd (ground arith)
  get_loop-IsSigned node model last (key ∷ keys) {r} h =
      go (λ e. get_loop-IsSigned node model e keys)
        (check_answer l (salt_for l model) key (node key)) refl
    where
      Found : List Bytes → Type 0
      Found ks = (j : Bytes) × (a : Answer) × Among j ks × (node j ≡ some a) × IsSigned model j a r

      go :
          ((e : GetError) → get_loop l node (salt_for l model) e keys ≡ ok r → Found keys)
          → (o : Result GetError Record) → check_answer l (salt_for l model) key (node key) ≡ o
          → Found (key ∷ keys)
      go later (err e) q = let (j, a, m, n, s) = later e (ground arith) in (j, a, inr m, n, s)
      go later (ok s) q =
          let (a, n, g) = check_answer-IsSigned model key (node key) {r = r} (ground arith) in
          (key, a, inl refl, n, g)

  -- Every record that `Get` returns is signed over the model's salt by a key of the allowlist, is what
  -- the node answered for that key, and has the right shape.
  pub get_record-IsSigned :
      (node : Bytes → Option Answer) (keys : List Bytes) (model : Bytes) {r : Record}
      → get_record l node keys model ≡ ok r
      → (key : Bytes) × (a : Answer) × Among key keys
        × (node key ≡ some a)
        × IsSigned model key a r
        × IsRecord r
  unfolding get_record
  get_record-IsSigned node [] model h = absurd (ground arith)
  get_record-IsSigned node (k ∷ keys) model h =
      let (key, a, m, n, s) = get_loop-IsSigned node model _ (k ∷ keys) h in
      (key, a, m, n, s, decode_record-IsRecord a.value s.decoded)

module _ (c : SeqCodec) where
  -- the counter of a salt in memory
  abbrev pub counter : SeqState → Bytes → ℤ
  counter s salt = count_of (find (hex_encode salt) s.seqs)

  current_seqs_kept :
      (d : Disk) (p : FilePath) (seqs : Dict ℤ) → seqs ≢ [] → current_seqs c d p seqs ≡ seqs
  unfolding current_seqs
  current_seqs_kept d p [] n = absurd (n refl)
  current_seqs_kept d p (s ∷ ss) n = refl

  -- Where there are counters in memory, a call of `next` for a salt adds one to that salt's counter in the
  -- arithmetic of int64, so that a counter from 0 to 2 ^ 63 - 2 gets the next number, and leaves the counter of
  -- every salt of another encoding; a number that it returns is the new counter.
  pub next-counter :
      (d : Disk) (s : SeqState) (salt other : Bytes)
      → s.seqs ≢ []
      → (counter (next c d s salt).0 salt ≡ add64 (counter s salt) (pos 1))
        × ((k : ℕ)
            → counter s salt ≡ pos k
            → k + 1 < 2 ^ 63
            → counter (next c d s salt).0 salt ≡ pos (k + 1))
        × (hex_encode other ≢ hex_encode salt → counter (next c d s salt).0 other ≡ counter s other)
        × ((n : ℤ) (e : Disk)
            → (next c d s salt).1 ≡ ok (n, e)
            → n ≡ counter (next c d s salt).0 salt)
  unfolding next bump count_of
  next-counter d s salt other p =
      let seqs = current_seqs c d s.path s.seqs in
      let same : seqs ≡ s.seqs = current_seqs_kept d s.path s.seqs p in
      let key = hex_encode salt in
      let raised = add64 (count_of (find key seqs)) (pos 1) in
      let mine = find-insert key key raised seqs in
      let yours = find-insert (hex_encode other) key raised seqs in
      let up : counter (next c d s salt).0 salt ≡ add64 (counter s salt) (pos 1) =
        ground (arith, equal_refl key) in
      (
        up,
        λ k h b. up ∙ (ap (λ x. add64 x (pos 1)) h ∙ add64-pos k 1 b),
        λ q. ground (arith, equal_iff key (hex_encode other)),
        λ n e h.
            let (f, _, h1) =
              >>=-eq-ok (save_seqs c d s.path (bump c d s salt).seqs)
                (λ f. ok (count_of (find key (bump c d s salt).seqs), f)) h in
            ground arith,
      )
