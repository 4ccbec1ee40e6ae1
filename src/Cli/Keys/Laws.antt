-- ===== src/Cli/Keys/Laws.antt =====
-- Keys that are given, and keys that are made.
use llmp2p.Common.{
  ℕ, zero, suc, ◌+◌, ◌*◌, Bool, true, false, not, [], ◌∷◌, ◌++◌, Option, none, some, ok, ◌≡◌, refl,
  ◌∙◌, ap, subst, arith, if◌then◌else◌, length, inl, inr, Bool-cases, Result-cases, >>=-eq-ok,
}
use llmp2p.Common.Bytes.{
  Bytes, all_bytes, is_digit, is_empty, is_space, trim_by, trim_left_by, trim_right_by,
}
use llmp2p.Common.Bytes.Hex.{hex_decode, hex_value, hex_pair}
use llmp2p.Common.Disk.{FilePath, Disk, read_file, write_file}
use llmp2p.Common.Disk.Laws.{read_file-write_file}
use llmp2p.Dht.{decode_hex_key}
use llmp2p.Store.Remove.{is_not_exist}
use llmp2p.Cli.Keys.{
  is_hex_byte, is_hex_key, check_swarm_key, swarm_key_text, resolve_swarm_key, KeyLibrary, seed_of,
  create_key, load_or_create,
}

hex_value-is_hex_byte : (c : ℕ) → is_hex_byte c ≡ true → (n : ℕ) × (hex_value c ≡ some n)
unfolding is_hex_byte hex_value is_digit
hex_value-is_hex_byte c h = go (hex_value c) refl
  where
    go : (o : Option ℕ) → hex_value c ≡ o → (n : ℕ) × (hex_value c ≡ some n)
    go (some n) e = (n, e)
    go none e = absurd (ground arith)

hex_decode-is_hex_key :
    (n : ℕ) (s : Bytes)
    → length s ≡ n + n
    → is_hex_key s ≡ true
    → (b : Bytes) × (hex_decode s ≡ some b) × (length b ≡ n)
unfolding hex_decode hex_pair is_hex_key all_bytes
hex_decode-is_hex_key zero [] h k = ([], refl, refl)
hex_decode-is_hex_key zero (c ∷ s) h k = absurd (ground arith)
hex_decode-is_hex_key (suc n) [] h k = absurd (ground arith)
hex_decode-is_hex_key (suc n) (a ∷ []) h k = absurd (ground arith)
hex_decode-is_hex_key (suc n) (a ∷ c ∷ s) h k =
    let (x, p) = hex_value-is_hex_byte a (ground arith) in
    let (y, q) = hex_value-is_hex_byte c (ground arith) in
    let (b, e, l) = hex_decode-is_hex_key n s (omega (arith, h)) (ground arith) in
    ((x * 16 + y) ∷ b, ground arith, ground arith)

check_swarm_key-key :
    (key : Bytes)
    → length key ≡ 64
    → is_hex_key key ≡ true
    → (raw : Bytes) × (decode_hex_key key ≡ ok raw)
unfolding decode_hex_key
check_swarm_key-key key h k = let (b, e, l) = hex_decode-is_hex_key 32 key h k in (b, ground arith)

-- A swarm key that is accepted, inline or from a file, is one that the client of the DHT can read.
pub resolve_swarm_key-decode_hex_key :
    (path_of : Bytes → FilePath) (d : Disk) (text : Bytes) {key : Bytes}
    → resolve_swarm_key path_of d text ≡ ok key
    → (raw : Bytes) × (decode_hex_key key ≡ ok raw)
unfolding resolve_swarm_key check_swarm_key
resolve_swarm_key-decode_hex_key path_of d text {key} h =
    let (t, p, q) = >>=-eq-ok (swarm_key_text path_of d text) check_swarm_key h in
    let same : t ≡ key = ground arith in check_swarm_key-key key (ground arith) (ground arith)

-- base64 reads what it writes and writes no space, and a seed has 32 bytes.
pub record IsLawful (l : KeyLibrary) : Type 0 where
  pub decode_encode : (s : Bytes) → l.decode (l.encode s) ≡ some s
  pub encode_plain : (s : Bytes) → all_bytes (λ c. not (is_space c)) (l.encode s) ≡ true
  pub seed_length : (s : Bytes) → l.generate ≡ some s → length s ≡ 32

trim_right_by-newline :
    (s : Bytes)
    → all_bytes (λ c. not (is_space c)) s ≡ true
    → trim_right_by is_space (s ++ 10 ∷ []) ≡ s
unfolding trim_right_by all_bytes
trim_right_by-newline [] h = unfold is_space is_empty in refl
trim_right_by-newline (c ∷ s) h = ground (arith, trim_right_by-newline s)

trim_by-newline :
    (s : Bytes) → all_bytes (λ c. not (is_space c)) s ≡ true → trim_by is_space (s ++ 10 ∷ []) ≡ s
unfolding trim_by trim_left_by all_bytes
trim_by-newline [] h = unfold is_space trim_right_by is_empty in refl
trim_by-newline (c ∷ s) h =
    let plain : is_space c ≡ false = ground arith in
    ap
      (λ b.
        trim_right_by is_space
          (if b then trim_left_by is_space (s ++ 10 ∷ []) else c ∷ (s ++ 10 ∷ [])))
      plain
    ∙ trim_right_by-newline (c ∷ s) h

module _ (l : KeyLibrary) (law : IsLawful l) where
  seed_of-encode :
      (p : FilePath) (seed : Bytes)
      → length seed ≡ 32
      → seed_of l p (l.encode seed ++ 10 ∷ []) ≡ ok seed
  unfolding seed_of
  seed_of-encode p seed h =
      let t = trim_by-newline (l.encode seed) (law.encode_plain seed) in
      let e = law.decode_encode seed in ground (arith, t, e)

  create_key-eq-ok :
      (p : FilePath) (d f : Disk) (seed : Bytes) (made : Bool)
      → create_key l p d ≡ ok (seed, made, f)
      → (l.generate ≡ some seed) × (read_file f p ≡ ok (l.encode seed ++ 10 ∷ []))
  unfolding create_key
  create_key-eq-ok p d f seed made h = go l.generate refl
    where
      go :
          (o : Option Bytes)
          → l.generate ≡ o
          → (l.generate ≡ some seed) × (read_file f p ≡ ok (l.encode seed ++ 10 ∷ []))
      go none e = absurd (ground arith)
      go (some x) e = elim (Result-cases (write_file d p (l.encode x ++ 10 ∷ []))) [
        | inr (y, w) ↦ absurd (ground arith)
        | inl (g, w) ↦
            let a : x ≡ seed = ground arith in
            let b : g ≡ f = ground arith in
            let r = read_file-write_file d g p (l.encode x ++ 10 ∷ []) w in
            (
              e ∙ ap some a,
              subst (λ y. read_file y p ≡ ok (l.encode seed ++ 10 ∷ [])) b
                  (r ∙ ap (λ y. ok (l.encode y ++ 10 ∷ [])) a),
            )
      ]

  load_existing :
      (p : FilePath) (d : Disk) (b seed : Bytes)
      → read_file d p ≡ ok b
      → seed_of l p b ≡ ok seed
      → load_or_create l p d ≡ ok (seed, false, d)
  unfolding load_or_create
  load_existing p d b seed r s = ground arith

  -- The key that is loaded or created is the one that is loaded from then on.
  pub load_or_create_again :
      (p : FilePath) (d f : Disk) (seed : Bytes) (made : Bool)
      → load_or_create l p d ≡ ok (seed, made, f)
      → load_or_create l p f ≡ ok (seed, false, f)
  unfolding load_or_create
  load_or_create_again p d f seed made h = elim (Result-cases (read_file d p)) [
    | inl (b, r) ↦ elim (Result-cases (seed_of l p b)) [
      | inr (e, q) ↦ absurd (ground arith)
      | inl (x, q) ↦
          let a : x ≡ seed = ground arith in
          let same : d ≡ f = ground arith in
          subst (λ y. load_or_create l p y ≡ ok (seed, false, y)) same
            (load_existing p d b seed r (q ∙ ap ok a))
    ]
    | inr (e, r) ↦ elim (Bool-cases (is_not_exist (read_file d p))) [
      | inr n ↦ absurd (ground arith)
      | inl n ↦
          let (g, w) = create_key-eq-ok p d f seed made (ground arith) in
          load_existing p f (l.encode seed ++ 10 ∷ []) seed w
            (seed_of-encode p seed (law.seed_length seed g))
    ]
  ]
