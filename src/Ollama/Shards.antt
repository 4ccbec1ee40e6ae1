-- ===== src/Ollama/Shards.antt =====
-- Which names `shardRe` takes.
use llmp2p.Common.{
  ℕ, zero, suc, true, false, [], ◌∷◌, ◌++◌, Option, none, some, ◌≡◌, ◌↔◌, refl, ap, ◌∙◌, arith, inl,
  inr, Bool-cases, length,
}
use llmp2p.Common.Bytes.{Bytes, codes, cut_prefix, all_bytes, is_digit}
use llmp2p.Common.Bytes.Laws.{equal_iff, cut_prefix-append}
use llmp2p.Ollama.{skip, skip_digit, skip_digits, is_text, shard_here, is_shard}

-- so many digits
abbrev pub AreDigits : ℕ → Bytes → Type 0
AreDigits n s = (length s ≡ n) × (all_bytes is_digit s ≡ true)

-- The name ends in a dash, five digits, `-of-`, five digits, and `.gguf` in lower case.
pub record IsShardName (name : Bytes) : Type 0 where
  pub front : Bytes
  pub number : Bytes
  pub total : Bytes
  pub number_digits : AreDigits 5 number
  pub total_digits : AreDigits 5 total
  pub is_joined :
      name ≡ front ++ (codes "-" ++ (number ++ (codes "-of-" ++ (total ++ codes ".gguf"))))

skip_digits-none : (n : ℕ) → skip_digits n none ≡ none
unfolding skip_digits skip_digit
skip_digits-none zero = refl
skip_digits-none (suc n) = skip_digits-none n

skip_digits-eq-some :
    (n : ℕ) (s : Bytes) {r : Bytes}
    → skip_digits n (some s) ≡ some r
    → (a : Bytes) × (s ≡ a ++ r) × AreDigits n a
unfolding skip_digits skip_digit all_bytes
skip_digits-eq-some zero s h = ([], ground arith, (refl, refl))
skip_digits-eq-some (suc n) [] h = absurd (ground (arith, skip_digits-none n))
skip_digits-eq-some (suc n) (c ∷ cs) {r} h = elim (Bool-cases (is_digit c)) [
  | inr q ↦ absurd (ground (arith, skip_digits-none n))
  | inl q ↦
      let (a, e, (l, d)) = skip_digits-eq-some n cs {r = r} (ground arith) in
      (c ∷ a, ap (◌∷◌ c) e, (ap suc l, ground arith))
]

skip_digits-append : (n : ℕ) (a r : Bytes) → AreDigits n a → skip_digits n (some (a ++ r)) ≡ some r
unfolding skip_digits skip_digit all_bytes
skip_digits-append zero [] r h = refl
skip_digits-append zero (c ∷ a) r h = absurd (ground arith)
skip_digits-append (suc n) [] r h = absurd (ground arith)
skip_digits-append (suc n) (c ∷ a) r h =
    ground (arith, skip_digits-append n a r (ground arith, ground arith))

cut_prefix-eq-some : (s p : Bytes) {r : Bytes} → cut_prefix s p ≡ some r → s ≡ p ++ r
unfolding cut_prefix
cut_prefix-eq-some s [] h = ground arith
cut_prefix-eq-some [] (c ∷ p) h = absurd (ground arith)
cut_prefix-eq-some (b ∷ s) (c ∷ p) {r} h = ground (arith, cut_prefix-eq-some s p {r = r})

-- The stages of the expression, from the end.
is_text-eq-true : (t : Bytes) (o : Option Bytes) → is_text t o ≡ true → o ≡ some t
unfolding is_text
is_text-eq-true t none h = absurd (ground arith)
is_text-eq-true t (some s) h = ap some ((equal_iff s t).0 h)

digits_stage :
    (n : ℕ) (o : Option Bytes) {r : Bytes}
    → skip_digits n o ≡ some r
    → (a : Bytes) × (o ≡ some (a ++ r)) × AreDigits n a
digits_stage n none h = absurd (ground (arith, skip_digits-none n))
digits_stage n (some s) h = let (a, e, d) = skip_digits-eq-some n s h in (a, ap some e, d)

skip_stage : (p : Bytes) (o : Option Bytes) {r : Bytes} → skip p o ≡ some r → o ≡ some (p ++ r)
unfolding skip
skip_stage p none h = absurd (ground arith)
skip_stage p (some s) h = ap some (cut_prefix-eq-some s p h)

shard_here-IsShardName : (s : Bytes) → shard_here s ≡ true → IsShardName s
unfolding shard_here
shard_here-IsShardName s h =
    let e0 = is_text-eq-true (codes ".gguf") _ h in
    let (b, e1, db) = digits_stage 5 _ e0 in
    let e2 = skip_stage (codes "-of-") _ e1 in
    let (a, e3, da) = digits_stage 5 _ e2 in
    let e4 = skip_stage (codes "-") (some s) e3 in
    record {
      front = [];
      number = a;
      total = b;
      number_digits = da;
      total_digits = db;
      is_joined = cc;
    }

is_shard-IsShardName : (s : Bytes) → is_shard s ≡ true → IsShardName s
unfolding is_shard
is_shard-IsShardName [] h = absurd (ground arith)
is_shard-IsShardName (c ∷ s) h = elim (Bool-cases (shard_here (c ∷ s))) [
  | inl q ↦ shard_here-IsShardName (c ∷ s) q
  | inr q ↦
      let r = is_shard-IsShardName s (ground arith) in
      record {
        front = c ∷ r.front;
        number = r.number;
        total = r.total;
        number_digits = r.number_digits;
        total_digits = r.total_digits;
        is_joined = ap (◌∷◌ c) r.is_joined;
      }
]

shard_here_lem :
    (a b : Bytes)
    → AreDigits 5 a
    → AreDigits 5 b
    → shard_here (codes "-" ++ (a ++ (codes "-of-" ++ (b ++ codes ".gguf")))) ≡ true
unfolding shard_here skip is_text
shard_here_lem a b da db =
    rw
      (
        cut_prefix-append (codes "-") (a ++ (codes "-of-" ++ (b ++ codes ".gguf"))),
        skip_digits-append 5 a (codes "-of-" ++ (b ++ codes ".gguf")) da,
        cut_prefix-append (codes "-of-") (b ++ codes ".gguf"),
        skip_digits-append 5 b (codes ".gguf") db,
      )
      ((equal_iff (codes ".gguf") (codes ".gguf")).1 refl)

is_shard-append :
    (front : Bytes) (c : ℕ) (s : Bytes)
    → shard_here (c ∷ s) ≡ true
    → is_shard (front ++ c ∷ s) ≡ true
unfolding is_shard
is_shard-append [] c s h = ground arith
is_shard-append (b ∷ front) c s h = ground (arith, is_shard-append front c s h)

-- The test for a shard, against the form of the names.
is_shard_iff : (s : Bytes) → (is_shard s ≡ true) ↔ IsShardName s
is_shard_iff s = (
  is_shard-IsShardName s,
  λ r.
      ap is_shard r.is_joined
      ∙ is_shard-append r.front b'-' (r.number ++ (codes "-of-" ++ (r.total ++ codes ".gguf")))
          (shard_here_lem r.number r.total r.number_digits r.total_digits),
)

pub no_shard : (s : Bytes) → ¬ IsShardName s → is_shard s ≡ false
no_shard s n = elim (Bool-cases (is_shard s)) [
  | inl q ↦ absurd (n (is_shard-IsShardName s q))
  | inr q ↦ q
]

pub not-IsShardName : (s : Bytes) → is_shard s ≡ false → ¬ IsShardName s
not-IsShardName s h r = absurd (let q = (is_shard_iff s).1 r in ground arith)
