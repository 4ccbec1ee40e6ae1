-- ===== src/Ref/Pattern.antt =====
-- The regular expressions of internal/ref: which bytes a matching text may hold.
use llmp2p.Common.{ℕ, ◌≤◌, Bool, true, false, [], ◌∷◌, ◌≡◌, refl, arith, leb, length, and_split}
use llmp2p.Common.Bytes.{Bytes, all_bytes, class_between, is_alnum, contains_byte}
use llmp2p.Ref.{
  is_owner_byte, is_repo_byte, is_revision_byte, ends_alnum, owner_tail, owner_re, repo_re, rev_re,
}

alnum-is_owner_byte : (c : ℕ) → is_alnum c ≡ true → is_owner_byte c ≡ true
unfolding is_owner_byte
alnum-is_owner_byte c h = ground arith

ends_alnum-all_bytes :
    (c : ℕ) (cs : Bytes) → ends_alnum c cs ≡ true → all_bytes is_owner_byte (c ∷ cs) ≡ true
unfolding ends_alnum all_bytes
ends_alnum-all_bytes c [] h = ground (arith, alnum-is_owner_byte c)
ends_alnum-all_bytes c (d ∷ cs) h = ground (arith, ends_alnum-all_bytes d cs)

owner_tail-all_bytes : (s : Bytes) → owner_tail s ≡ true → all_bytes is_owner_byte s ≡ true
unfolding owner_tail
owner_tail-all_bytes [] h = unfold all_bytes in refl
owner_tail-all_bytes (c ∷ s) h =
    ends_alnum-all_bytes c s (and_split (leb (length (c ∷ s)) 94) (ends_alnum c s) h).1

pub owner_re-all_bytes : (s : Bytes) → owner_re s ≡ true → all_bytes is_owner_byte s ≡ true
unfolding owner_re all_bytes
owner_re-all_bytes [] h = refl
owner_re-all_bytes (c ∷ s) h = ground (arith, alnum-is_owner_byte c, owner_tail-all_bytes s)

-- An owner has 1 to 95 bytes.
pub owner_re_bounds : (s : Bytes) → owner_re s ≡ true → (1 ≤ length s) × (length s ≤ 95)
unfolding owner_re owner_tail
owner_re_bounds [] h = ground arith
owner_re_bounds (c ∷ []) h = omega arith
owner_re_bounds (c ∷ d ∷ s) h = ground arith

pub class_between-all_bytes :
    (p : ℕ → Bool) (lo hi : ℕ) (s : Bytes) → class_between p lo hi s ≡ true → all_bytes p s ≡ true
unfolding class_between
class_between-all_bytes p lo hi s h = ground arith

pub class_between_bounds :
    (p : ℕ → Bool) (lo hi : ℕ) (s : Bytes)
    → class_between p lo hi s ≡ true
    → (lo ≤ length s) × (length s ≤ hi)
unfolding class_between
class_between_bounds p lo hi s h = ground arith

pub repo_re-all_bytes : (s : Bytes) → repo_re s ≡ true → all_bytes is_repo_byte s ≡ true
unfolding repo_re
repo_re-all_bytes s = class_between-all_bytes is_repo_byte 1 96 s

pub rev_re-all_bytes : (s : Bytes) → rev_re s ≡ true → all_bytes is_revision_byte s ≡ true
unfolding rev_re
rev_re-all_bytes s = class_between-all_bytes is_revision_byte 1 200 s

-- A class without a byte keeps it out of the text.
pub all_bytes-contains_byte :
    (p : ℕ → Bool) (b : ℕ) (s : Bytes)
    → all_bytes p s ≡ true
    → p b ≡ false
    → contains_byte b s ≡ false
unfolding all_bytes contains_byte
all_bytes-contains_byte p b [] h n = refl
all_bytes-contains_byte p b (c ∷ s) h n = ground (arith, all_bytes-contains_byte p b s)
