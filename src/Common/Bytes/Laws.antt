-- ===== src/Common/Bytes/Laws.antt =====
-- What the text functions do, as the components use them.
use llmp2p.Common.{
  ℕ, Bool, true, false, ◌&&◌, List, [], ◌∷◌, ◌++◌, Option, none, some, ◌≡◌, ◌≢◌, ◌↔◌, refl, arith,
  ◌==◌, All, inl, inr, Bool-cases,
}
use llmp2p.Common.Bytes.{
  Bytes, equal, less, all_bytes, cut_prefix, cut_cons, cut, contains_byte, split, cons_head, join,
}

pub equal_iff : (a b : Bytes) → (equal a b ≡ true) ↔ (a ≡ b)
unfolding equal
equal_iff [] [] = ground arith
equal_iff [] (y ∷ b) = ground arith
equal_iff (x ∷ a) [] = ground arith
equal_iff (x ∷ a) (y ∷ b) = ground (arith, equal_iff a b)

pub equal_refl : (a : Bytes) → equal a a ≡ true
equal_refl a = (equal_iff a a).1 refl

pub less_irrefl : (a : Bytes) → less a a ≡ false
unfolding less
less_irrefl [] = refl
less_irrefl (x ∷ a) = ground (arith, less_irrefl a)

pub less_trans : (a b c : Bytes) → less a b ≡ true → less b c ≡ true → less a c ≡ true
unfolding less
less_trans [] [] c p q = cc
less_trans [] (y ∷ b) [] p q = cc
less_trans [] (y ∷ b) (z ∷ c) p q = refl
less_trans (x ∷ a) [] c p q = cc
less_trans (x ∷ a) (y ∷ b) [] p q = cc
less_trans (x ∷ a) (y ∷ b) (z ∷ c) p q = ground (arith, less_trans a b c)

module _ (p : ℕ → Bool) where
  pub all_bytes-append : (a b : Bytes) → all_bytes p (a ++ b) ≡ (all_bytes p a && all_bytes p b)
  unfolding all_bytes
  all_bytes-append [] b = refl
  all_bytes-append (c ∷ a) b = ground (arith, all_bytes-append a b)

  -- A separator that the class excludes is not found in the text.
  pub cut-eq-none : (sep : ℕ) (s : Bytes) → all_bytes p s ≡ true → p sep ≡ false → cut sep s ≡ none
  unfolding all_bytes cut
  cut-eq-none sep [] h n = refl
  cut-eq-none sep (c ∷ s) h n = ground (arith, cut-eq-none sep s)

  -- The first separator is the one that follows a text without it.
  pub cut-append :
      (sep : ℕ) (s t : Bytes)
      → all_bytes p s ≡ true
      → p sep ≡ false
      → cut sep (s ++ (sep ∷ t)) ≡ some (s, t)
  unfolding all_bytes cut
  cut-append sep [] t h n = ground arith
  cut-append sep (c ∷ s) t h n = ground (arith, cut-append sep s t)

cut_cons-eq-some :
    (sep c : ℕ) (s a b : Bytes) (r : Option (Bytes × Bytes))
    → ((x y : Bytes) → r ≡ some (x, y) → s ≡ x ++ (sep ∷ y))
    → cut_cons c r ≡ some (a, b)
    → c ∷ s ≡ a ++ (sep ∷ b)
unfolding cut_cons
cut_cons-eq-some sep c s a b none ih h = cc
cut_cons-eq-some sep c s a b (some (x, y)) ih h = ground (arith, ih x y refl)

-- A text is what stands before its first separator, the separator, and what follows.
pub cut-eq-some : (sep : ℕ) (s a b : Bytes) → cut sep s ≡ some (a, b) → s ≡ a ++ (sep ∷ b)
unfolding cut
cut-eq-some sep [] a b h = cc
cut-eq-some sep (c ∷ s) a b h =
    ground (arith, cut_cons-eq-some sep c s a b (cut sep s) (λ x y e. cut-eq-some sep s x y e))

pub cut_prefix-append : (p s : Bytes) → cut_prefix (p ++ s) p ≡ some s
unfolding cut_prefix
cut_prefix-append [] s = refl
cut_prefix-append (c ∷ p) s = ground (arith, cut_prefix-append p s)

pub split-ne-nil : (sep : ℕ) (s : Bytes) → split sep s ≢ []
unfolding split
split-ne-nil sep [] h = cc
split-ne-nil sep (c ∷ s) h = ground arith

join-cons_head : (sep c : ℕ) (ss : List Bytes) → join sep (cons_head c ss) ≡ c ∷ join sep ss
unfolding join cons_head
join-cons_head sep c [] = refl
join-cons_head sep c (s ∷ []) = refl
join-cons_head sep c (s ∷ t ∷ ss) = refl

join-cons_nil : (sep : ℕ) (ss : List Bytes) → ss ≢ [] → join sep ([] ∷ ss) ≡ sep ∷ join sep ss
unfolding join
join-cons_nil sep [] h = absurd (h refl)
join-cons_nil sep (s ∷ ss) h = refl

pub join-split : (sep : ℕ) (s : Bytes) → join sep (split sep s) ≡ s
unfolding split
join-split sep [] = unfold join in refl
join-split sep (c ∷ s) = ground (
  arith,
  join-cons_head sep c (split sep s),
  join-cons_nil sep (split sep s) (split-ne-nil sep s),
  join-split sep s,
)

cons_head-lacks :
    (sep c : ℕ) (ss : List Bytes)
    → (c == sep) ≡ false
    → All (λ t. contains_byte sep t ≡ false) ss
    → All (λ t. contains_byte sep t ≡ false) (cons_head c ss)
unfolding contains_byte cons_head
cons_head-lacks sep c [] h k = ground arith
cons_head-lacks sep c (s ∷ ss) h k = (ground (arith, k.0), k.1)

nil_lacks : (sep : ℕ) → contains_byte sep [] ≡ false
unfolding contains_byte
nil_lacks sep = refl

-- No piece has the separator.
pub split-lacks : (sep : ℕ) (s : Bytes) → All (λ t. contains_byte sep t ≡ false) (split sep s)
unfolding split
split-lacks sep [] = (nil_lacks sep, tt)
split-lacks sep (c ∷ s) = elim (Bool-cases (c == sep)) [
  | inl e ↦ rw e (nil_lacks sep, split-lacks sep s)
  | inr e ↦ rw e (cons_head-lacks sep c (split sep s) e (split-lacks sep s))
]

pub contains_byte-append :
    (b : ℕ) (s t : Bytes)
    → contains_byte b s ≡ false
    → contains_byte b t ≡ false
    → contains_byte b (s ++ t) ≡ false
unfolding contains_byte
contains_byte-append b [] t h k = k
contains_byte-append b (c ∷ s) t h k = ground (arith, contains_byte-append b s t)
