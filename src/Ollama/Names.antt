-- ===== src/Ollama/Names.antt =====
-- The name that a model gets.
use llmp2p.Common.{
  ℕ, Bool, true, false, ◌&&◌, [], ◌∷◌, none, ◌≡◌, refl, ◌∙◌, ap, arith, ◌==◌, inl, inr, Bool-cases,
}
use llmp2p.Common.Bytes.{
  Bytes, cut, cut_cons, all_bytes, is_empty, is_digit, is_lower, is_upper, lower_byte, to_lower,
  trim_by, trim_left_by, trim_right_by,
}
use llmp2p.Ollama.{is_name_byte, replace_runs, is_edge, repo_of, or_fallback, default_name}

-- the first, or the last byte passes the test
abbrev pub first_is : (ℕ → Bool) → Bytes → Bool
first_is p [] = false
first_is p (c ∷ cs) = p c

abbrev pub last_is : (ℕ → Bool) → Bytes → Bool
last_is p [] = false
last_is p (c ∷ []) = p c
last_is p (c ∷ d ∷ cs) = last_is p (d ∷ cs)

module _ (p : ℕ → Bool) where
  first_is-trim_left_by : (s : Bytes) → first_is p (trim_left_by p s) ≡ false
  unfolding trim_left_by
  first_is-trim_left_by [] = refl
  first_is-trim_left_by (c ∷ cs) = ground (arith, first_is-trim_left_by cs)

  last_is-cons :
      (c : ℕ) (s : Bytes)
      → last_is p s ≡ false
      → (is_empty s ≡ true → p c ≡ false)
      → last_is p (c ∷ s) ≡ false
  unfolding is_empty
  last_is-cons c [] h n = n refl
  last_is-cons c (d ∷ s) h n = h

  last_is-trim_right_by : (s : Bytes) → last_is p (trim_right_by p s) ≡ false
  unfolding trim_right_by
  last_is-trim_right_by [] = refl
  last_is-trim_right_by (c ∷ cs) = elim (Bool-cases (p c && is_empty (trim_right_by p cs))) [
    | inl e ↦ rw e refl
    | inr e ↦
        rw e (last_is-cons c (trim_right_by p cs) (last_is-trim_right_by cs) (λ n. ground arith))
  ]

  first_is-trim_right_by :
      (s : Bytes) → first_is p s ≡ false → first_is p (trim_right_by p s) ≡ false
  unfolding trim_right_by
  first_is-trim_right_by [] h = refl
  first_is-trim_right_by (c ∷ cs) h = ground arith

  trim_left_by_lem : (s : Bytes) → first_is p s ≡ false → trim_left_by p s ≡ s
  unfolding trim_left_by
  trim_left_by_lem [] h = refl
  trim_left_by_lem (c ∷ cs) h = ground arith

  trim_right_by_lem : (s : Bytes) → last_is p s ≡ false → trim_right_by p s ≡ s
  unfolding trim_right_by is_empty
  trim_right_by_lem [] h = refl
  trim_right_by_lem (c ∷ []) h = ground arith
  trim_right_by_lem (c ∷ d ∷ cs) h = rw (trim_right_by_lem (d ∷ cs) h) (ground arith)

  all_bytes-trim_left_by :
      (q : ℕ → Bool) (s : Bytes) → all_bytes q s ≡ true → all_bytes q (trim_left_by p s) ≡ true
  unfolding trim_left_by all_bytes
  all_bytes-trim_left_by q [] h = refl
  all_bytes-trim_left_by q (c ∷ cs) h = ground (arith, all_bytes-trim_left_by q cs)

  all_bytes-trim_right_by :
      (q : ℕ → Bool) (s : Bytes) → all_bytes q s ≡ true → all_bytes q (trim_right_by p s) ≡ true
  unfolding trim_right_by all_bytes
  all_bytes-trim_right_by q [] h = refl
  all_bytes-trim_right_by q (c ∷ cs) h = ground (arith, all_bytes-trim_right_by q cs)

replace_runs-all_bytes : (s : Bytes) → all_bytes is_name_byte (replace_runs s) ≡ true
unfolding replace_runs all_bytes
replace_runs-all_bytes [] = refl
replace_runs-all_bytes (c ∷ cs) =
    let dash : is_name_byte b'-' ≡ true = unfold is_name_byte is_lower is_digit in refl in
    ground (arith, replace_runs-all_bytes cs)

replace_runs_lem : (s : Bytes) → all_bytes is_name_byte s ≡ true → replace_runs s ≡ s
unfolding replace_runs all_bytes
replace_runs_lem [] h = refl
replace_runs_lem (c ∷ cs) h = ground (arith, replace_runs_lem cs)

lower_byte-name : (c : ℕ) → is_name_byte c ≡ true → lower_byte c ≡ c
unfolding lower_byte is_name_byte is_lower is_digit is_upper
lower_byte-name c h = ground arith

to_lower_lem : (s : Bytes) → all_bytes is_name_byte s ≡ true → to_lower s ≡ s
unfolding to_lower all_bytes
to_lower_lem [] h = refl
to_lower_lem (c ∷ cs) h = ground (arith, to_lower_lem cs, lower_byte-name c)

name_byte-slash : (c : ℕ) → is_name_byte c ≡ true → (c == b'/') ≡ false
unfolding is_name_byte is_lower is_digit
name_byte-slash c h = ground arith

cut_lem : (s : Bytes) → all_bytes is_name_byte s ≡ true → cut b'/' s ≡ none
unfolding cut all_bytes cut_cons
cut_lem [] h = refl
cut_lem (c ∷ cs) h = ground (arith, cut_lem cs, name_byte-slash c)

-- The text is a name: not empty, of name bytes, with no dash or dot at an end.
pub record IsName (s : Bytes) : Type 0 where
  pub not_empty : is_empty s ≡ false
  pub name_bytes : all_bytes is_name_byte s ≡ true
  pub first_kept : first_is is_edge s ≡ false
  pub last_kept : last_is is_edge s ≡ false

or_fallback-IsName :
    (s : Bytes)
    → all_bytes is_name_byte s ≡ true
    → first_is is_edge s ≡ false
    → last_is is_edge s ≡ false
    → IsName (or_fallback s)
unfolding or_fallback is_empty
or_fallback-IsName [] h a b = record {
  not_empty = refl;
  name_bytes = unfold all_bytes is_name_byte is_lower is_digit in refl;
  first_kept = unfold is_edge in refl;
  last_kept = unfold is_edge in refl;
}
or_fallback-IsName (c ∷ cs) h a b = record {
  not_empty = refl;
  name_bytes = h;
  first_kept = a;
  last_kept = b;
}

or_fallback_lem : (s : Bytes) → is_empty s ≡ false → or_fallback s ≡ s
unfolding or_fallback is_empty
or_fallback_lem [] h = absurd (ground arith)
or_fallback_lem (c ∷ cs) h = refl

repo_of_lem : (s : Bytes) → all_bytes is_name_byte s ≡ true → repo_of s ≡ s
unfolding repo_of
repo_of_lem s h = ground (arith, cut_lem s h)

trim_by_lem :
    (p : ℕ → Bool) (s : Bytes) → first_is p s ≡ false → last_is p s ≡ false → trim_by p s ≡ s
unfolding trim_by
trim_by_lem p s a b = ap (trim_right_by p) (trim_left_by_lem p s a) ∙ trim_right_by_lem p s b

default_name_of_name : (s : Bytes) → IsName s → default_name s ≡ s
unfolding default_name
default_name_of_name s n =
    let clean : replace_runs (to_lower (repo_of s)) ≡ s =
      ap (λ x. replace_runs (to_lower x)) (repo_of_lem s n.name_bytes)
      ∙ (ap replace_runs (to_lower_lem s n.name_bytes) ∙ replace_runs_lem s n.name_bytes) in
    ap (λ x. or_fallback (trim_by is_edge x)) clean
    ∙ (ap or_fallback (trim_by_lem is_edge s n.first_kept n.last_kept)
        ∙ or_fallback_lem s n.not_empty)

default_name_named : (id : Bytes) → IsName (default_name id)
unfolding default_name trim_by
default_name_named id =
    let text = replace_runs (to_lower (repo_of id)) in
    let left = trim_left_by is_edge text in
    or_fallback-IsName (trim_right_by is_edge left)
      (all_bytes-trim_right_by is_edge is_name_byte left (
        all_bytes-trim_left_by is_edge is_name_byte text
          (replace_runs-all_bytes (to_lower (repo_of id)))))
      (first_is-trim_right_by is_edge left (first_is-trim_left_by is_edge text))
      (last_is-trim_right_by is_edge left)

-- Every text gives a name, which is its own default name.
pub default_name-IsName :
    (id : Bytes) → IsName (default_name id) × (default_name (default_name id) ≡ default_name id)
default_name-IsName id =
    (default_name_named id, default_name_of_name (default_name id) (default_name_named id))
