-- ===== src/Common/Dict.antt =====
-- Go maps with string keys, as association lists. What a map holds is what `find` returns; the
-- order of its entries means nothing.
use llmp2p.Common.{
  List, [], ◌∷◌, Option, none, some, ◌≡◌, arith, if◌then◌else◌, Bool-cases, inl, inr,
}
use llmp2p.Common.Bytes.{Bytes, equal}
use llmp2p.Common.Bytes.Laws.{equal_iff}

abbrev pub Dict {ℓ} : Type ℓ → Type ℓ
Dict V = List (Bytes × V)

module _ {ℓ} {V : Type ℓ} where
  -- `v, ok := m[k]`
  unfoldable pub find : Bytes → Dict V → Option V
  find k [] = none
  find k ((j, v) ∷ m) = let rest = find k m in if equal j k then some v else rest

  -- `delete(m, k)`
  unfoldable pub delete : Bytes → Dict V → Dict V
  delete k [] = []
  delete k ((j, v) ∷ m) = let rest = delete k m in if equal j k then rest else (j, v) ∷ rest

  -- `m[k] = v`
  unfoldable pub insert : Bytes → V → Dict V → Dict V
  unfolding delete
  insert k v m = (k, v) ∷ delete k m

  pub find-delete :
      (k j : Bytes) (m : Dict V) → find k (delete j m) ≡ (if equal j k then none else find k m)
  unfolding find delete
  find-delete k j [] = ground arith
  find-delete k j ((i, v) ∷ m) = elim (Bool-cases (equal i j)) [
    | inl e ↦ rw e (rw ((equal_iff i j).0 e) (ground (arith, find-delete k j m)))
    | inr e ↦ rw e (ground (arith, find-delete k j m, equal_iff i j, equal_iff i k, equal_iff j k))
  ]

  pub find-insert :
      (k j : Bytes) (v : V) (m : Dict V)
      → find k (insert j v m) ≡ (if equal j k then some v else find k m)
  unfolding find insert
  find-insert k j v m = ground (arith, find-delete k j m)
