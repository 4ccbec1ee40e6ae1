-- ===== src/Daemon/Seeders/Order.antt =====
-- What the models to seed give each directory, in whatever order they come.
use llmp2p.Common.{
  Bool, false, ◌||◌, List, [], ◌∷◌, ◌≡◌, refl, ◌∙◌, ap₂, arith, if◌then◌else◌, inl, inr, Bool-cases,
}
use mathlib.Core.Bool.{Bool-set}
use mathlib.Core.Logic.{∥∥₁_elim}
use mathlib.Core.List.{Perm, Perm-prop, Permᴰ}
use mathlib.Core.List.Perm
use llmp2p.Common.Disk.{FilePath, path_eq}
use llmp2p.Daemon.Seeders.{Target}

-- the torrents of the repositories in the directory of an owner
abbrev pub torrents_for : FilePath → List Target → List FilePath
torrents_for p [] = []
torrents_for p (t ∷ ts) =
    let rest = torrents_for p ts in if path_eq t.owner_dir p then t.torrent ∷ rest else rest

abbrev pub has_owner : FilePath → List Target → Bool
has_owner p [] = false
has_owner p (t ∷ ts) = path_eq t.owner_dir p || has_owner p ts

has_owner-Permᴰ :
    (p : FilePath) {ts us : List Target} → Permᴰ ts us → has_owner p ts ≡ has_owner p us
has_owner-Permᴰ p Permᴰ.nil = refl
has_owner-Permᴰ p (Permᴰ.cons e d) =
    ap₂ (λ (t : Target) b. path_eq t.owner_dir p || b) e (has_owner-Permᴰ p d)
has_owner-Permᴰ p (Permᴰ.swap {a = a} {b = b} {l = l} e f) = rw (← e, ← f) (ground arith)
has_owner-Permᴰ p (Permᴰ.trans d e) = has_owner-Permᴰ p d ∙ has_owner-Permᴰ p e

pub has_owner-perm :
    (p : FilePath) {ts us : List Target} → Perm ts us → has_owner p ts ≡ has_owner p us
has_owner-perm p {ts} {us} w =
    ∥∥₁_elim w (Bool-set (has_owner p ts) (has_owner p us)) (has_owner-Permᴰ p)

torrents_for-Permᴰ :
    (p : FilePath) {ts us : List Target}
    → Permᴰ ts us
    → Perm (torrents_for p ts) (torrents_for p us)
torrents_for-Permᴰ p Permᴰ.nil = Perm.rfl
torrents_for-Permᴰ p (Permᴰ.cons {a = a} e d) =
    rw (← e) (elim (Bool-cases (path_eq a.owner_dir p)) [
      | inl q ↦ rw q (Perm.cons a.torrent (torrents_for-Permᴰ p d))
      | inr q ↦ rw q (torrents_for-Permᴰ p d)
    ])
torrents_for-Permᴰ p (Permᴰ.swap {a = a} {b = b} {l = l} e f) =
    rw (← e, ← f)
      (elim (Bool-cases (path_eq a.owner_dir p)) [
        | inl q ↦ elim (Bool-cases (path_eq b.owner_dir p)) [
          | inl r ↦ rw (q, r) (Perm.swap b.torrent a.torrent (torrents_for p l))
          | inr r ↦ rw (q, r) Perm.rfl
        ]
        | inr q ↦ rw q Perm.rfl
      ])
torrents_for-Permᴰ p (Permᴰ.trans d e) =
    Perm.trans (torrents_for-Permᴰ p d) (torrents_for-Permᴰ p e)

pub torrents_for-perm :
    (p : FilePath) {ts us : List Target} → Perm ts us → Perm (torrents_for p ts) (torrents_for p us)
torrents_for-perm p w = ∥∥₁_elim w Perm-prop (torrents_for-Permᴰ p)
