-- ===== src/Common/Disk/Laws.antt =====
-- Laws of paths and of the disk, in the form in which the components use them.
use llmp2p.Common.{
  err, >>=-eq-ok, ◌>>=◌, Bool, true, false, List, [], ◌∷◌, ◌++◌, none, ok, ◌≡◌, ◌≢◌, ◌↔◌, refl, ap,
  sym, ◌∙◌, arith, if◌then◌else◌, All, inl, inr, Bool-cases, append-nil, append_assoc,
  append-cancel, ap₂,
}
use mathlib.Core.Bool.{false≢true}
use llmp2p.Common.Bytes.{Bytes, codes}
use llmp2p.Common.Bytes.Laws.{equal_iff, equal_refl}
use llmp2p.Common.Disk.{
  rename, not_exist, FilePath, path_eq, is_above, parent, push, push_all, Node, file, dir, Disk,
  lookup, sweep, put_node, stat, read_file, write_file, remove, mkdir_below, mkdir_all, remove_all,
}

pub path_eq_iff : (p q : FilePath) → (path_eq p q ≡ true) ↔ (p ≡ q)
unfolding path_eq
path_eq_iff [] [] = ground arith
path_eq_iff [] (b ∷ q) = ground arith
path_eq_iff (a ∷ p) [] = ground arith
path_eq_iff (a ∷ p) (b ∷ q) = ground (arith, path_eq_iff p q, equal_iff a b)

pub path_eq_refl : (p : FilePath) → path_eq p p ≡ true
path_eq_refl p = (path_eq_iff p p).1 refl

-- A segment that names an entry of the directory it stands in.
abbrev pub IsPlain : Bytes → Type 0
IsPlain seg = (seg ≢ []) × (seg ≢ codes ".") × (seg ≢ codes "..")

pub push-IsPlain : (p : FilePath) (seg : Bytes) → IsPlain seg → push p seg ≡ p ++ seg ∷ []
unfolding push
push-IsPlain p seg (a, b, c) =
    ground (arith, equal_iff seg [], equal_iff seg (codes "."), equal_iff seg (codes ".."))

-- Joining plain segments goes down from the directory, and never up.
pub push_all-IsPlain :
    (p : FilePath) (segs : List Bytes) → All IsPlain segs → push_all p segs ≡ p ++ segs
unfolding push_all
push_all-IsPlain p [] h = sym (append-nil p)
push_all-IsPlain p (seg ∷ segs) h =
    rw (push-IsPlain p seg h.0, push_all-IsPlain (p ++ seg ∷ []) segs h.1)
      (append_assoc p (seg ∷ []) segs)

pub is_above-append : (p q : FilePath) → is_above p (p ++ q) ≡ true
unfolding is_above
is_above-append [] q = refl
is_above-append (a ∷ p) q = rw (equal_refl a, is_above-append p q)

pub lookup-sweep :
    (gone : FilePath → Bool) (p : FilePath) (ns : List (FilePath × Node))
    → lookup p (sweep gone ns) ≡ (if gone p then none else lookup p ns)
unfolding sweep lookup
lookup-sweep gone p [] = ground arith
lookup-sweep gone p ((q, n) ∷ ns) = elim (Bool-cases (path_eq q p)) [
  | inl e ↦ rw ((path_eq_iff q p).0 e) (ground (arith, lookup-sweep gone p ns, path_eq_refl p))
  | inr e ↦ ground (arith, lookup-sweep gone p ns)
]

pub read_file-write_file :
    (d e : Disk) (p : FilePath) (b : Bytes) → write_file d p b ≡ ok e → read_file e p ≡ ok b
unfolding write_file read_file put_node
read_file-write_file d e p b h = ground (arith, path_eq_refl p)

pub stat_of_read_file :
    (d : Disk) (p : FilePath) (b : Bytes) → read_file d p ≡ ok b → stat d p ≡ ok (file b)
unfolding read_file
stat_of_read_file d p b h = ground arith

pub parent-append : (p : FilePath) (seg : Bytes) → parent (p ++ seg ∷ []) ≡ p
unfolding parent
parent-append [] seg = refl
parent-append (a ∷ []) seg = refl
parent-append (a ∷ b ∷ p) seg = ap (◌∷◌ a) (parent-append (b ∷ p) seg)

pub is_above-eq-true : (p q : FilePath) → is_above p q ≡ true → (t : FilePath) × (q ≡ p ++ t)
unfolding is_above
is_above-eq-true [] q h = (q, refl)
is_above-eq-true (a ∷ p) [] h = absurd (ground arith)
is_above-eq-true (a ∷ p) (b ∷ q) h =
    let (t, e) = is_above-eq-true p q (ground arith) in
    let same : a ≡ b = ground (arith, equal_iff a b) in (t, ap₂ ◌∷◌ (sym same) e)

-- What lies below a directory is not above it.
pub is_above_self : (p : FilePath) (a : Bytes) (t : FilePath) → is_above (p ++ (a ∷ t)) p ≡ false
unfolding is_above
is_above_self [] a t = refl
is_above_self (b ∷ p) a t = rw (equal_refl b, is_above_self p a t)

pub lookup-put_node :
    (p q : FilePath) (n : Node) (d : Disk)
    → path_eq p q ≡ false
    → lookup q (put_node p n d).nodes ≡ lookup q d.nodes
unfolding put_node lookup
lookup-put_node p q n d h = ground arith

pub lookup-write_file :
    (d e : Disk) (p q : FilePath) (b : Bytes)
    → write_file d p b ≡ ok e
    → path_eq p q ≡ false
    → lookup q e.nodes ≡ lookup q d.nodes
unfolding write_file
lookup-write_file d e p q b h n = ground (arith, lookup-put_node p q (file b) d n)

pub lookup-remove :
    (d e : Disk) (p q : FilePath)
    → remove d p ≡ ok e
    → path_eq p q ≡ false
    → lookup q e.nodes ≡ lookup q d.nodes
unfolding remove
lookup-remove d e p q h n = ground (arith, lookup-sweep (path_eq p) q d.nodes)

pub lookup-remove_all :
    (d e : Disk) (p q : FilePath)
    → remove_all d p ≡ ok e
    → lookup q e.nodes ≡ (if is_above p q then none else lookup q d.nodes)
unfolding remove_all
lookup-remove_all d e p q h = ground (arith, lookup-sweep (is_above p) q d.nodes)

not_on_way :
    (p q : FilePath) (seg : Bytes) (segs : List Bytes)
    → is_above q (p ++ (seg ∷ segs)) ≡ false
    → path_eq (p ++ seg ∷ []) q ≡ false
not_on_way p q seg segs h = elim (Bool-cases (path_eq (p ++ seg ∷ []) q)) [
  | inl e ↦
      let same = (path_eq_iff (p ++ seg ∷ []) q).0 e in
      absurd (
        false≢true (
          sym h
          ∙ rw (← same, ← append_assoc p (seg ∷ []) segs) (is_above-append (p ++ seg ∷ []) segs)))
  | inr e ↦ e
]

-- Making directories changes nothing but the paths on the way.
pub lookup-mkdir_below :
    (d e : Disk) (p q : FilePath) (segs : List Bytes)
    → mkdir_below d p segs ≡ ok e
    → is_above q (p ++ segs) ≡ false
    → lookup q e.nodes ≡ lookup q d.nodes
unfolding mkdir_below
lookup-mkdir_below d e p q [] h n = ground arith
lookup-mkdir_below d e p q (seg ∷ segs) h n =
    let r = p ++ seg ∷ [] in
    let m = rw (← append_assoc p (seg ∷ []) segs) at n in
    ground (
      arith,
      lookup-mkdir_below (put_node r dir d) e r q segs,
      lookup-mkdir_below d e r q segs,
      lookup-put_node r q dir d (not_on_way p q seg segs n),
    )

pub lookup-mkdir_all :
    (d e : Disk) (p q : FilePath)
    → mkdir_all d p ≡ ok e
    → is_above q p ≡ false
    → lookup q e.nodes ≡ lookup q d.nodes
unfolding mkdir_all
lookup-mkdir_all d e p q h n = lookup-mkdir_below d e [] q p h n

pub path_eq-eq-false : (p q : FilePath) → p ≢ q → path_eq p q ≡ false
path_eq-eq-false p q n = elim (Bool-cases (path_eq p q)) [
  | inl e ↦ absurd (n ((path_eq_iff p q).0 e))
  | inr e ↦ e
]

-- Two entries of a directory, and what lies below them, are apart.
pub path_eq_apart :
    (r : FilePath) (a b : Bytes) (t u : FilePath)
    → a ≢ b
    → path_eq (r ++ (a ∷ t)) (r ++ (b ∷ u)) ≡ false
path_eq_apart r a b t u n = path_eq-eq-false _ _ (λ e. n (head_eq (append-cancel r e)))
  where
    head_eq : ◌≡◌ {A = FilePath} (a ∷ t) (b ∷ u) → a ≡ b
    head_eq e = cc

remove-refuses : (d e : Disk) (p q : FilePath) → remove d p ≡ ok e → e.refuses q ≡ d.refuses q
unfolding remove
remove-refuses d e p q h = ground arith

read_file-remove :
    (d e : Disk) (p q : FilePath)
    → remove d p ≡ ok e
    → path_eq p q ≡ false
    → read_file e q ≡ read_file d q
unfolding read_file stat
read_file-remove d e p q h n = rw (remove-refuses d e p q h, lookup-remove d e p q h n)

remove_gone : (d e : Disk) (p : FilePath) → remove d p ≡ ok e → lookup p e.nodes ≡ none
unfolding remove
remove_gone d e p h = ground (arith, lookup-sweep (path_eq p) p d.nodes, path_eq_refl p)

pub read_file-rename :
    (d e : Disk) (p q : FilePath) (b : Bytes)
    → path_eq p q ≡ false
    → read_file d p ≡ ok b
    → rename d p q ≡ ok e
    → read_file e q ≡ ok b
unfolding rename
read_file-rename d e p q b n r h =
    let (b', rb, h1) = >>=-eq-ok (read_file d p) (λ b. write_file d q b >>= λ f. remove f p) h in
    let (f, wf, h2) = >>=-eq-ok (write_file d q b') (λ f. remove f p) h1 in
    let w = read_file-write_file d f q b' wf in
    let u = read_file-remove f e p q h2 n in ground arith

-- A file that was removed is gone.
pub stat-remove :
    (d e : Disk) (p : FilePath) → d.refuses p ≡ false → remove d p ≡ ok e → stat e p ≡ err not_exist
unfolding stat
stat-remove d e p r h = ground (arith, remove-refuses d e p p h, remove_gone d e p h)

pub remove-not_exist :
    (d : Disk) (p : FilePath) → remove d p ≡ err not_exist → stat d p ≡ err not_exist
unfolding remove
remove-not_exist d p h = ground arith
