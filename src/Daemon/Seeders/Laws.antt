-- ===== src/Daemon/Seeders/Laws.antt =====
-- Which torrents the engines of the daemon seed.
use llmp2p.Common.{
  Bool, true, false, ◌||◌, List, [], ◌∷◌, ◌++◌, append-nil, append_assoc, Option, none, some, ok,
  ◌>>=◌, ◌≡◌, refl, sym, ◌∙◌, ap, subst, arith, if◌then◌else◌, inl, inr, Bool-cases, >>=-eq-ok,
}
use mathlib.Core.List.{Perm}
use llmp2p.Common.Disk.{FilePath, path_eq, Disk}
use llmp2p.Common.Disk.Laws.{path_eq_iff, path_eq_refl}
use llmp2p.Manifest.Codec.{Codec}
use llmp2p.Store.{Store}
use llmp2p.Engine.{EngineError}
use llmp2p.Daemon.Seeders.Order.{has_owner, torrents_for, has_owner-perm, torrents_for-perm}
use llmp2p.Daemon.Seeders.{
  Target, Seeder, has_engine, add_torrent, targets, with_engine, seed_target, start_loop,
  start_seeders,
}

-- the torrents that the engine of a directory seeds
abbrev pub torrents_at : FilePath → List Seeder → List FilePath
torrents_at p [] = []
torrents_at p (e ∷ es) = if path_eq e.data_dir p then e.torrents else torrents_at p es

-- No directory has two engines.
abbrev pub AreDistinct : List Seeder → Type 0
AreDistinct [] = Unit
AreDistinct (e ∷ es) = (has_engine e.data_dir es ≡ false) × AreDistinct es

abbrev fresh : FilePath → Seeder
fresh p = record { data_dir = p; torrents = [] }

has_engine-append :
    (k p : FilePath) (es : List Seeder)
    → has_engine k (es ++ fresh p ∷ []) ≡ (has_engine k es || path_eq p k)
unfolding has_engine
has_engine-append k p [] = ground arith
has_engine-append k p (e ∷ es) = ground (arith, has_engine-append k p es)

torrents_at-append :
    (k p : FilePath) (es : List Seeder)
    → has_engine p es ≡ false
    → torrents_at k (es ++ fresh p ∷ []) ≡ torrents_at k es
unfolding has_engine
torrents_at-append k p [] h = ground arith
torrents_at-append k p (e ∷ es) h = ground (arith, torrents_at-append k p es)

AreDistinct-append :
    (p : FilePath) (es : List Seeder)
    → has_engine p es ≡ false
    → AreDistinct es
    → AreDistinct (es ++ fresh p ∷ [])
unfolding has_engine
AreDistinct-append p [] h d = (refl, tt)
AreDistinct-append p (e ∷ es) h d = (
  ground (
    arith,
    has_engine-append e.data_dir p es,
    path_eq_iff p e.data_dir,
    path_eq_iff e.data_dir p,
    d.0,
  ),
  AreDistinct-append p es (ground arith) d.1,
)

has_engine-add_torrent :
    (k p t : FilePath) (es : List Seeder) → has_engine k (add_torrent p t es) ≡ has_engine k es
unfolding has_engine add_torrent
has_engine-add_torrent k p t [] = refl
has_engine-add_torrent k p t (e ∷ es) = ground (arith, has_engine-add_torrent k p t es)

AreDistinct-add_torrent :
    (p t : FilePath) (es : List Seeder) → AreDistinct es → AreDistinct (add_torrent p t es)
unfolding add_torrent
AreDistinct-add_torrent p t [] d = tt
AreDistinct-add_torrent p t (e ∷ es) d = elim (Bool-cases (path_eq e.data_dir p)) [
  | inl q ↦ rw q d
  | inr q ↦
      rw q (has_engine-add_torrent e.data_dir p t es ∙ d.0, AreDistinct-add_torrent p t es d.1)
]

torrents_at-add_torrent :
    (k p t : FilePath) (es : List Seeder)
    → has_engine p es ≡ true
    → torrents_at k (add_torrent p t es) ≡ torrents_at k es ++ (if path_eq p k then t ∷ [] else [])
unfolding has_engine add_torrent
torrents_at-add_torrent k p t [] h = absurd (ground arith)
torrents_at-add_torrent k p t (e ∷ es) h = elim (Bool-cases (path_eq e.data_dir p)) [
  | inl q ↦
      let same = (path_eq_iff e.data_dir p).0 q in
      ground (arith, same, append-nil (torrents_at k es))
  | inr q ↦ ground (
    arith,
    torrents_at-add_torrent k p t es,
    path_eq_iff e.data_dir k,
    path_eq_iff p k,
    path_eq_iff e.data_dir p,
    append-nil e.torrents,
  )
]

joined :
    (k : FilePath) (a : List FilePath) (b : Bool) (t : FilePath) (c : List FilePath)
    → (a ++ (if b then t ∷ [] else [])) ++ c ≡ a ++ (if b then t ∷ c else c)
joined k a true t c = append_assoc a (t ∷ []) c
joined k a false t c = ap (λ x. x ++ c) (append-nil a)

-- What the engines are after the targets: those of before with the torrents of the targets.
record Seeds (es : List Seeder) (ts : List Target) (fs : List Seeder) : Type 0 where
  distinct : AreDistinct fs
  dirs : (k : FilePath) → has_engine k fs ≡ (has_engine k es || has_owner k ts)
  torrents : (k : FilePath) → torrents_at k fs ≡ torrents_at k es ++ torrents_for k ts

module _ (starts : FilePath → Option EngineError)
    (seeds : FilePath → FilePath → Option EngineError) where
  with_engine-Seeds :
      (p : FilePath) (es fs : List Seeder)
      → with_engine starts seeds p es ≡ ok fs
      → AreDistinct es
      → AreDistinct fs
        × ((k : FilePath) → has_engine k fs ≡ (has_engine k es || path_eq p k))
        × ((k : FilePath) → torrents_at k fs ≡ torrents_at k es)
  unfolding with_engine
  with_engine-Seeds p es fs h d = elim (Bool-cases (has_engine p es)) [
    | inl q ↦
        let same : es ≡ fs = ground arith in
        (
          subst AreDistinct same d,
          λ k. ground (arith, same, path_eq_iff p k, q),
          λ k. ap (torrents_at k) (sym same),
        )
    | inr q ↦ go (starts p) refl q
  ]
    where
      go :
          (o : Option EngineError)
          → starts p ≡ o
          → has_engine p es ≡ false
          → AreDistinct fs
            × ((k : FilePath) → has_engine k fs ≡ (has_engine k es || path_eq p k))
            × ((k : FilePath) → torrents_at k fs ≡ torrents_at k es)
      go (some e) s q = absurd (ground arith)
      go none s q =
          let same : es ++ fresh p ∷ [] ≡ fs = ground arith in
          (
            subst AreDistinct same (AreDistinct-append p es q d),
            λ k. ap (has_engine k) (sym same) ∙ has_engine-append k p es,
            λ k. ap (torrents_at k) (sym same) ∙ torrents_at-append k p es q,
          )

  seed_target-eq-ok :
      (t : Target) (es : List Seeder) {fs : List Seeder}
      → seed_target starts seeds t es ≡ ok fs
      → add_torrent t.owner_dir t.torrent es ≡ fs
  unfolding seed_target
  seed_target-eq-ok t es h = ground arith

  start_loop-Seeds :
      (ts : List Target) (es fs : List Seeder)
      → start_loop starts seeds ts es ≡ ok fs
      → AreDistinct es
      → Seeds es ts fs
  unfolding start_loop
  start_loop-Seeds [] es fs h d =
      let same : es ≡ fs = ground arith in
      record {
        distinct = subst AreDistinct same d;
        dirs = λ k. ground (arith, same);
        torrents = λ k. ap (torrents_at k) (sym same) ∙ sym (append-nil (torrents_at k es));
      }
  start_loop-Seeds (t ∷ ts) es fs h d =
      let (e1, h1, n1) =
        >>=-eq-ok (with_engine starts seeds t.owner_dir es)
          (λ x. seed_target starts seeds t x >>= λ y. start_loop starts seeds ts y) h in
      let (e2, h2, n2) =
        >>=-eq-ok (seed_target starts seeds t e1) (λ y. start_loop starts seeds ts y) n1 in
      let same = seed_target-eq-ok t e1 h2 in
      let (d1, a1, b1) = with_engine-Seeds t.owner_dir es e1 h1 d in
      let there : has_engine t.owner_dir e1 ≡ true =
        ground (arith, a1 t.owner_dir, path_eq_refl t.owner_dir) in
      let rest =
        start_loop-Seeds ts e2 fs n2
          (subst AreDistinct same (AreDistinct-add_torrent t.owner_dir t.torrent e1 d1)) in
      record {
        distinct = rest.distinct;
        dirs = λ k.
            ground
              (arith, rest.dirs k, same, has_engine-add_torrent k t.owner_dir t.torrent e1, a1 k);
        torrents = λ k.
            rest.torrents k
            ∙ (ap (λ x. torrents_at k x ++ torrents_for k ts) (sym same)
                ∙ (ap (λ x. x ++ torrents_for k ts)
                      (torrents_at-add_torrent k t.owner_dir t.torrent e1 there
                        ∙ ap (λ x. x ++ (if path_eq t.owner_dir k then t.torrent ∷ [] else []))
                            (b1 k))
                    ∙ joined k (torrents_at k es) (path_eq t.owner_dir k) t.torrent
                        (torrents_for k ts)));
      }

  -- If the daemon starts, in whatever order it walks the models that can be seeded, no directory has two
  -- engines, exactly the directories of owners with such a model have one, and it seeds the torrents of
  -- the models in its directory, each as often as they have it, in some order.
  pub start_seeders_lem :
      (order : List Target → List Target) (c : Codec) (s : Store) (d : Disk) (es : List Seeder)
      → Perm (order (targets c s d)) (targets c s d)
      → start_seeders starts seeds order c s d ≡ ok es
      → AreDistinct es
        × ((p : FilePath) → has_engine p es ≡ has_owner p (targets c s d))
        × ((p : FilePath) → Perm (torrents_at p es) (torrents_for p (targets c s d)))
  unfolding start_seeders has_engine
  start_seeders_lem order c s d es w h =
      let r = start_loop-Seeds (order (targets c s d)) [] es h tt in
      (
        r.distinct,
        λ p. r.dirs p ∙ has_owner-perm p w,
        λ p.
            subst (λ ts. Perm ts (torrents_for p (targets c s d))) (sym (r.torrents p))
              (torrents_for-perm p w),
      )
