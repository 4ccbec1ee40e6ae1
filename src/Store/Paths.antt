-- ===== src/Store/Paths.antt =====
-- Where the paths of the store lead.
use llmp2p.Common.{
  ℕ, ◌<◌, length-append, true, false, ◌||◌, [], ◌∷◌, ◌++◌, Option, none, some, ok, ◌≡◌, refl, arith,
  sym, ◌∙◌, ap, inl, inr, Bool-cases, append_assoc, append-nil, ok-injective, append-cancel, length,
}
use llmp2p.Common.Bytes.{
  Bytes, codes, cut, all_bytes, split, cons_head, contains_byte, is_alnum, equal, class_between,
}
use llmp2p.Common.Bytes.Laws.{cut-eq-some, cut-append, contains_byte-append}
use llmp2p.Common.Disk.{FilePath, join_path, push, push_all}
use llmp2p.Common.Disk.Laws.{IsPlain, push-IsPlain, parent-append}
use llmp2p.Ref.{owner_re, repo_re, is_owner_byte, is_repo_byte, valid_model_id}
use llmp2p.Ref.RoundTrip.{valid_model_id_of}
use llmp2p.Ref.Pattern.{owner_re-all_bytes, repo_re-all_bytes, all_bytes-contains_byte}
use llmp2p.Store.{
  Store, store_dir, manifests_dir, torrents_dir, owner_and_repo, model_dir, manifest_path,
  torrent_path, is_hex, is_hex_digit, local_index_path,
}

-- A text without a slash is one segment.
split_single : (s : Bytes) → contains_byte b'/' s ≡ false → split b'/' s ≡ s ∷ []
unfolding split contains_byte cons_head
split_single [] h = refl
split_single (c ∷ s) h = ground (arith, split_single s)

-- What `ValidModelID` accepts.
pub record IsModelId (id owner repo : Bytes) : Type 0 where
  pub is_cut : cut b'/' id ≡ some (owner, repo)
  pub owner_matches : owner_re owner ≡ true
  pub repo_matches : repo_re repo ≡ true

pub valid_model_id-IsModelId :
    (id : Bytes)
    → valid_model_id id ≡ true
    → (owner : Bytes) × (repo : Bytes) × IsModelId id owner repo
unfolding valid_model_id
valid_model_id-IsModelId id h = go (cut b'/' id) refl
  where
    go :
        (r : Option (Bytes × Bytes))
        → cut b'/' id ≡ r
        → (owner : Bytes) × (repo : Bytes) × IsModelId id owner repo
    go none e = absurd (ground arith)
    go (some (owner, repo)) e = (
      owner,
      repo,
      record { is_cut = e; owner_matches = ground arith; repo_matches = ground arith },
    )

-- An owner is never `.` or `..`.
owner-IsPlain : (owner : Bytes) → owner_re owner ≡ true → IsPlain owner
unfolding owner_re is_alnum
owner-IsPlain [] h = absurd (ground arith)
owner-IsPlain (c ∷ owner) h = (λ e. cc, λ e. ground arith, λ e. ground arith)

join_single : (p : FilePath) (s : Bytes) → contains_byte b'/' s ≡ false → join_path p s ≡ push p s
unfolding join_path push_all
join_single p s h = rw (split_single s h)

join_plain :
    (p : FilePath) (s : Bytes)
    → contains_byte b'/' s ≡ false
    → IsPlain s
    → join_path p s ≡ p ++ s ∷ []
join_plain p s h q = join_single p s h ∙ push-IsPlain p s q

push_below :
    (p : FilePath) (a seg : Bytes) → (rest : FilePath) × (push (p ++ a ∷ []) seg ≡ p ++ rest)
unfolding push
push_below p a seg = elim (Bool-cases (equal seg [] || equal seg (codes "."))) [
  | inl e ↦ (a ∷ [], rw e)
  | inr e ↦ elim (Bool-cases (equal seg (codes ".."))) [
    | inl f ↦ ([], rw (e, f) (parent-append p a ∙ sym (append-nil p)))
    | inr f ↦ (a ∷ seg ∷ [], rw (e, f) (append_assoc p (a ∷ []) (seg ∷ [])))
  ]
]

owner_and_repo-IsModelId :
    (id owner repo : Bytes) → IsModelId id owner repo → owner_and_repo id ≡ (owner, repo)
unfolding owner_and_repo
owner_and_repo-IsModelId id owner repo m = rw (m.is_cut, owner_and_repo)

owner_no_slash : (owner : Bytes) → owner_re owner ≡ true → contains_byte b'/' owner ≡ false
unfolding is_owner_byte
owner_no_slash owner h =
    all_bytes-contains_byte is_owner_byte b'/' owner (owner_re-all_bytes owner h) refl

repo_no_slash : (repo : Bytes) → repo_re repo ≡ true → contains_byte b'/' repo ≡ false
unfolding is_repo_byte
repo_no_slash repo h =
    all_bytes-contains_byte is_repo_byte b'/' repo (repo_re-all_bytes repo h) refl

module _ (s : Store) where
  pub store_dir_lem : store_dir s ≡ s.root ++ codes "store" ∷ []
  unfolding store_dir contains_byte
  store_dir_lem = join_plain s.root (codes "store") refl (λ e. cc, λ e. cc, λ e. cc)

  -- The directory of a model id is the store's directory, then the owner, then the repo as one
  -- more segment, which is cleaned.
  model_dir-push :
      (id owner repo : Bytes)
      → IsModelId id owner repo
      → model_dir s id ≡ ok (push (store_dir s ++ owner ∷ []) repo)
  unfolding model_dir
  model_dir-push id owner repo m = rw (
    valid_model_id_of id owner repo m.is_cut m.owner_matches m.repo_matches,
    owner_and_repo-IsModelId id owner repo m,
    join_plain (store_dir s) owner (owner_no_slash owner m.owner_matches)
        (owner-IsPlain owner m.owner_matches),
    join_single (store_dir s ++ owner ∷ []) repo (repo_no_slash repo m.repo_matches),
  )

  -- Where the repo is neither `.` nor `..`, the model has a directory of its own,
  -- `<root>/store/<owner>/<repo>`.
  pub model_dir_lem :
      (id owner repo : Bytes)
      → IsModelId id owner repo
      → IsPlain repo
      → model_dir s id ≡ ok (s.root ++ codes "store" ∷ owner ∷ repo ∷ [])
  model_dir_lem id owner repo m p =
      model_dir-push id owner repo m
      ∙ ap ok (
          push-IsPlain (store_dir s ++ owner ∷ []) repo p ∙ rw store_dir_lem (unfold_append s.root))
    where
      unfold_append :
          (r : FilePath)
          → ((r ++ codes "store" ∷ []) ++ owner ∷ []) ++ repo ∷ []
            ≡ r ++ codes "store" ∷ owner ∷ repo ∷ []
      unfold_append r = simp append_assoc

  -- Two models whose repos are neither `.` nor `..` never share a directory.
  pub model_dir-injective :
      (id id' owner owner' repo repo' : Bytes) {p : FilePath}
      → IsModelId id owner repo
      → IsModelId id' owner' repo'
      → IsPlain repo
      → IsPlain repo'
      → model_dir s id ≡ ok p
      → model_dir s id' ≡ ok p
      → id ≡ id'
  model_dir-injective id id' owner owner' repo repo' m m' p p' h h' =
      let q = append-cancel s.root (
        ok-injective (
          sym (model_dir_lem id owner repo m p)
          ∙ h
          ∙ sym h'
          ∙ model_dir_lem id' owner' repo' m' p')) in
      cut-eq-some b'/' id owner repo m.is_cut
      ∙ (cc)
      ∙ sym (cut-eq-some b'/' id' owner' repo' m'.is_cut)

  dots_IsModelId :
      (owner dots : Bytes)
      → owner_re owner ≡ true
      → repo_re dots ≡ true
      → IsModelId (owner ++ (b'/' ∷ dots)) owner dots
  unfolding is_owner_byte
  dots_IsModelId owner dots h r = record {
    is_cut = cut-append is_owner_byte b'/' owner dots (owner_re-all_bytes owner h) refl;
    owner_matches = h;
    repo_matches = r;
  }

  -- `ValidModelID` accepts the repo `..`: then `ModelDir` is the directory that holds all models.
  pub model_dir_dotdot :
      (owner : Bytes)
      → owner_re owner ≡ true
      → (valid_model_id (owner ++ codes "/..") ≡ true)
        × (model_dir s (owner ++ codes "/..") ≡ ok (store_dir s))
  unfolding repo_re class_between all_bytes is_repo_byte push equal
  model_dir_dotdot owner h =
      let m = dots_IsModelId owner (codes "..") h refl in
      (
        valid_model_id_of _ owner (codes "..") m.is_cut h refl,
        model_dir-push _ owner (codes "..") m ∙ ap ok (parent-append (store_dir s) owner),
      )

  -- So it does the repo `.`: then `ModelDir` is the directory of all models of the owner.
  pub model_dir_dot :
      (owner : Bytes)
      → owner_re owner ≡ true
      → (valid_model_id (owner ++ codes "/.") ≡ true)
        × (model_dir s (owner ++ codes "/.") ≡ ok (store_dir s ++ owner ∷ []))
  unfolding repo_re class_between all_bytes is_repo_byte push equal
  model_dir_dot owner h =
      let m = dots_IsModelId owner (codes ".") h refl in
      (valid_model_id_of _ owner (codes ".") m.is_cut h refl, model_dir-push _ owner (codes ".") m)

is_hex-class :
    (s : Bytes) (n : ℕ) → is_hex s n ≡ true → (length s ≡ n) × (all_bytes is_hex_digit s ≡ true)
unfolding is_hex
is_hex-class s n h = ground arith

slash_not_hex : is_hex_digit b'/' ≡ false
unfolding is_hex_digit
slash_not_hex = refl

long_IsPlain : (name : Bytes) → 2 < length name → IsPlain name
long_IsPlain name h = (
  λ e. absurd (omega (arith, ap length e)),
  λ e. absurd (omega (arith, ap length e)),
  λ e. absurd (omega (arith, ap length e)),
)

-- A file named by a hexadecimal text and a suffix stands in the directory that it is joined to.
module _ (p : FilePath) (h suffix : Bytes) (n : ℕ) (e : is_hex h n ≡ true) where
  join_hex_name :
      contains_byte b'/' suffix ≡ false
      → 2 < length suffix
      → join_path p (h ++ suffix) ≡ p ++ (h ++ suffix) ∷ []
  join_hex_name f l =
      join_plain p (h ++ suffix)
        (contains_byte-append b'/' h suffix
          (all_bytes-contains_byte is_hex_digit b'/' h (is_hex-class h n e).1 slash_not_hex) f)
        (long_IsPlain (h ++ suffix) (omega (arith, length-append h suffix)))

module _ (s : Store) where
  pub torrents_dir_lem : torrents_dir s ≡ s.root ++ codes "torrents" ∷ []
  unfolding torrents_dir contains_byte
  torrents_dir_lem = join_plain s.root (codes "torrents") refl (λ e. cc, λ e. cc, λ e. cc)

  pub manifests_dir_lem : manifests_dir s ≡ s.root ++ codes "manifests" ∷ []
  unfolding manifests_dir contains_byte
  manifests_dir_lem = join_plain s.root (codes "manifests") refl (λ e. cc, λ e. cc, λ e. cc)

  pub local_index_path_lem : local_index_path s ≡ s.root ++ codes "index.json" ∷ []
  unfolding local_index_path contains_byte
  local_index_path_lem = join_plain s.root (codes "index.json") refl (λ e. cc, λ e. cc, λ e. cc)

  -- `TorrentPath` takes exactly the texts of 40 lowercase hexadecimal characters, and leads to a
  -- file in the directory of the torrents.
  pub torrent_path_lem :
      (h : Bytes) {p : FilePath}
      → torrent_path s h ≡ ok p
      → (is_hex h 40 ≡ true) × (p ≡ s.root ++ codes "torrents" ∷ (h ++ codes ".torrent") ∷ [])
  unfolding torrent_path contains_byte
  torrent_path_lem h q = elim (Bool-cases (is_hex h 40)) [
    | inl e ↦ (
      e,
      sym (ok-injective (rw e at q))
          ∙ join_hex_name (torrents_dir s) h (codes ".torrent") 40 e refl (omega arith)
          ∙ rw torrents_dir_lem
              (append_assoc s.root (codes "torrents" ∷ []) ((h ++ codes ".torrent") ∷ [])),
    )
    | inr e ↦ absurd (ground arith)
  ]

  -- So `ManifestPath` does for 64 characters, in the directory of the manifests.
  pub manifest_path_lem :
      (h : Bytes) {p : FilePath}
      → manifest_path s h ≡ ok p
      → (is_hex h 64 ≡ true) × (p ≡ s.root ++ codes "manifests" ∷ (h ++ codes ".json") ∷ [])
  unfolding manifest_path contains_byte
  manifest_path_lem h q = elim (Bool-cases (is_hex h 64)) [
    | inl e ↦ (
      e,
      sym (ok-injective (rw e at q))
          ∙ join_hex_name (manifests_dir s) h (codes ".json") 64 e refl (omega arith)
          ∙ rw manifests_dir_lem
              (append_assoc s.root (codes "manifests" ∷ []) ((h ++ codes ".json") ∷ [])),
    )
    | inr e ↦ absurd (ground arith)
  ]

  -- Every directory that `ModelDir` returns is the directory of all models, or stands below it.
  pub model_dir_below_store :
      (id : Bytes) {dir : FilePath}
      → model_dir s id ≡ ok dir
      → (rest : FilePath) × (dir ≡ s.root ++ codes "store" ∷ rest)
  unfolding model_dir
  model_dir_below_store id {dir} h = elim (Bool-cases (valid_model_id id)) [
    | inl v ↦
        let (owner, repo, m) = valid_model_id-IsModelId id v in
        let (rest, e) = push_below (store_dir s) owner repo in
        (
          rest,
          sym (ok-injective (sym (model_dir-push s id owner repo m) ∙ h))
              ∙ e
              ∙ ap (λ (d : FilePath). d ++ rest) (store_dir_lem s)
              ∙ append_assoc s.root (codes "store" ∷ []) rest,
        )
    | inr v ↦ absurd (ground arith)
  ]

  pub model_dir-valid :
      (id : Bytes) {dir : FilePath} → model_dir s id ≡ ok dir → valid_model_id id ≡ true
  unfolding model_dir
  model_dir-valid id h = ground arith
