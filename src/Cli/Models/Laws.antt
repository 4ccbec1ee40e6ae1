-- ===== src/Cli/Models/Laws.antt =====
-- What `remove` deletes, and what `verify` says after it.
use llmp2p.Common.{
  ℕ, Bool, false, [], ◌∷◌, ◌++◌, append_assoc, Option, none, some, ok, err, ◌≡◌, refl, ◌∙◌, ap,
  subst, arith, if◌then◌else◌, ◌==◌, inl, inr, Bool-cases, Result-cases,
}
use llmp2p.Common.Bytes.{
  Bytes, codes, contains_byte, is_space, is_upper, lower_byte, to_lower, trim_by, trim_left_by,
  trim_right_by,
}
use llmp2p.Common.Disk.{FilePath, Disk, stat, read_file, lookup}
use llmp2p.Common.Disk.Laws.{is_above-append}
use llmp2p.Store.Paths.{model_dir_below_store}
use llmp2p.Store.Remove.Laws.{lookup-remove_model}
use llmp2p.Manifest.{Manifest}
use llmp2p.Manifest.Codec.{Codec, LoadError, load}
use llmp2p.Ref.{Ref, ref_id}
use llmp2p.Store.Home.{manifest_file_of}
use llmp2p.Store.{Store, StoreError, model_dir, model_manifest_file}
use llmp2p.Store.Remove.{IndexCodec, Removal, Summary, remove_model}
use llmp2p.Cli.{CliError, aborted, not_in_store, load_model_manifest}
use llmp2p.Cli.Models.{confirms, verify_in, may_remove, removal_result, remove_in}

lower_byte-y : (c : ℕ) → (c == b'y') ≡ false → (c == b'Y') ≡ false → (lower_byte c == b'y') ≡ false
unfolding lower_byte is_upper
lower_byte-y c h n = ground arith

contains_byte-to_lower :
    (s : Bytes)
    → contains_byte b'y' s ≡ false
    → contains_byte b'Y' s ≡ false
    → contains_byte b'y' (to_lower s) ≡ false
unfolding contains_byte to_lower
contains_byte-to_lower [] h n = refl
contains_byte-to_lower (c ∷ s) h n = ground (arith, contains_byte-to_lower s, lower_byte-y c)

contains_byte-trim_left_by :
    (p : ℕ → Bool) (b : ℕ) (s : Bytes)
    → contains_byte b s ≡ false
    → contains_byte b (trim_left_by p s) ≡ false
unfolding contains_byte trim_left_by
contains_byte-trim_left_by p b [] h = refl
contains_byte-trim_left_by p b (c ∷ s) h = ground (arith, contains_byte-trim_left_by p b s)

contains_byte-trim_right_by :
    (p : ℕ → Bool) (b : ℕ) (s : Bytes)
    → contains_byte b s ≡ false
    → contains_byte b (trim_right_by p s) ≡ false
unfolding contains_byte trim_right_by
contains_byte-trim_right_by p b [] h = refl
contains_byte-trim_right_by p b (c ∷ s) h = ground (arith, contains_byte-trim_right_by p b s)

contains_byte-trim_by :
    (p : ℕ → Bool) (b : ℕ) (s : Bytes)
    → contains_byte b s ≡ false
    → contains_byte b (trim_by p s) ≡ false
unfolding trim_by
contains_byte-trim_by p b s h =
    contains_byte-trim_right_by p b (trim_left_by p s) (contains_byte-trim_left_by p b s h)

confirms_lem :
    (text : Bytes) (broken : Bool)
    → contains_byte b'y' text ≡ false
    → contains_byte b'Y' text ≡ false
    → confirms (text, broken) ≡ false
unfolding confirms
confirms_lem text broken h n =
    let lacks =
      contains_byte-to_lower (trim_by is_space text) (contains_byte-trim_by is_space b'y' text h)
        (contains_byte-trim_by is_space b'Y' text n) in
    ground arith

module _ (c : Codec) (root : FilePath) (x : IndexCodec) where
  -- Without `--yes` and `--json` a model that has a manifest is not touched after an answer without the letter
  -- y, in either case.
  pub remove_in_unconfirmed :
      (text : Bytes) (broken : Bool) (r : Ref) (s : Store) (d : Disk) (m : Manifest)
      → load_model_manifest c d s (ref_id r) ≡ ok m
      → contains_byte b'y' text ≡ false
      → contains_byte b'Y' text ≡ false
      → remove_in c root x false false (text, broken) r s d ≡ (d, err aborted)
  unfolding remove_in may_remove
  remove_in_unconfirmed text broken r s d m l h n =
      let no = confirms_lem text broken h n in ground arith

  not_loaded :
      (d : Disk) (p : FilePath) → lookup p d.nodes ≡ none → (e : LoadError) × (load c d p ≡ err e)
  unfolding load read_file stat
  not_loaded d p h = elim (Bool-cases (d.refuses p)) [
    | inl q ↦ rw q (_, refl)
    | inr q ↦ rw (q, h) (_, refl)
  ]

  load_missing :
      (d : Disk) (s : Store) (id : Bytes) (p : FilePath) (e : LoadError)
      → model_manifest_file s id ≡ ok p
      → load c d p ≡ err e
      → load_model_manifest c d s id ≡ err (not_in_store id e)
  unfolding load_model_manifest
  load_missing d s id p e m l = ground arith

  verify_missing :
      (as_json : Bool) (r : Ref) (s : Store) (d : Disk) (e : CliError)
      → load_model_manifest c d s (ref_id r) ≡ err e
      → verify_in c root as_json r s d ≡ (none, some e)
  unfolding verify_in
  verify_missing as_json r s d e l = ground arith

  removed_manifest :
      (d : Disk) (s : Store) (id : Bytes)
      → (remove_model c x s d id).error ≡ none
      → (e : LoadError) × (load_model_manifest c (remove_model c x s d id).disk s id
          ≡ err (not_in_store id e))
  removed_manifest d s id h = elim (Result-cases (model_dir s id)) [
    | inr (e, m) ↦ absurd (unfold remove_model in ground arith)
    | inl (dir, m) ↦
        let p = dir ++ codes ".llmp2p-manifest.json" ∷ [] in
        let (rest, below) = model_dir_below_store s id m in
        let q : p ≡ s.root ++ codes "store" ∷ (rest ++ codes ".llmp2p-manifest.json" ∷ []) =
          ap (λ y. y ++ codes ".llmp2p-manifest.json" ∷ []) below
          ∙ append_assoc s.root (codes "store" ∷ rest) (codes ".llmp2p-manifest.json" ∷ []) in
        let gone = lookup-remove_model c x s d id dir p _ m h q in
        let (e, l) = not_loaded (remove_model c x s d id).disk p (
          gone
          ∙ ap (λ b. if b then none else lookup p d.nodes)
              (is_above-append dir (codes ".llmp2p-manifest.json" ∷ []))) in
        (e, load_missing (remove_model c x s d id).disk s id p e (manifest_file_of s id dir m) l)
  ]

  removal_result-eq-ok :
      (r : Removal) {f : Disk} {sum : Summary}
      → removal_result c root x r ≡ (f, ok sum)
      → (r.error ≡ none) × (r.disk ≡ f)
  unfolding removal_result
  removal_result-eq-ok r {f} {sum} h = go r.error refl
    where
      go : (o : Option StoreError) → r.error ≡ o → (r.error ≡ none) × (r.disk ≡ f)
      go none e = (e, ground arith)
      go (some y) e = absurd (ground arith)

  remove_in-eq-ok :
      (as_json skip : Bool) (line : Bytes × Bool) (r : Ref) (s : Store) (d : Disk) {f : Disk}
      {sum : Summary}
      → remove_in c root x as_json skip line r s d ≡ (f, ok sum)
      → removal_result c root x (remove_model c x s d (ref_id r)) ≡ (f, ok sum)
  unfolding remove_in
  remove_in-eq-ok as_json skip line r s d h = ground arith

  -- After `remove` has deleted a model, `verify` says that it is not in the store.
  pub remove_in-verify_in :
      (as_json skip verbose : Bool) (line : Bytes × Bool) (r : Ref) (s : Store) (d f : Disk)
      {sum : Summary}
      → remove_in c root x as_json skip line r s d ≡ (f, ok sum)
      → (e : LoadError) × (verify_in c root verbose r s f
          ≡ (none, some (not_in_store (ref_id r) e)))
  remove_in-verify_in as_json skip verbose line r s d f {sum} h =
      let (gone, same) =
        removal_result-eq-ok (remove_model c x s d (ref_id r))
          (remove_in-eq-ok as_json skip line r s d h) in
      let (e, l) = removed_manifest d s (ref_id r) gone in
      let missing : load_model_manifest c f s (ref_id r) ≡ err (not_in_store (ref_id r) e) =
        subst (λ y. load_model_manifest c y s (ref_id r) ≡ err (not_in_store (ref_id r) e)) same
          l in
      (e, verify_missing verbose r s f (not_in_store (ref_id r) e) missing)
