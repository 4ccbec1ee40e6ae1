-- ===== src/Cli/Models/Intact.antt =====
-- When `verify` finds a model in order.
use llmp2p.Common.{
  Bool, Result, [], Option, none, some, ok, err, ◌≡◌, ◌↔◌, refl, ◌∙◌, ap, subst, arith, inl, inr,
  Bool-cases, Result-cases,
}
use llmp2p.Common.Bytes.{Bytes, is_empty}
use llmp2p.Common.Disk.{FilePath, Disk}
use llmp2p.Manifest.{Manifest}
use llmp2p.Manifest.Codec.{Codec, load}
use llmp2p.Manifest.Verify.{VerifyError, verify_dir}
use llmp2p.Manifest.Stored.{manifest_in, IsStored, load_verified_iff}
use llmp2p.Ref.{Ref, RefError, parse, ref_id}
use llmp2p.Ref.Safety.{parse-validate}
use llmp2p.Store.Home.{home_of, model_dir-ref_id, manifest_file_of}
use llmp2p.Store.{Store, open_store, model_dir}
use llmp2p.Cli.{load_model_manifest}
use llmp2p.Cli.Models.{ModelInfo, info_of, whole_model, report, verify_in, verify_command}

-- The text is a reference to a whole model, the directories of the store are there or can be made, and
-- the directory of the model holds a valid manifest and every file that it lists, with its size and digest.
pub record IsIntact (c : Codec) (root : FilePath) (text : Bytes) (d : Disk) : Type 0 where
  pub ref : Ref
  pub disk : Disk
  pub manifest : Manifest
  pub is_parsed : parse text ≡ ok ref
  pub is_whole : ref.path ≡ []
  pub is_open : open_store d root ≡ ok (record { root = root }, disk)
  pub is_stored : IsStored c disk (home_of root ref) manifest

open_store-root :
    (d : Disk) (root : FilePath) {s : Store} {e : Disk}
    → open_store d root ≡ ok (s, e)
    → s ≡ record { root = root }
unfolding open_store
open_store-root d root h = ground arith

whole_model-eq-ok :
    (text : Bytes) {r : Ref} → whole_model text ≡ ok r → (parse text ≡ ok r) × (r.path ≡ [])
unfolding whole_model is_empty
whole_model-eq-ok text {r} h = go (parse text) refl
  where
    go : (p : Result RefError Ref) → parse text ≡ p → (parse text ≡ ok r) × (r.path ≡ [])
    go (err e) q = absurd (ground arith)
    go (ok x) q = elim (Bool-cases (is_empty x.path)) [
      | inr n ↦ absurd (ground arith)
      | inl n ↦ (ground arith, ground arith)
    ]

whole_model_lem :
    (text : Bytes) (r : Ref) → parse text ≡ ok r → r.path ≡ [] → whole_model text ≡ ok r
unfolding whole_model is_empty
whole_model_lem text r h n = ground arith

module _ (c : Codec) (root : FilePath) where
  report_iff :
      (as_json : Bool) (i : ModelInfo) (o : Option VerifyError)
      → ((report c root as_json i o).1 ≡ none) ↔ (o ≡ none)
  unfolding report
  report_iff as_json i none = (λ h. refl, λ h. refl)
  report_iff as_json i (some e) = (λ h. absurd (ground arith), λ h. absurd (ground arith))

  load_model_manifest_lem :
      (d : Disk) (s : Store) (id : Bytes) (dir : FilePath) (m : Manifest)
      → model_dir s id ≡ ok dir
      → (load_model_manifest c d s id ≡ ok m) ↔ (load c d (manifest_in dir) ≡ ok m)
  unfolding load_model_manifest
  load_model_manifest_lem d s id dir m h =
      let at = manifest_file_of s id dir h in (λ l. ground arith, λ l. ground arith)

  verify_in_iff :
      (as_json : Bool) (r : Ref) (s : Store) (d : Disk) (dir : FilePath)
      → model_dir s (ref_id r) ≡ ok dir
      → ((verify_in c root as_json r s d).1 ≡ none) ↔ ((m : Manifest) × IsStored c d dir m)
  unfolding verify_in
  verify_in_iff as_json r s d dir h = (
    λ v. elim (Result-cases (load_model_manifest c d s (ref_id r))) [
      | inr (e, q) ↦ absurd (ground arith)
      | inl (m, q) ↦
          let fits =
            (report_iff as_json (info_of (ref_id r) m) (verify_dir c.sha256_sum d dir m)).0
              (ground arith) in
          (
            m,
            (load_verified_iff c d dir m).0
                ((load_model_manifest_lem d s (ref_id r) dir m h).0 q, fits),
          )
    ],
    λ (m, i).
        let (l, fits) = (load_verified_iff c d dir m).1 i in
        let q = (load_model_manifest_lem d s (ref_id r) dir m h).1 l in
        let quiet =
          (report_iff as_json (info_of (ref_id r) m) (verify_dir c.sha256_sum d dir m)).1 fits in
        ground arith,
  )

  -- `verify` returns no error, with or without JSON, exactly if its argument is a reference to a whole model, the
  -- store opens, and the directory of the model holds a valid manifest and every file of it, with the size and the
  -- digest that the manifest says.
  pub verify_command_iff :
      (as_json : Bool) (text : Bytes) (d : Disk)
      → ((verify_command c root as_json text d).1 ≡ none) ↔ IsIntact c root text d
  unfolding verify_command
  verify_command_iff as_json text d = (there, back)
    where
      there : (verify_command c root as_json text d).1 ≡ none → IsIntact c root text d
      there h = elim (Result-cases (whole_model text)) [
        | inr (e, p) ↦ absurd (ground arith)
        | inl (r, p) ↦ elim (Result-cases (open_store d root)) [
          | inr (e, q) ↦ absurd (ground arith)
          | inl ((s, f), q) ↦
              let (parsed, whole) = whole_model-eq-ok text p in
              let own = open_store-root d root q in
              let home = model_dir-ref_id s r (parse-validate text parsed) in
              let (m, i) = (verify_in_iff as_json r s f (home_of s.root r) home).0 (ground arith) in
              record {
                ref = r;
                disk = f;
                manifest = m;
                is_parsed = parsed;
                is_whole = whole;
                is_open = q ∙ ap (λ x. ok (x, f)) own;
                is_stored = subst (λ (x : Store). IsStored c f (home_of x.root r) m) own i;
              }
        ]
      ]

      back : IsIntact c root text d → (verify_command c root as_json text d).1 ≡ none
      back i =
          let home =
            model_dir-ref_id (record { root = root }) i.ref (parse-validate text i.is_parsed) in
          let whole = whole_model_lem text i.ref i.is_parsed i.is_whole in
          let opened = i.is_open in
          let quiet =
            (verify_in_iff as_json i.ref (record { root = root }) i.disk (home_of root i.ref)
                home).1
              (i.manifest, i.is_stored) in
          ground arith
