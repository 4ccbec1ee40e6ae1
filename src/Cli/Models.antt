-- ===== src/Cli/Models.antt =====
-- internal/cli/list.go, verify.go and remove.go: the commands on the stored models.
-- A line of the terminal is its text and whether reading it failed. Every command opens the store at
-- `root` first, which makes its directories.
pub mod Intact
pub mod Laws
use llmp2p.Common.{
  ℕ, Bool, true, false, not, ◌&&◌, ◌||◌, List, [], ◌∷◌, ◌++◌, Option, none, some, Result, ok, err,
  ◌>>=◌, wrap_err, if◌then◌else◌, length,
}
use llmp2p.Common.Int.{ℤ, pos}
use llmp2p.Common.Bytes.{Bytes, codes, contains_byte, is_empty, is_space, to_lower, trim_by}
use llmp2p.Common.Disk.{FilePath, Disk}
use llmp2p.Manifest.{Manifest, sum_sizes}
use llmp2p.Manifest.Codec.{Codec, load}
use llmp2p.Manifest.Verify.{VerifyError, verify_dir}
use llmp2p.Ref.{Ref, parse, ref_id}
use llmp2p.Store.{Store, open_store, models, model_dir, model_manifest_file}
use llmp2p.Store.Remove.{IndexCodec, Removal, Summary, remove_model}
use llmp2p.Cli.{
  CliError, ref_failed, store_failed, whole_models_only, aborted, verify_failed,
  load_model_manifest,
}

-- `modelInfo`
pub record ModelInfo : Type 0 where
  pub model : Bytes
  pub revision : Bytes
  pub files : ℕ
  pub size : ℤ

unfoldable pub info_of : Bytes → Manifest → ModelInfo
info_of id m = record {
  model = id;
  revision = m.revision;
  files = length m.files;
  size = sum_sizes (pos 0) m.files;
}

-- a reference to a whole model
unfoldable pub whole_model : Bytes → Result CliError Ref
whole_model text = elim (parse text) [
  | err e ↦ err (ref_failed e)
  | ok r ↦ if is_empty r.path then ok r else err whole_models_only
]

-- what `verify` prints
pub record VerifyReport : Type 0 where
  pub info : ModelInfo
  pub error : Option VerifyError

abbrev not_needed : Bool → Bool → Bool
not_needed as_json skip_prompt = as_json || skip_prompt

-- the answer to the prompt
unfoldable pub confirms : Bytes × Bool → Bool
confirms line =
    not
      ((line.1 && is_empty line.0) || not (contains_byte b'y' (to_lower (trim_by is_space line.0))))

module _ (c : Codec) (root : FilePath) where
  -- the loop of `list`
  unfoldable pub list_infos : Disk → Store → List Bytes → List ModelInfo
  list_infos d s [] = []
  list_infos d s (id ∷ ids) =
      let rest = list_infos d s ids in
      elim (model_manifest_file s id) [
        | err e ↦ rest
        | ok p ↦ elim (load c d p) [ err e ↦ rest | ok m ↦ info_of id m ∷ rest ]
      ]

  -- `list`
  unfoldable pub list_command : Disk → Result CliError (List ModelInfo)
  list_command d = wrap_err store_failed (open_store d root) >>= λ r.
      wrap_err store_failed (models r.1 r.0) >>= λ ids. ok (list_infos r.1 r.0 ids)

  -- the end of `verify`: what is printed, and the error
  unfoldable pub report :
      Bool → ModelInfo → Option VerifyError → Option VerifyReport × Option CliError
  report as_json i none = (some (record { info = i; error = none }), none)
  report as_json i (some e) =
      if as_json
      then (some (record { info = i; error = some e }), some (verify_failed i.model e))
      else (none, some (verify_failed i.model e))

  -- behind the opening of the store
  unfoldable pub verify_in : Bool → Ref → Store → Disk → Option VerifyReport × Option CliError
  verify_in as_json r s d = elim (load_model_manifest c d s (ref_id r)) [
    | err e ↦ (none, some e)
    | ok m ↦ elim (model_dir s (ref_id r)) [
      | err e ↦ (none, some (store_failed e))
      | ok dir ↦ report as_json (info_of (ref_id r) m) (verify_dir c.sha256_sum d dir m)
    ]
  ]

  -- `verify`
  unfoldable pub verify_command : Bool → Bytes → Disk → Option VerifyReport × Option CliError
  verify_command as_json text d = elim (whole_model text) [
    | err e ↦ (none, some e)
    | ok r ↦ elim (open_store d root) [
      | err e ↦ (none, some (store_failed e))
      | ok p ↦ verify_in as_json r p.0 p.1
    ]
  ]

  module _ (x : IndexCodec) where
    -- the prompt; it is left out with `--yes`, with `--json` and for a model without a manifest
    unfoldable pub may_remove : Bool → Bool → Bytes × Bool → Store → Disk → Bytes → Bool
    may_remove as_json skip_prompt line s d id =
        if not_needed as_json skip_prompt
        then true
        else elim (load_model_manifest c d s id) [ err e ↦ true | ok m ↦ confirms line ]

    unfoldable pub removal_result : Removal → Disk × Result CliError Summary
    removal_result r = elim r.error [
      | none ↦ (r.disk, ok r.summary)
      | some e ↦ (r.disk, err (store_failed e))
    ]

    -- behind the opening of the store
    unfoldable pub remove_in :
        Bool → Bool → Bytes × Bool → Ref → Store → Disk → Disk × Result CliError Summary
    remove_in as_json skip_prompt line r s d =
        if not (may_remove as_json skip_prompt line s d (ref_id r))
        then (d, err aborted)
        else removal_result (remove_model c x s d (ref_id r))

    -- `remove`
    unfoldable pub remove_command :
        Bool → Bool → Bytes × Bool → Bytes → Disk → Disk × Result CliError Summary
    remove_command as_json skip_prompt line text d = elim (whole_model text) [
      | err e ↦ (d, err e)
      | ok r ↦ elim (open_store d root) [
        | err e ↦ (d, err (store_failed e))
        | ok p ↦ remove_in as_json skip_prompt line r p.0 p.1
      ]
    ]
