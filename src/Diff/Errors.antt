-- ===== src/Diff/Errors.antt =====
-- The error values of pkg/diff/errors.go, pkg/importer/errors.go and pkg/diff/errs/user_error.go,
-- one constructor for each Go type. The reason text of a schema violation is kept as the case that
-- made it. Rendering a message is not modelled.
use diffah.Base.{ℕ, String, Bool, Option, List, ◌≡◌, refl, ◌⊎◌, ◌↔◌, inl, inr, arith}
use diffah.Base.Int.{ℤ}
use diffah.Diff.Types.{Encoding}

pub data Category : Type 0 where
  internal user environment content : Category

pub data SchemaReason : Type 0 where
  platform_required blobs_required images_empty : SchemaReason
  name_mismatch name_duplicate : ℕ → String → SchemaReason
  target_required baseline_required : ℕ → SchemaReason
  target_not_in_blobs : ℕ → String → SchemaReason
  full_sets_patch_fields patch_requires_codec patch_requires_source : String → SchemaReason
  full_size_mismatch patch_size_range : String → ℤ → ℤ → SchemaReason
  encoding_unknown : String → Encoding → SchemaReason

-- An error that the operating system or another package made: its text, and what `errors.Is` and
-- `errors.As` find in it.
pub record External : Type 0 where
  pub text : String
  pub is_context_error : Bool
  pub url_op : Option String
  pub net_op : Option String
  pub path : Option String
  pub is_not_exist : Bool
  pub is_permission : Bool

pub data Error : Type 0 where
  manifest_list_unselected : String → Error
  sidecar_schema : SchemaReason → Error
  baseline_missing_blob : String → String → Error
  incompatible_output_format : String → String → Error
  unknown_image_format : String → Error
  not_a_diffah_archive : String → Error
  source_manifest_unreadable : String → Error → Error
  digest_mismatch : String → String → String → Error
  intra_layer_assembly_mismatch : String → String → Error
  baseline_blob_digest_mismatch : String → String → String → Error
  shipped_blob_digest_mismatch : String → String → String → Error
  baseline_missing_patch_ref : String → String → Error
  intra_layer_unsupported : String → Error
  phase1_archive : String → Error
  unknown_bundle_version : String → Error
  invalid_bundle_format : Error → Error
  multi_image_needs_named_baselines : ℕ → Error
  baseline_name_unknown : String → List String → Error
  baseline_mismatch : String → String → String → Error
  baseline_missing : List String → Error
  invalid_bundle_spec : String → String → Error
  bundle_spec_missing_transport : String → String → Error
  duplicate_bundle_name : String → Error
  registry_auth : String → Error
  registry_network : String → Error → Error
  registry_manifest_missing : String → Error
  registry_manifest_invalid : String → String → Error
  -- pkg/importer/errors.go
  missing_patch_source : String → String → String → Error
  missing_baseline_reuse_layer : String → String → Error
  apply_invariant_failed : String → List String → List String → String → Error
  -- errs.UserError and the sentinel zstdpatch.ErrZstdBinaryMissing
  user_error : Category → String → String → Error
  zstd_binary_missing : Error
  -- errors.New and fmt.Errorf without %w; fmt.Errorf with %w; anything else
  message : String → Error
  wrap : String → Error → Error
  external : External → Error

pub data Result (A : Type 0) : Type 0 where
  ok : A → Result A
  err : Error → Result A

infixl 5 ◌>>=◌ ◌>>◌
abbrev pub ◌>>=◌ : {A B : Type 0} → Result A → (A → Result B) → Result B
ok a >>= f = f a
err e >>= f = err e

abbrev pub ◌>>◌ : {B : Type 0} → Result (Unit {0}) → Result B → Result B
m >> k = m >>= λ _. k

-- fmt.Errorf(context + ": %w", err) on the error path.
abbrev pub wrap_err : {A : Type 0} → String → Result A → Result A
wrap_err c (ok a) = ok a
wrap_err c (err e) = err (wrap c e)

pub Result-cases :
    {A : Type 0} (r : Result A) → ((a : A) × (r ≡ ok a)) ⊎ ((e : Error) × (r ≡ err e))
Result-cases (ok a) = inl (a, refl)
Result-cases (err e) = inr (e, refl)

pub >>_iff :
    {B : Type 0} (m : Result (Unit {0})) (k : Result B) (b : B)
    → ((m >> k) ≡ ok b) ↔ ((m ≡ ok tt) × (k ≡ ok b))
>>_iff (ok tt) k b = ground arith
>>_iff (err e) k b = ground arith
