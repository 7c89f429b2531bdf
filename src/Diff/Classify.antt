-- ===== src/Diff/Classify.antt =====
-- The categories of the errors (pkg/diff/errors.go, pkg/importer/errors.go), errs.Classify with its exit
-- codes (pkg/diff/errs). What an error's Error method and strings.ToLower return is a parameter.
pub mod Chain
pub mod Registry
use diffah.Base.{
  ℕ, String, Bool, true, false, ◌||◌, Option, none, some, List, [], ◌∷◌, if◌then◌else◌,
}
use diffah.Diff.Errors.{
  Category, internal, user, environment, content, External, Error, manifest_list_unselected,
  sidecar_schema, baseline_missing_blob, incompatible_output_format, unknown_image_format,
  not_a_diffah_archive, source_manifest_unreadable, digest_mismatch, intra_layer_assembly_mismatch,
  baseline_blob_digest_mismatch, shipped_blob_digest_mismatch, baseline_missing_patch_ref,
  intra_layer_unsupported, phase1_archive, unknown_bundle_version, invalid_bundle_format,
  multi_image_needs_named_baselines, baseline_name_unknown, baseline_mismatch, baseline_missing,
  invalid_bundle_spec, bundle_spec_missing_transport, duplicate_bundle_name, registry_auth,
  registry_network, registry_manifest_missing, registry_manifest_invalid, missing_patch_source,
  missing_baseline_reuse_layer, apply_invariant_failed, user_error, zstd_binary_missing, message,
  wrap, external,
}
use Prim.Native.String.{◌++◌}
use text.Mathlib.Text.{starts_with}

-- Category.ExitCode
unfoldable pub exit_code : Category → ℕ
exit_code internal = 1
exit_code user = 2
exit_code environment = 3
exit_code content = 4

-- Error() and strings.ToLower
pub record Texts : Type 0 where
  pub text : Error → String
  pub lower : String → String

-- strings.Contains
contains_text : String → String → Bool
contains_text String.[] needle = starts_with String.[] needle
contains_text (String.◌∷◌ c s) needle =
    starts_with (String.◌∷◌ c s) needle || contains_text s needle

unfoldable pub contains_any : String → List String → Bool
unfolding contains_text
contains_any haystack [] = false
contains_any haystack (n ∷ needles) = contains_text haystack n || contains_any haystack needles

-- What errors.Is and errors.As find of other packages' errors, through the Unwrap methods.
unfoldable pub cause_of : Error → Option External
cause_of (source_manifest_unreadable _ e) = cause_of e
cause_of (invalid_bundle_format e) = cause_of e
cause_of (registry_network _ e) = cause_of e
cause_of (wrap _ e) = cause_of e
cause_of (external x) = some x
cause_of _ = none

cobra_needles : List String
cobra_needles =
    "unknown command" ∷ "unknown flag" ∷ "unknown shorthand" ∷ "required flag"
    ∷ "flag needs an argument" ∷ "bad flag syntax" ∷ "arg(s)" ∷ []

-- isCobraUserError
is_cobra_user_error : Texts → Error → Bool
unfolding contains_any cobra_needles
is_cobra_user_error t e = contains_any (t.text e) cobra_needles

by_text : Texts → Error → Category × String
unfolding is_cobra_user_error
by_text t e =
    if is_cobra_user_error t e then (user, "run 'diffah --help' for usage") else (internal, "")

unfoldable pub is_some : Option String → Bool
is_some none = false
is_some (some _) = true

network_hint : String
network_hint = "network error talking to registry; check connectivity and --authfile"

-- The hint for an error of the operating system or the network; `none` for any other.
unfoldable pub hint_of : External → Option String
unfolding is_some network_hint
hint_of x =
    if x.is_context_error
    then some "operation was cancelled or timed out"
    else if is_some x.url_op || is_some x.net_op
    then some network_hint
    else elim (x.path) [
      | some path ↦ some ("filesystem error: " ++ path)
      | none ↦ if x.is_permission || x.is_not_exist then some "filesystem error" else none
    ]

-- Classify past its first case: an error with no Categorized in its chain.
fallback : Texts → Error → Category × String
unfolding by_text hint_of
fallback t e = elim (cause_of e) [
  | none ↦ by_text t e
  | some x ↦ elim (hint_of x) [ some hint ↦ (environment, hint) | none ↦ by_text t e ]
]

-- ErrSourceManifestUnreadable.Category, given what Classify says of the cause.
or_environment : Category → Category
or_environment internal = environment
or_environment c = c

-- The first Categorized in the chain, and what its Category method returns.
pub find_category : Texts → Error → Option Category
unfolding fallback or_environment
find_category t (manifest_list_unselected _) = some user
find_category t (sidecar_schema _) = some content
find_category t (baseline_missing_blob _ _) = some user
find_category t (incompatible_output_format _ _) = some user
find_category t (unknown_image_format _) = some user
find_category t (not_a_diffah_archive _) = some content
find_category t (source_manifest_unreadable _ e) = some (elim (find_category t e) [
  | some c ↦ or_environment c
  | none ↦ or_environment (fallback t e).0
])
find_category t (digest_mismatch _ _ _) = some content
find_category t (intra_layer_assembly_mismatch _ _) = some content
find_category t (baseline_blob_digest_mismatch _ _ _) = some content
find_category t (shipped_blob_digest_mismatch _ _ _) = some content
find_category t (baseline_missing_patch_ref _ _) = some user
find_category t (intra_layer_unsupported _) = some user
find_category t (phase1_archive _) = some content
find_category t (unknown_bundle_version _) = some content
find_category t (invalid_bundle_format _) = some content
find_category t (multi_image_needs_named_baselines _) = some user
find_category t (baseline_name_unknown _ _) = some user
find_category t (baseline_mismatch _ _ _) = some user
find_category t (baseline_missing _) = some user
find_category t (invalid_bundle_spec _ _) = some user
find_category t (bundle_spec_missing_transport _ _) = some user
find_category t (duplicate_bundle_name _) = some user
find_category t (registry_auth _) = some user
find_category t (registry_network _ _) = some environment
find_category t (registry_manifest_missing _) = some content
find_category t (registry_manifest_invalid _ _) = some content
find_category t (missing_patch_source _ _ _) = some content
find_category t (missing_baseline_reuse_layer _ _) = some content
find_category t (apply_invariant_failed _ _ _ _) = some content
find_category t (user_error c _ _) = some c
find_category t zstd_binary_missing = some environment
find_category t (message _) = none
find_category t (wrap _ e) = find_category t e
find_category t (external _) = none

-- The first Advised in the chain, and what its NextAction method returns.
find_hint : Error → Option String
find_hint (manifest_list_unselected _) =
    some "pass --platform os/arch[/variant] to select a manifest-list instance"
find_hint (sidecar_schema _) = some "archive may be corrupt or from an unsupported version"
find_hint (baseline_missing_blob _ _) =
    some "verify the --baseline value matches the baseline the delta was built against"
find_hint (incompatible_output_format _ _) =
    some "pass --allow-convert to accept digest drift, or pick a compatible --image-format"
find_hint (unknown_image_format _) = some "use one of: docker-archive, oci-archive, dir"
find_hint (not_a_diffah_archive _) =
    some "verify the path points at an archive produced by 'diffah diff' or 'diffah bundle'"
find_hint (baseline_missing_patch_ref _ _) =
    some "the named baseline lacks the layer this patch was built against"
find_hint (intra_layer_unsupported _) =
    some "retry with --intra-layer=off or provide a baseline with readable blob bytes"
find_hint (phase1_archive _) = some "re-export the archive with the current diffah"
find_hint (unknown_bundle_version _) = some "upgrade diffah to a version that supports this archive"
find_hint (multi_image_needs_named_baselines _) =
    some
      "pass a BASELINE-SPEC JSON file mapping each image name to its baseline path (see 'diffah unbundle --help')"
find_hint (baseline_name_unknown _ _) =
    some "check `diffah inspect` for the names this bundle expects"
find_hint (baseline_mismatch _ _ _) = some "the supplied baseline has the wrong manifest digest"
find_hint (baseline_missing _) =
    some "add the missing image(s) to the BASELINE-SPEC JSON, or drop --strict to skip them"
find_hint (invalid_bundle_spec _ _) = some "check bundle spec JSON syntax and field names"
find_hint (bundle_spec_missing_transport _ _) =
    some "prefix each bundle-spec value with a transport (docker-archive:, docker://, oci:, dir:)"
find_hint (duplicate_bundle_name _) = some "each image name in a bundle must be unique"
find_hint (registry_auth _) = some "verify --authfile or --creds for this registry"
find_hint (registry_network _ _) =
    some "check connectivity and retry with --retry-times / --retry-delay"
find_hint (registry_manifest_missing _) =
    some "manifest was not found — check tag or repository spelling"
find_hint (registry_manifest_invalid _ _) =
    some "manifest at this reference is corrupt or uses an unsupported schema"
find_hint (missing_patch_source _ _ _) =
    some
      "re-run 'diffah diff' against this baseline, or apply against the original baseline that produced this delta"
find_hint (missing_baseline_reuse_layer _ _) =
    some "baseline must include this layer — pin/add it, or re-run diff with a wider baseline"
find_hint (apply_invariant_failed _ _ _ _) =
    some "dest may be partially written; manual cleanup recommended"
find_hint (source_manifest_unreadable _ e) = find_hint e
find_hint (invalid_bundle_format e) = find_hint e
find_hint (user_error _ _ hint) = some hint
find_hint zstd_binary_missing = some "install zstd 1.5+ (brew install zstd / apt install zstd)"
find_hint (wrap _ e) = find_hint e
find_hint _ = none

or_empty : Option String → String
or_empty none = ""
or_empty (some s) = s

-- Classify of an error that is not nil.
unfoldable pub classify : Texts → Error → Category × String
unfolding find_category find_hint or_empty
classify t e = elim (find_category t e) [
  | some c ↦ (c, or_empty (find_hint e))
  | none ↦ fallback t e
]
