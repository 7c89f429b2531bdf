-- ===== src/Importer/Preflight.antt =====
-- pkg/importer/preflight.go: the scan of each image's baseline. A context that is cancelled before a
-- step is `some` error of the argument `ctx` at that image.
pub mod Coverage
pub mod Summary
pub mod Stops
use diffah.Base.{
  String, Bool, true, false, not, ◌&&◌, Option, none, some, List, [], ◌∷◌, map, if◌then◌else◌, ◌==◌,
}
use diffah.Base.Map.{Map, lookup, insert}
use diffah.Base.Disk.{Bytes, Disk}
use diffah.Diff.Types.{BlobEntry, ImageEntry, entries, is_patch}
use diffah.Diff.Errors.{Error, Result, ok, err, message}
use diffah.Exporter.Types.{Digester}
use diffah.Importer.Manifest.{
  LayerRef, ManifestLib, ExtractedBundle, parse_manifest, read_sidecar_target_layers, add, add_all,
  digests_not_in,
}
use diffah.Importer.Invariant.{digests}

pub data PreflightStatus : Type 0 where
  preflight_ok missing_patch_source missing_reuse_layer preflight_error schema_error :
      PreflightStatus

pub record PreflightResult : Type 0 where
  pub image_name : String
  pub status : PreflightStatus
  pub missing_patch_sources : List String
  pub missing_reuse_layers : List String
  pub error : Option Error

-- `source` answers with a blob of the open image source.
pub record ResolvedBaseline : Type 0 where
  pub name : String
  pub manifest_bytes : Bytes
  pub manifest_mime : String
  pub source : String → Result Bytes

-- The loop of computeRequiredBaselineDigests: the layers to reuse, and the sources of patches.
required_from :
    Map BlobEntry → List LayerRef → List String → List String → List String × List String
required_from shipped [] reuse sources = (reuse, sources)
required_from shipped (l ∷ layers) reuse sources = elim (lookup l.digest shipped) [
  | none ↦ required_from shipped layers (add l.digest reuse) sources
  | some e ↦
      if is_patch e.encoding && not (e.patch_from_digest == "")
      then required_from shipped layers reuse (add e.patch_from_digest sources)
      else required_from shipped layers reuse sources
]

with_required : Map BlobEntry → Result (List LayerRef × String) → Result (List String × List String)
unfolding required_from
with_required shipped (ok (layers, mt)) = ok (required_from shipped layers [] [])
with_required shipped (err e) = err e

-- computeRequiredBaselineDigests
unfoldable pub compute_required_baseline_digests :
    ManifestLib
    → Digester
    → ExtractedBundle
    → ImageEntry
    → Disk
    → Result (List String × List String)
unfolding with_required
compute_required_baseline_digests lib dig bundle img disk =
    with_required (entries bundle.sidecar.blobs)
      (read_sidecar_target_layers lib dig bundle img disk)

abbrev failed_scan : String → PreflightStatus → Error → PreflightResult
failed_scan name status e = record {
  image_name = name;
  status = status;
  missing_patch_sources = [];
  missing_reuse_layers = [];
  error = some e;
}

-- The status of a scan: a missing patch source comes before a missing layer.
unfoldable pub status_of : List String → List String → PreflightStatus
status_of [] [] = preflight_ok
status_of [] (_ ∷ _) = missing_reuse_layer
status_of (_ ∷ _) _ = missing_patch_source

-- The set of digests that a baseline manifest gives.
unfoldable pub baseline_set : List LayerRef → String → List String
baseline_set layers config =
    if not (config == "")
    then add config (add_all (digests layers) [])
    else add_all (digests layers) []

-- scanOneImage, past the check of the context and the reading of the two manifests.
unfoldable pub scan_layers :
    String → List String × List String → List LayerRef × String × String → PreflightResult
scan_layers name (reuse, sources) (layers, config, mt) =
    let have = baseline_set layers config in
    let missing_sources = digests_not_in sources have in
    let missing_reuse = digests_not_in reuse have in
    record {
      image_name = name;
      status = status_of missing_sources missing_reuse;
      missing_patch_sources = missing_sources;
      missing_reuse_layers = missing_reuse;
      error = none;
    }

-- scanOneImage
unfoldable pub scan_one_image :
    ManifestLib
    → Digester
    → Option Error
    → ExtractedBundle
    → ImageEntry
    → ResolvedBaseline
    → Disk
    → PreflightResult
scan_one_image lib dig (some e) bundle img rb disk = failed_scan img.name preflight_error e
scan_one_image lib dig none bundle img rb disk =
    elim (compute_required_baseline_digests lib dig bundle img disk) [
      | err e ↦ failed_scan img.name schema_error e
      | ok required ↦ elim (parse_manifest lib rb.manifest_bytes rb.manifest_mime) [
        | err e ↦ failed_scan img.name preflight_error e
        | ok baseline ↦ scan_layers img.name required baseline
      ]
    ]

pub is_ok_status : PreflightStatus → Bool
is_ok_status preflight_ok = true
is_ok_status _ = false

pub is_schema_error : PreflightStatus → Bool
is_schema_error schema_error = true
is_schema_error _ = false

unfoldable pub index_by_name : List ResolvedBaseline → Map ResolvedBaseline → Map ResolvedBaseline
index_by_name [] m = m
index_by_name (r ∷ resolved) m = index_by_name resolved (insert r.name r m)

-- The results, whether one of them is not OK, and an error that ends the scan.
pub record Preflight : Type 0 where
  pub results : List PreflightResult
  pub any_fail : Bool
  pub fatal : Option Error

-- The loop of RunPreflight; the results come before those of the rest.
unfoldable pub scan_images :
    ManifestLib
    → Digester
    → (String → Option Error)
    → ExtractedBundle
    → Map ResolvedBaseline
    → Disk
    → List ImageEntry
    → Preflight
unfolding is_ok_status is_schema_error
scan_images lib dig ctx bundle by_name disk [] = record {
  results = [];
  any_fail = false;
  fatal = none;
}
scan_images lib dig ctx bundle by_name disk (img ∷ images) =
    let rest = scan_images lib dig ctx bundle by_name disk images in
    elim (ctx img.name) [
      | some e ↦ record { results = []; any_fail = false; fatal = some e }
      | none ↦ elim (lookup img.name by_name) [
        | none ↦ record {
          results =
              failed_scan img.name preflight_error (message "baseline not resolved") ∷ rest.results;
          any_fail = true;
          fatal = rest.fatal;
        }
        | some rb ↦
            let r = scan_one_image lib dig none bundle img rb disk in
            if is_schema_error r.status
            then record { results = []; any_fail = true; fatal = r.error }
            else record {
              results = r ∷ rest.results;
              any_fail = (if is_ok_status r.status then rest.any_fail else true);
              fatal = rest.fatal;
            }
      ]
    ]

-- RunPreflight
unfoldable pub run_preflight :
    ManifestLib
    → Digester
    → (String → Option Error)
    → ExtractedBundle
    → List ResolvedBaseline
    → Disk
    → Preflight
unfolding index_by_name
run_preflight lib dig ctx bundle resolved disk =
    scan_images lib dig ctx bundle (index_by_name resolved []) disk bundle.sidecar.images
