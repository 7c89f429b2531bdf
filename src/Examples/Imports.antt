-- ===== src/Examples/Imports.antt =====
-- A bundle with one image whose layer is shipped whole.
use mathlib.Core.List.Perm
use mathlib.Core.List.{Perm}
use diffah.Base.{true, ℕ, false, none, some, List, [], ◌∷◌, ◌≡◌, ◌⊎◌, ◌↔◌, refl, All}
use diffah.Base.Int.{pos, ◌≤ℤ◌}
use diffah.Base.Map.{Map, insert}
use diffah.Base.Disk.{Bytes}
use diffah.Diff.Types.{BlobEntry, ImageEntry, full}
use diffah.Diff.Errors.{ok, err, message}
use diffah.Importer.Manifest.{
  read_sidecar_target_layers, blob_path, parse_manifest_layers, parse_manifest, digests_not_in, add,
  add_all, ManifestLib, ExtractedBundle, docker_schema2,
}
use diffah.Importer.Preflight.{
  ResolvedBaseline, run_preflight, scan_images, scan_one_image, compute_required_baseline_digests,
  scan_layers, status_of, baseline_set,
}
use diffah.Importer.Report.{ApplyReport, split_preflight_results}
use diffah.Importer.Report.Order.{row_names}
use diffah.Importer.Budget.{LayerReader, check_single_image_fits_in_budget}
use diffah.Importer.Budget.Fits.{ImageFits, check_single_image_fits_in_budget_iff}
use diffah.Importer.Apply.{State, ImageLib, Site}
use diffah.Importer.Driver.{ImportOptions}
use diffah.Importer.Driver.Outcome.{
  HasOk, Proceeds, imported, preflight, applied, import_resolved-ok_iff, import_resolved-rows,
}
use diffah.Examples.Fixtures.{calm_os, two_digests, tiny_zstd}

abbrev blobs : Map BlobEntry
blobs =
    (
      "aa",
      record {
        size = pos 100;
        media_type = "layer";
        encoding = full;
        codec = "";
        patch_from_digest = "";
        archive_size = pos 100;
      },
    )
    ∷ []

abbrev pub image : ImageEntry
image = record {
  name = "app";
  baseline = record {
    manifest_digest = "mm";
    media_type = docker_schema2;
    source_hint = "old.tar";
  };
  target = record { manifest_digest = "mm"; manifest_size = pos 2; media_type = docker_schema2 };
}

abbrev pub bundle : ExtractedBundle
bundle = record {
  sidecar = record {
    version = "v1";
    feature = "bundle";
    tool = "diffah";
    tool_version = "1";
    created_at = 1;
    platform = "linux/amd64";
    blobs = some blobs;
    images = image ∷ [];
  };
  blob_dir = "x";
}

-- Every manifest has one layer, "aa".
abbrev manifests : ManifestLib
manifests = record {
  normalized = λ mt. mt;
  schema2 = λ raw. ok (record { digest = "aa"; size = pos 100 } ∷ [], "cc");
  oci1 = λ raw. err (message "no OCI");
}

-- A registry that takes every image.
abbrev images : ImageLib Bytes
images = record {
  parse_image_name = λ ref. ok ref;
  transport_name = λ ref. "docker";
  within_transport = λ ref. ref;
  policy_error = none;
  copy_image = λ source manifest mime ref keep st. (ok tt, record st { dest = manifest });
  fetched = λ ref st. ok (st.dest, docker_schema2);
}

abbrev pub site : Site Bytes
site = record {
  manifests = manifests;
  images = images;
  os = calm_os;
  dig = two_digests;
  zstd = tiny_zstd;
  texts = record { text = λ e. ""; lower = λ s. s };
  unmarshal_layers = λ raw. ok ("aa" ∷ []);
  spool_tmp = λ d. "s/tmp";
  scratch_tmp = λ dir d. "w/tmp";
  mkdir_error = λ path. none;
  mkdir_parent_error = λ path. none;
}

abbrev pub options : ImportOptions
options = record {
  outputs = ("app", "docker://r/app") ∷ [];
  strict = false;
  allow_convert = false;
  workdir = "w";
  memory_budget = pos 0;
  workers = pos 2;
  window_log = pos 27;
  context = λ name. none;
  ended = λ name. false;
}

abbrev baseline : ResolvedBaseline
baseline = record {
  name = "app";
  manifest_bytes = 2 ∷ [];
  manifest_mime = docker_schema2;
  source = λ d. ok [];
}

abbrev pub state : State Bytes
state = record {
  spool = record { dir = ""; entries = [] };
  disk = ("x/sha256/aa", 1 ∷ []) ∷ [];
  dest = [];
}

abbrev resolved : List ResolvedBaseline
resolved = baseline ∷ []

abbrev reader : LayerReader
reader = record { dig = two_digests; unmarshal_layers = λ raw. ok ("aa" ∷ []); blob_dir = "x" }

budget_example :
    (check_single_image_fits_in_budget reader (image ∷ []) blobs (pos 27) (pos 1000) state.disk
      ≡ ok tt)
    ↔ ((pos 1000 ≤ℤ pos 0)
        ⊎ All (ImageFits blobs (pos 27) (pos 1000) reader state.disk) (image ∷ []))
budget_example =
    check_single_image_fits_in_budget_iff blobs (pos 27) (pos 1000) reader state.disk (image ∷ [])

proceeds : Proceeds site bundle options resolved ("app" ∷ []) state
unfolding run_preflight scan_images scan_one_image compute_required_baseline_digests
    read_sidecar_target_layers blob_path parse_manifest_layers parse_manifest insert scan_layers
    status_of baseline_set digests_not_in add_all add
proceeds = record { scanned = refl; accepted = refl; roomy = refl }

import_resolved-ok_example :
    ((imported site bundle options resolved ("app" ∷ []) state).result ≡ ok tt)
    ↔ ((◌≡◌ {A = ℕ} 1 0) ⊎ HasOk (applied site bundle options resolved ("app" ∷ []) state).0)
import_resolved-ok_example =
    import_resolved-ok_iff site bundle options resolved ("app" ∷ []) state proceeds

app_scheduled :
    Perm
      ("app" ∷ [])
      (split_preflight_results
        (preflight site bundle options resolved ("app" ∷ []) state).results).0
unfolding run_preflight scan_images scan_one_image compute_required_baseline_digests
    read_sidecar_target_layers blob_path parse_manifest_layers parse_manifest insert scan_layers
    status_of baseline_set digests_not_in add_all add split_preflight_results
app_scheduled = Perm.refl ("app" ∷ [])

import_resolved-rows_example :
    (report : ApplyReport) × ((imported site bundle options resolved ("app" ∷ []) state).report
      ≡ some report)
    × (report.total ≡ 1)
    × Perm (row_names report.results) ("app" ∷ [])
unfolding check_single_image_fits_in_budget
import_resolved-rows_example =
    import_resolved-rows site bundle options resolved ("app" ∷ []) state proceeds ((λ m. m), tt)
      app_scheduled refl (λ name. refl) refl

abbrev strictly : ImportOptions
strictly = record options { strict = true }
