-- ===== src/Importer/Budget.antt =====
-- pkg/importer/admission.go: the memory that applying an image may take, and readManifestLayers of
-- importer.go. The layers that encoding/json finds in a manifest are a parameter.
pub mod Fits
use diffah.Base.{String, Bool, Option, none, some, List, [], ◌∷◌, if◌then◌else◌}
use diffah.Base.Int.{ℤ, pos, ltb_ℤ, leb_ℤ}
use diffah.Base.Map.{Map, lookup}
use diffah.Base.Disk.{Bytes, Disk}
use diffah.Diff.Types.{BlobEntry, ImageEntry}
use diffah.Diff.Errors.{Result, ok, err, ◌>>=◌, ◌>>◌, wrap_err, message, user_error, user}
use diffah.Exporter.Types.{Digester}
use diffah.Exporter.Window.{resolve_window_log, estimate_rss_for_window_log}
use diffah.Importer.Manifest.{blob_path}

-- What the budget is checked with: the digests, and json.Unmarshal into the layers' digests.
pub record LayerReader : Type 0 where
  pub dig : Digester
  pub unmarshal_layers : Bytes → Result (List String)
  pub blob_dir : String

some_layers : List String → Result (List String)
some_layers [] = err (message "manifest has no layers")
some_layers (d ∷ layers) = ok (d ∷ layers)

-- readManifestLayers
unfoldable pub read_manifest_layers : LayerReader → String → Disk → Result (List String)
unfolding some_layers
read_manifest_layers r manifest disk = elim (lookup (blob_path r.dig r.blob_dir manifest) disk) [
  | none ↦ err (message "open manifest")
  | some raw ↦ do layers ← wrap_err "parse manifest" (r.unmarshal_layers raw); some_layers layers
]

abbrev pub entry_estimate : ℤ → BlobEntry → ℤ
entry_estimate user_window_log e =
    estimate_rss_for_window_log (resolve_window_log user_window_log e.size)

raise : ℤ → ℤ → Option BlobEntry → ℤ
raise wl max_est none = max_est
raise wl max_est (some entry) =
    let est = entry_estimate wl entry in if ltb_ℤ max_est est then est else max_est

-- The loop of estimatePerImageRSS, with the largest estimate so far.
max_rss : Map BlobEntry → ℤ → List String → ℤ → ℤ
max_rss blobs wl [] max_est = max_est
max_rss blobs wl (d ∷ layers) max_est = max_rss blobs wl layers (raise wl max_est (lookup d blobs))

-- estimatePerImageRSS
unfoldable pub estimate_per_image_rss :
    LayerReader → ImageEntry → Map BlobEntry → ℤ → Disk → Result ℤ
unfolding max_rss raise
estimate_per_image_rss r img blobs user_window_log disk = do
  layers ← wrap_err "read target manifest" (read_manifest_layers r img.target.manifest_digest disk)
  ok (max_rss blobs user_window_log layers (pos 0))

over_budget : String → ℤ → ℤ → Result (Unit {0})
over_budget name mem_budget est =
    if ltb_ℤ mem_budget est
    then err (user_error user name "increase --memory-budget or set --memory-budget=0")
    else ok tt

-- One round of the loop of checkSingleImageFitsInBudget.
check_image : LayerReader → ImageEntry → Map BlobEntry → ℤ → ℤ → Disk → Result (Unit {0})
unfolding over_budget
check_image r img blobs wl mem_budget disk = do
  est ← estimate_per_image_rss r img blobs wl disk
  over_budget img.name mem_budget est

check_images : LayerReader → List ImageEntry → Map BlobEntry → ℤ → ℤ → Disk → Result (Unit {0})
check_images r [] blobs wl mem_budget disk = ok tt
check_images r (img ∷ images) blobs wl mem_budget disk = do
  check_image r img blobs wl mem_budget disk
  check_images r images blobs wl mem_budget disk

-- checkSingleImageFitsInBudget
unfoldable pub check_single_image_fits_in_budget :
    LayerReader → List ImageEntry → Map BlobEntry → ℤ → ℤ → Disk → Result (Unit {0})
unfolding check_images check_image
check_single_image_fits_in_budget r images blobs user_window_log mem_budget disk =
    if leb_ℤ mem_budget (pos 0)
    then ok tt
    else check_images r images blobs user_window_log mem_budget disk
