-- ===== src/Importer/Preflight/Summary.antt =====
-- The results of RunPreflight name the images.
use diffah.Base.{
  String, Bool, true, false, Option, none, some, List, [], ◌∷◌, map, ◌≡◌, refl, ap, inl, inr,
  Bool-cases, Option-cases,
}
use mathlib.Core.Path.{ap₂}
use diffah.Base.Map.{Map, lookup}
use diffah.Base.Disk.{Disk}
use diffah.Diff.Types.{ImageEntry}
use diffah.Diff.Errors.{Error, Result-cases}
use diffah.Exporter.Types.{Digester}
use diffah.Importer.Manifest.{ManifestLib, ExtractedBundle, parse_manifest, digests_not_in}
use diffah.Importer.Preflight.{
  PreflightResult, ResolvedBaseline, Preflight, scan_one_image, scan_layers, baseline_set,
  status_of, compute_required_baseline_digests, is_schema_error, scan_images, run_preflight,
  index_by_name,
}

abbrev pub image_names : List ImageEntry → List String
image_names = map (λ (img : ImageEntry). img.name)

abbrev pub result_names : List PreflightResult → List String
result_names = map (λ (r : PreflightResult). r.image_name)

is_schema_error-status_of :
    (sources reuse : List String) → is_schema_error (status_of sources reuse) ≡ false
unfolding is_schema_error status_of
is_schema_error-status_of [] [] = refl
is_schema_error-status_of [] (_ ∷ _) = refl
is_schema_error-status_of (_ ∷ _) reuse = refl

module _ (lib : ManifestLib) (dig : Digester) (ctx : String → Option Error)
    (bundle : ExtractedBundle) (by_name : Map ResolvedBaseline) (disk : Disk) where
  scan_one_image-name :
      (img : ImageEntry) (rb : ResolvedBaseline)
      → (scan_one_image lib dig none bundle img rb disk).image_name ≡ img.name
  unfolding scan_one_image scan_layers
  scan_one_image-name img rb =
      elim (Result-cases (compute_required_baseline_digests lib dig bundle img disk)) [
        | inr (e, q) ↦ rw (scan_one_image, q) refl
        | inl (required, q) ↦
            elim (Result-cases (parse_manifest lib rb.manifest_bytes rb.manifest_mime)) [
              | inr (e, k) ↦ rw (scan_one_image, q, k) refl
              | inl (baseline, k) ↦ rw (scan_one_image, q, k) refl
            ]
      ]

  abbrev scan : List ImageEntry → Preflight
  scan = scan_images lib dig ctx bundle by_name disk

  -- A schema error comes with its error.
  pub schema_error-fatal :
      (img : ImageEntry) (rb : ResolvedBaseline)
      → is_schema_error (scan_one_image lib dig none bundle img rb disk).status ≡ true
      → (e : Error) × ((scan_one_image lib dig none bundle img rb disk).error ≡ some e)
  unfolding scan_one_image scan_layers is_schema_error
  schema_error-fatal img rb h =
      elim (Result-cases (compute_required_baseline_digests lib dig bundle img disk)) [
        | inr (e, q) ↦ (e, rw (scan_one_image, q) refl)
        | inl (required, q) ↦
            elim (Result-cases (parse_manifest lib rb.manifest_bytes rb.manifest_mime)) [
              | inr (e, k) ↦ (e, rw (scan_one_image, q, k) refl)
              | inl (baseline, k) ↦ absurd (
                  never
                    (is_schema_error-status_of
                      (digests_not_in required.1 (baseline_set baseline.0 baseline.1))
                      (digests_not_in required.0 (baseline_set baseline.0 baseline.1)))
                    (rw (scan_one_image, q, k) at h))
            ]
      ]
    where
      never : {b : Bool} → b ≡ false → b ≡ true → ⊥
      never f t = cc

  scan_images-names :
      (images : List ImageEntry)
      → (scan images).fatal ≡ none
      → result_names (scan images).results ≡ image_names images
  unfolding scan_images
  scan_images-names [] h = refl
  scan_images-names (img ∷ images) h = elim (Option-cases (ctx img.name)) [
    | inr (e, c) ↦ absurd (none_some (rw (scan_images, c) at h))
    | inl c ↦ elim (Option-cases (lookup img.name by_name)) [
      | inl l ↦
          rw (scan_images, c, l)
            (ap (◌∷◌ img.name) (scan_images-names images (rw (scan_images, c, l) at h)))
      | inr (rb, l) ↦
          elim (Bool-cases
            (is_schema_error (scan_one_image lib dig none bundle img rb disk).status)) [
              | inl broken ↦
                  let (e, q) = schema_error-fatal img rb broken in
                  absurd (clash q (rw (scan_images, c, l, broken) at h))
              | inr fine ↦
                  rw (scan_images, c, l, fine)
                    (ap₂ ◌∷◌ (scan_one_image-name img rb)
                      (scan_images-names images (rw (scan_images, c, l, fine) at h)))
            ]
    ]
  ]
    where
      none_some : {e : Error} → some e ≡ none → ⊥
      none_some k = cc

      clash : {o : Option Error} {e : Error} → o ≡ some e → o ≡ none → ⊥
      clash q k = cc

-- Where the scan is not ended, it has one result for each image, in the images' order.
pub run_preflight-names :
    (lib : ManifestLib) (dig : Digester) (ctx : String → Option Error) (bundle : ExtractedBundle)
    (resolved : List ResolvedBaseline) (disk : Disk)
    → (run_preflight lib dig ctx bundle resolved disk).fatal ≡ none
    → result_names (run_preflight lib dig ctx bundle resolved disk).results
      ≡ image_names bundle.sidecar.images
unfolding run_preflight
run_preflight-names lib dig ctx bundle resolved disk h =
    scan_images-names lib dig ctx bundle (index_by_name resolved []) disk bundle.sidecar.images h
