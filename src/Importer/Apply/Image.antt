-- ===== src/Importer/Apply/Image.antt =====
-- What it takes for an image to be reported as applied.
use diffah.Base.{String, Bool, some, List, ◌≡◌, refl, Option-cases, inl, inr}
use diffah.Base.Map.{Map, lookup}
use diffah.Diff.Types.{ImageEntry, entries}
use diffah.Diff.Errors.{Result, ok, err, Result-cases}
use diffah.Importer.Manifest.{
  LayerRef, ExtractedBundle, read_sidecar_target_layers, read_dest_manifest_layers,
}
use diffah.Importer.Invariant.{verify_apply_invariant}
use diffah.Importer.Invariant.Match.{IsMatch}
use diffah.Importer.Preflight.{ResolvedBaseline}
use diffah.Importer.Apply.{State, Site, checked, prepare_dest_ref, compose_image, apply_found}

module _ {Dest : Type 0} (site : Site Dest) (bundle : ExtractedBundle) where
  checked-name :
      (img : ImageEntry) (name ref : String) (r : Result (Unit {0}) × State Dest)
      → (checked site bundle img name ref r).0.image_name ≡ name
  unfolding checked
  checked-name img name ref (err e, st) = refl
  checked-name img name ref (ok _, st) =
      elim (Result-cases (
        verify_apply_invariant site.manifests site.dig img bundle (site.images.fetched ref st)
          st.disk)) [ inl (_, q) ↦ rw (checked, q) refl | inr (e, q) ↦ rw (checked, q) refl ]

  -- The written image is read back and compared well with the bundle.
  abbrev pub IsVerified : ImageEntry → String → State Dest → Type 0
  IsVerified img ref st =
      verify_apply_invariant site.manifests site.dig img bundle (site.images.fetched ref st) st.disk
      ≡ ok tt

  -- What the destination answers with has the layers that the bundle's target manifest lists, in the
  -- sizes that the sidecar gives, and without a conversion the digest that the sidecar gives.
  abbrev pub IsRebuilt : ImageEntry → String → State Dest → Type 0
  IsRebuilt img ref st =
      (expected : List LayerRef × String) × (actual : List LayerRef × String × String)
      × (read_sidecar_target_layers site.manifests site.dig bundle img st.disk ≡ ok expected)
      × (read_dest_manifest_layers site.manifests site.dig (site.images.fetched ref st) ≡ ok actual)
      × IsMatch img (entries bundle.sidecar.blobs) expected.0 actual.0 expected.1 actual.1 actual.2

  module _ (resolved : Map ResolvedBaseline) (outputs : Map String) (allow_convert : Bool)
      (workdir : String) where
    pub apply_found-name :
        (name : String) (img : ImageEntry) (st : State Dest)
        → (apply_found site bundle resolved outputs allow_convert workdir name img st).0.image_name
          ≡ name
    unfolding apply_found
    apply_found-name name img st = elim (Option-cases (lookup name resolved)) [
      | inl absent ↦ rw (apply_found, absent) refl
      | inr (rb, found) ↦ elim (Result-cases (prepare_dest_ref site name outputs)) [
        | inr (e, q) ↦ rw (apply_found, found, q) refl
        | inl (ref, q) ↦ rw (apply_found, found, q) (checked-name img name ref _)
      ]
    ]

    -- The steps of an image that is reported as applied.
    abbrev pub IsApplied : String → ImageEntry → State Dest → State Dest → Type 0
    IsApplied name img st after =
        (rb : ResolvedBaseline) × (ref : String) × (lookup name resolved ≡ some rb)
        × (prepare_dest_ref site name outputs ≡ ok ref)
        × ((compose_image site bundle img rb ref allow_convert workdir st).0 ≡ ok tt)
        × IsRebuilt img ref after
