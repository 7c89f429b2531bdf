-- ===== src/Importer/Budget/Fits.antt =====
-- When every image fits the memory budget.
use diffah.Base.{
  String, Option, none, some, List, [], ◌∷◌, ◌≡◌, ◌≢◌, ◌↔◌, ◌⊎◌, inl, inr, arith, refl, subst, ap,
  ◌∙◌, All, Bool-cases, Option-cases,
}
use diffah.Base.Int.{ℤ, pos, leb_ℤ, ◌≤ℤ◌}
use diffah.Base.Map.{Map, lookup}
use diffah.Base.Disk.{Bytes, Disk}
use diffah.Importer.Manifest.{blob_path}
use diffah.Diff.Types.{BlobEntry, ImageEntry}
use diffah.Diff.Errors.{Error, Result, ok, err, Result-cases, >>_iff}
use diffah.Importer.Budget.{
  LayerReader, some_layers, read_manifest_layers, entry_estimate, max_rss, raise, check_image,
  estimate_per_image_rss, over_budget, check_images, check_single_image_fits_in_budget,
}

module _ (blobs : Map BlobEntry) (wl mem_budget : ℤ) where
  -- A layer costs memory only if it is shipped.
  abbrev pub EntryFits : Option BlobEntry → Type 0
  EntryFits none = Unit
  EntryFits (some e) = entry_estimate wl e ≤ℤ mem_budget

  abbrev pub LayerFits : String → Type 0
  LayerFits d = EntryFits (lookup d blobs)

  raise_iff :
      (acc : ℤ) (e : Option BlobEntry)
      → (raise wl acc e ≤ℤ mem_budget) ↔ ((acc ≤ℤ mem_budget) × EntryFits e)
  unfolding raise
  raise_iff acc none = ground arith
  raise_iff acc (some e) = ground arith

  max_rss_iff :
      (layers : List String) (acc : ℤ)
      → (max_rss blobs wl layers acc ≤ℤ mem_budget) ↔ ((acc ≤ℤ mem_budget) × All LayerFits layers)
  unfolding max_rss
  max_rss_iff [] acc = ground arith
  max_rss_iff (d ∷ layers) acc =
      ground
        (arith, raise_iff acc (lookup d blobs), max_rss_iff layers (raise wl acc (lookup d blobs)))

  module _ (r : LayerReader) (disk : Disk) where
    -- The manifest is on disk, is decoded, lists at least one layer, and each of them fits.
    abbrev pub ImageFits : ImageEntry → Type 0
    ImageFits img =
        (raw : Bytes) × (layers : List String) × (lookup
            (blob_path r.dig r.blob_dir img.target.manifest_digest) disk
          ≡ some raw)
        × (r.unmarshal_layers raw ≡ ok layers)
        × (layers ≢ [])
        × All LayerFits layers

    abbrev manifest : ImageEntry → Option Bytes
    manifest img = lookup (blob_path r.dig r.blob_dir img.target.manifest_digest) disk

    some_layers-ok :
        (ls layers : List String) → some_layers ls ≡ ok layers → (ls ≡ layers) × (layers ≢ [])
    unfolding some_layers
    some_layers-ok [] layers h = absurd (ground arith)
    some_layers-ok (d ∷ ls) layers h =
        let equal : d ∷ ls ≡ layers = cc in (equal, subst (λ xs. xs ≢ []) equal (λ q. ground arith))

    ok-some_layers : (layers : List String) → layers ≢ [] → some_layers layers ≡ ok layers
    unfolding some_layers
    ok-some_layers [] h = absurd (h refl)
    ok-some_layers (d ∷ layers) h = refl

    read_manifest_layers_iff :
        (img : ImageEntry) (layers : List String)
        → (read_manifest_layers r img.target.manifest_digest disk ≡ ok layers) ↔ (
            (raw : Bytes) × (manifest img ≡ some raw)
            × (r.unmarshal_layers raw ≡ ok layers)
            × (layers ≢ []))
    unfolding read_manifest_layers some_layers
    read_manifest_layers_iff img layers = (
      (λ h. elim (Option-cases (manifest img)) [
        | inl q ↦ absurd (failing (rw (read_manifest_layers, q) at h))
        | inr (raw, q) ↦ elim (Result-cases (r.unmarshal_layers raw)) [
          | inr (e, k) ↦ absurd (failing (rw (read_manifest_layers, q, k) at h))
          | inl (ls, k) ↦
              let (equal, some_layer) =
                some_layers-ok ls layers (rw (read_manifest_layers, q, k) at h) in
              (raw, q, k ∙ ap ok equal, some_layer)
        ]
      ]),
      (λ (raw, q, k, some_layer).
          rw (read_manifest_layers, q, k) (ok-some_layers layers some_layer)),
    )
      where
        failing : {e : Error} → ◌≡◌ {A = Result (List String)} (err e) (ok layers) → ⊥
        failing k = cc

    check_image-fits :
        (img : ImageEntry) (layers : List String)
        → pos 0 ≤ℤ mem_budget
        → read_manifest_layers r img.target.manifest_digest disk ≡ ok layers
        → (check_image r img blobs wl mem_budget disk ≡ ok tt) ↔ All LayerFits layers
    unfolding check_image estimate_per_image_rss over_budget
    check_image-fits img layers positive q = rw q (ground (arith, max_rss_iff layers (pos 0)))

    check_image-unread :
        (img : ImageEntry) (e : Error)
        → read_manifest_layers r img.target.manifest_digest disk ≡ err e
        → check_image r img blobs wl mem_budget disk ≢ ok tt
    unfolding check_image estimate_per_image_rss over_budget
    check_image-unread img e q = rw q (ground arith)

    check_image_iff :
        (img : ImageEntry)
        → pos 0 ≤ℤ mem_budget
        → (check_image r img blobs wl mem_budget disk ≡ ok tt) ↔ ImageFits img
    check_image_iff img positive = (
      (λ h. elim (Result-cases (read_manifest_layers r img.target.manifest_digest disk)) [
        | inr (e, q) ↦ absurd (check_image-unread img e q h)
        | inl (layers, q) ↦
            let (raw, there, decoded, some_layer) = (read_manifest_layers_iff img layers).0 q in
            (raw, layers, there, decoded, some_layer, (check_image-fits img layers positive q).0 h)
      ]),
      (λ (raw, layers, there, decoded, some_layer, fit).
          (check_image-fits img layers positive
              ((read_manifest_layers_iff img layers).1 (raw, there, decoded, some_layer))).1
            fit),
    )

    check_images_iff :
        (images : List ImageEntry)
        → pos 0 ≤ℤ mem_budget
        → (check_images r images blobs wl mem_budget disk ≡ ok tt) ↔ All ImageFits images
    unfolding check_images
    check_images_iff [] positive = ground arith
    check_images_iff (img ∷ images) positive = ground (
      arith,
      >>_iff (check_image r img blobs wl mem_budget disk)
          (check_images r images blobs wl mem_budget disk) tt,
      check_image_iff img positive,
      check_images_iff images positive,
    )

    -- The check before an import passes exactly if the budget is not positive, so that it is off, or
    -- the manifest of every image can be read, lists layers and each shipped layer among them has an
    -- estimate within the budget.
    pub check_single_image_fits_in_budget_iff :
        (images : List ImageEntry)
        → (check_single_image_fits_in_budget r images blobs wl mem_budget disk ≡ ok tt)
          ↔ ((mem_budget ≤ℤ pos 0) ⊎ All ImageFits images)
    unfolding check_single_image_fits_in_budget
    check_single_image_fits_in_budget_iff images = elim (Bool-cases (leb_ℤ mem_budget (pos 0))) [
      | inl off ↦ rw off (ground arith)
      | inr on ↦ rw on (ground (arith, check_images_iff images))
    ]
