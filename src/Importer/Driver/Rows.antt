-- ===== src/Importer/Driver/Rows.antt =====
-- The rows of the report of an import.
use mathlib.Core.List.{Perm}
use mathlib.Core.List.Perm
use mathlib.Core.Path.{ap₂}
use diffah.Base.{
  String, false, List, [], ◌∷◌, ◌≡◌, refl, subst, arith, IsDistinct, Option-cases, Bool-cases, inl,
  inr,
}
use diffah.Base.Int.{pos, leb_ℤ}
use diffah.Base.Map.{Map}
use diffah.Diff.Types.{entries}
use diffah.Diff.Errors.{ok, Result-cases}
use diffah.Importer.Manifest.{ExtractedBundle}
use diffah.Importer.Preflight.{ResolvedBaseline}
use diffah.Importer.Report.{ApplyImageResult}
use diffah.Importer.Report.Order.{row_names, sort_results_by_apply_list-in_order}
use diffah.Importer.Budget.{estimate_per_image_rss, check_single_image_fits_in_budget}
use diffah.Importer.Apply.{State, Site, find_image_by_name}
use diffah.Importer.Apply.Image.{apply_found-name}
use diffah.Importer.Driver.{
  ImportOptions, layer_reader, stops_after, apply_one_image, try_apply_one_image_sync,
  apply_serially, apply_scheduled, import_each_image,
}

module _ {Dest : Type 0} (site : Site Dest) (bundle : ExtractedBundle) (opts : ImportOptions) where
  apply_one_image-name :
      (resolved : Map ResolvedBaseline) (name : String) (st : State Dest)
      → (apply_one_image site bundle opts resolved name st).0.image_name ≡ name
  unfolding apply_one_image
  apply_one_image-name resolved name st =
      elim (Option-cases (find_image_by_name bundle.sidecar.images name)) [
        | inl absent ↦ rw (apply_one_image, absent) refl
        | inr (img, found) ↦
            rw (apply_one_image, found)
              (apply_found-name site bundle resolved opts.outputs opts.allow_convert opts.workdir
                name img st)
      ]

  try_apply_one_image_sync-name :
      (resolved : Map ResolvedBaseline) (name : String) (st : State Dest)
      → (try_apply_one_image_sync site bundle opts resolved name st).0.image_name ≡ name
  unfolding try_apply_one_image_sync
  try_apply_one_image_sync-name resolved name st =
      elim (Option-cases (find_image_by_name bundle.sidecar.images name)) [
        | inl absent ↦ rw (try_apply_one_image_sync, absent) refl
        | inr (img, found) ↦
            elim (Result-cases (
              estimate_per_image_rss (layer_reader site bundle opts) img
                (entries bundle.sidecar.blobs) opts.window_log st.disk)) [
                  | inl (est, q) ↦
                      rw (try_apply_one_image_sync, found, q)
                        (apply_one_image-name resolved name st)
                  | inr (e, q) ↦ rw (try_apply_one_image_sync, found, q) refl
                ]
      ]

  goes_on : (r : ApplyImageResult) → opts.strict ≡ false → stops_after site bundle opts r ≡ false
  unfolding stops_after
  goes_on r partial = ground arith

  apply_serially-names :
      (resolved : Map ResolvedBaseline) (names : List String) (st : State Dest)
      → opts.strict ≡ false
      → ((name : String) → opts.ended name ≡ false)
      → row_names (apply_serially site bundle opts resolved names st).0 ≡ names
  unfolding apply_serially
  apply_serially-names resolved [] st partial runs = refl
  apply_serially-names resolved (name ∷ names) st partial runs =
      rw
        (
          apply_serially,
          runs name,
          goes_on (try_apply_one_image_sync site bundle opts resolved name st).0 partial,
        )
        (ap₂ ◌∷◌ (try_apply_one_image_sync-name resolved name st) (
          apply_serially-names resolved names
            (try_apply_one_image_sync site bundle opts resolved name st).1 partial runs))

  apply_scheduled-names :
      (resolved : Map ResolvedBaseline) (names : List String) (st : State Dest)
      → row_names (apply_scheduled site bundle opts resolved names st).0 ≡ names
  unfolding apply_scheduled
  apply_scheduled-names resolved [] st = refl
  apply_scheduled-names resolved (name ∷ names) st =
      ap₂ ◌∷◌ (try_apply_one_image_sync-name resolved name st) (
        apply_scheduled-names resolved names
          (try_apply_one_image_sync site bundle opts resolved name st).1)

  -- In partial mode, if the images fit the budget and the context does not end, each name of the apply
  -- list has one row and the rows are in the order of the apply list: with one worker, and with several
  -- in any order of their tasks.
  pub import_each_image-rows :
      (resolved : Map ResolvedBaseline) (apply_list schedule : List String) (st : State Dest)
      → IsDistinct apply_list
      → Perm schedule apply_list
      → opts.strict ≡ false
      → ((name : String) → opts.ended name ≡ false)
      → check_single_image_fits_in_budget
          (layer_reader site bundle opts)
          bundle.sidecar.images
          (entries bundle.sidecar.blobs)
          opts.window_log
          opts.memory_budget
          st.disk
        ≡ ok tt
      → row_names (import_each_image site bundle opts resolved apply_list schedule st).0
        ≡ apply_list
  unfolding import_each_image
  import_each_image-rows resolved apply_list schedule st distinct each_once partial runs fits =
      elim (Bool-cases (leb_ℤ opts.workers (pos 1))) [
        | inl one ↦
            rw (import_each_image, fits, one)
              (sort_results_by_apply_list-in_order apply_list _ distinct
                (Perm_of_eq (apply_serially-names resolved apply_list st partial runs))).0
        | inr several ↦
            rw (import_each_image, fits, several)
              (sort_results_by_apply_list-in_order apply_list _ distinct
                (Perm.trans (Perm_of_eq (apply_scheduled-names resolved schedule st)) each_once)).0
      ]
    where
      Perm_of_eq : {xs ys : List String} → xs ≡ ys → Perm xs ys
      Perm_of_eq {xs} e = subst (λ zs. Perm xs zs) e (Perm.refl xs)
