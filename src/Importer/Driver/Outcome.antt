-- ===== src/Importer/Driver/Outcome.antt =====
-- What Import returns, what it reports and what it leaves alone.
use mathlib.Core.List.{Perm, map-append}
use diffah.Base.{
  ◌<◌, String, false, ◌&&◌, none, some, List, [], ◌∷◌, ◌++◌, length, ◌≡◌, ◌↔◌, ◌⊎◌, refl, ap, arith,
  IsDistinct,
}
use diffah.Base.Disk.{join}
use diffah.Base.Map.{Map}
use diffah.Diff.Types.{ImageEntry, entries}
use diffah.Diff.Errors.{ok}
use diffah.Importer.Manifest.{ExtractedBundle}
use diffah.Importer.Preflight.{
  ResolvedBaseline, PreflightResult, Preflight, run_preflight, index_by_name,
}
use diffah.Importer.Preflight.Stops.{IsCancelled, IsMalformed, Fails}
use diffah.Importer.Preflight.Summary.{image_names, run_preflight-names}
use diffah.Importer.Report.{
  ApplyImageResult, ApplyReport, apply_ok, successful, preflight_skips, preflight_skipped_result,
  split_preflight_results,
}
use diffah.Importer.Report.Order.{row_names}
use diffah.Importer.Report.Skips.{split-Perm}
use diffah.Importer.Budget.{check_single_image_fits_in_budget}
use diffah.Importer.Apply.{State, Site}
use diffah.Importer.Driver.{
  ImportOptions, Imported, layer_reader, import_each_image, conclude, finished, apply_all,
  after_preflight, import_resolved,
}
use diffah.Importer.Driver.Rows.{import_each_image-rows}

abbrev pub HasOk : List ApplyImageResult → Type 0
HasOk [] = ⊥
HasOk (r ∷ rows) = (r.status ≡ apply_ok) ⊎ HasOk rows

successful_iff : (rows : List ApplyImageResult) → (0 < successful rows) ↔ HasOk rows
unfolding successful
successful_iff [] = ground arith
successful_iff (r ∷ rows) = ground (arith, successful_iff rows)

HasOk-skips_iff :
    (rows : List ApplyImageResult) (images : List ImageEntry) (skipped : Map PreflightResult)
    → HasOk (rows ++ preflight_skips images skipped) ↔ HasOk rows
unfolding preflight_skips preflight_skipped_result
HasOk-skips_iff [] [] skipped = ground arith
HasOk-skips_iff [] (img ∷ images) skipped = ground (arith, HasOk-skips_iff [] images skipped)
HasOk-skips_iff (r ∷ rows) images skipped = ground (arith, HasOk-skips_iff rows images skipped)

module _ {Dest : Type 0} (site : Site Dest) (bundle : ExtractedBundle) (opts : ImportOptions) where
  conclude_iff :
      (report : ApplyReport)
      → (conclude site bundle opts report ≡ ok tt) ↔ ((report.total ≡ 0) ⊎ HasOk report.results)
  unfolding conclude
  conclude_iff report = ground (arith, successful_iff report.results)

  module _ (resolved : List ResolvedBaseline) (schedule : List String) (st : State Dest) where
    abbrev pub preflight : Preflight
    preflight = run_preflight site.manifests site.dig opts.context bundle resolved st.disk

    abbrev pub imported : Imported Dest
    imported = import_resolved site bundle opts resolved schedule st

    abbrev Cancels : ImageEntry → Type 0
    Cancels =
        IsCancelled site.manifests site.dig opts.context bundle (index_by_name resolved []) st.disk

    abbrev Breaks : ImageEntry → Type 0
    Breaks =
        IsMalformed site.manifests site.dig opts.context bundle (index_by_name resolved []) st.disk

    abbrev Misses : ImageEntry → Type 0
    Misses = Fails site.manifests site.dig opts.context bundle (index_by_name resolved []) st.disk

    -- The preflight lets images through, and the spool's directory can be made.
    pub record Proceeds : Type 0 where
      pub scanned : preflight.fatal ≡ none
      pub accepted : (opts.strict && preflight.any_fail) ≡ false
      pub roomy : site.mkdir_error (join opts.workdir "baselines") ≡ none

    abbrev pub started : State Dest
    started = record st { spool = record { dir = join opts.workdir "baselines"; entries = [] } }

    abbrev pub applied : List ApplyImageResult × State Dest
    applied =
        import_each_image site bundle opts (index_by_name resolved [])
          (split_preflight_results preflight.results).0 schedule started

    imported-eq :
        Proceeds
        → imported ≡ finished site bundle opts (split_preflight_results preflight.results).1 applied
    unfolding import_resolved after_preflight apply_all
    imported-eq p = rw (p.scanned, p.accepted, apply_all, p.roomy) refl

    -- Where the preflight lets images through and the spool's directory can be made, Import returns
    -- without an error exactly if the bundle has no images or at least one image was applied. This holds
    -- in strict mode too: there another image may have failed, which the result does not show.
    pub import_resolved-ok_iff :
        Proceeds
        → (imported.result ≡ ok tt) ↔ ((length bundle.sidecar.images ≡ 0) ⊎ HasOk applied.0)
    unfolding finished
    import_resolved-ok_iff p = rw (imported-eq p) (
        ground (
          arith,
          conclude_iff (the_report),
          HasOk-skips_iff applied.0 bundle.sidecar.images
              (split_preflight_results preflight.results).1,
        ))
      where
        the_report : ApplyReport
        the_report = record {
          total = length bundle.sidecar.images;
          results =
              applied.0
              ++ preflight_skips bundle.sidecar.images
                  (split_preflight_results preflight.results).1;
        }

    -- In partial mode, if the scan completes, the spool's directory can be made, the images fit the
    -- memory budget, their names are distinct and the context does not end, the report counts all images
    -- of the bundle and has one row for each of them, named for it: whether they were applied, failed or
    -- were skipped, and whatever order the tasks of the pool run in.
    pub import_resolved-rows :
        Proceeds
        → IsDistinct (image_names bundle.sidecar.images)
        → Perm schedule (split_preflight_results preflight.results).0
        → opts.strict ≡ false
        → ((name : String) → opts.ended name ≡ false)
        → check_single_image_fits_in_budget
            (layer_reader site bundle opts)
            bundle.sidecar.images
            (entries bundle.sidecar.blobs)
            opts.window_log
            opts.memory_budget
            st.disk
          ≡ ok tt
        → (report : ApplyReport) × (imported.report ≡ some report)
          × (report.total ≡ length bundle.sidecar.images)
          × Perm (row_names report.results) (image_names bundle.sidecar.images)
    unfolding finished
    import_resolved-rows p distinct each_once partial runs fits =
        let names =
          run_preflight-names site.manifests site.dig opts.context bundle resolved st.disk
            p.scanned in
        let (fresh, all) = split-Perm bundle.sidecar.images preflight.results names distinct in
        let rows =
          import_each_image-rows site bundle opts (index_by_name resolved [])
            (split_preflight_results preflight.results).0 schedule started fresh each_once partial
            runs fits in
        (
          record {
            total = length bundle.sidecar.images;
            results =
                applied.0
                ++ preflight_skips bundle.sidecar.images
                    (split_preflight_results preflight.results).1;
          },
          ap (λ (i : Imported Dest). i.report) (imported-eq p),
          refl,
          rw (map-append) (rw rows all),
        )
