-- ===== src/Importer/Driver.antt =====
-- pkg/importer/importer.go from the resolved baselines on: importEachImage, and the end of Import. The
-- tasks of the worker pool run one after the other in an order that is a parameter; in strict mode that
-- order may leave out tasks, which the pool has cancelled. The summary on the terminal is the report.
pub mod Rows
pub mod Outcome
use diffah.Base.{
  ℕ, String, Bool, true, false, not, ◌&&◌, Option, none, some, List, [], ◌∷◌, ◌++◌, map, length,
  if◌then◌else◌,
}
use diffah.Base.Int.{ℤ, pos, leb_ℤ}
use diffah.Base.Map.{Map, lookup}
use diffah.Base.Disk.{join}
use diffah.Diff.Types.{ImageEntry, entries}
use diffah.Diff.Errors.{Error, Result, ok, err, message, wrap}
use diffah.Importer.Manifest.{ExtractedBundle}
use diffah.Importer.Preflight.{
  ResolvedBaseline, PreflightResult, Preflight, index_by_name, run_preflight,
}
use diffah.Importer.Compose.{BaselineSpool}
use diffah.Importer.Report.{
  ApplyImageResult, ApplyReport, is_apply_ok, apply_ok, failed, failed_compose, successful,
  split_preflight_results, preflight_skips, is_preflight_ok, sort_results_by_apply_list,
  first_non_ok_error, first_preflight_error, preflight_skipped_result,
}
use diffah.Importer.Budget.{LayerReader, estimate_per_image_rss, check_single_image_fits_in_budget}
use diffah.Importer.Apply.{State, Site, apply_found, find_image_by_name}

-- The fields of Options that are read here, with the work directory in place. `ended` is ctx.Err before
-- an image is applied, and `context` the error that the preflight sees at an image.
pub record ImportOptions : Type 0 where
  pub outputs : Map String
  pub strict : Bool
  pub allow_convert : Bool
  pub workdir : String
  pub memory_budget : ℤ
  pub workers : ℤ
  pub window_log : ℤ
  pub context : String → Option Error
  pub ended : String → Bool

-- What an import returns, the report that it prints, and the state that it leaves.
pub record Imported (Dest : Type 0) : Type 0 where
  pub result : Result (Unit {0})
  pub report : Option ApplyReport
  pub state : State Dest

abbrev pub budget_sentinel_name : String
budget_sentinel_name = "<budget>"

module _ {Dest : Type 0} (site : Site Dest) (bundle : ExtractedBundle) (opts : ImportOptions) where
  abbrev pub layer_reader : LayerReader
  layer_reader = record {
    dig = site.dig;
    unmarshal_layers = site.unmarshal_layers;
    blob_dir = bundle.blob_dir;
  }

  -- applyOneImage
  unfoldable pub apply_one_image :
      Map ResolvedBaseline → String → State Dest → ApplyImageResult × State Dest
  apply_one_image resolved name st = elim (find_image_by_name bundle.sidecar.images name) [
    | none ↦ (failed name failed_compose (message "image not found in sidecar"), st)
    | some img ↦
        apply_found site bundle resolved opts.outputs opts.allow_convert opts.workdir name img st
  ]

  -- tryApplyOneImageSync, and what submitOneImage does of the same
  unfoldable pub try_apply_one_image_sync :
      Map ResolvedBaseline → String → State Dest → ApplyImageResult × State Dest
  try_apply_one_image_sync resolved name st = elim (find_image_by_name bundle.sidecar.images name) [
    | none ↦ (failed name failed_compose (message "image not found in sidecar"), st)
    | some img ↦
        elim (estimate_per_image_rss layer_reader img (entries bundle.sidecar.blobs) opts.window_log
          st.disk) [
            | err e ↦ (failed name failed_compose e, st)
            | ok est ↦ apply_one_image resolved name st
          ]
  ]

  stops_after : ApplyImageResult → Bool
  stops_after r = opts.strict && not (is_apply_ok r.status)

  -- The loop with one worker: it stops at a cancelled context and, in strict mode, at a failure.
  apply_serially :
      Map ResolvedBaseline → List String → State Dest → List ApplyImageResult × State Dest
  apply_serially resolved [] st = ([], st)
  apply_serially resolved (name ∷ names) st =
      let (r, st') = try_apply_one_image_sync resolved name st in
      let (rest, st'') = apply_serially resolved names st' in
      if opts.ended name
      then ([], st)
      else if stops_after r
      then (r ∷ [], st')
      else (r ∷ rest, st'')

  -- The tasks of the pool, in the order in which they run.
  apply_scheduled :
      Map ResolvedBaseline → List String → State Dest → List ApplyImageResult × State Dest
  apply_scheduled resolved [] st = ([], st)
  apply_scheduled resolved (name ∷ names) st =
      let (r, st') = try_apply_one_image_sync resolved name st in
      let (rest, st'') = apply_scheduled resolved names st' in (r ∷ rest, st'')

  sorted : List String → List ApplyImageResult × State Dest → List ApplyImageResult × State Dest
  sorted apply_list (results, st) = (sort_results_by_apply_list apply_list results, st)

  -- importEachImage
  unfoldable pub import_each_image :
      Map ResolvedBaseline
      → List String
      → List String
      → State Dest
      → List ApplyImageResult × State Dest
  unfolding apply_serially apply_scheduled sorted stops_after
  import_each_image resolved apply_list schedule st =
      elim (check_single_image_fits_in_budget layer_reader bundle.sidecar.images
        (entries bundle.sidecar.blobs) opts.window_log opts.memory_budget st.disk) [
          | err e ↦ (failed budget_sentinel_name failed_compose e ∷ [], st)
          | ok _ ↦
              if leb_ℤ opts.workers (pos 1)
              then sorted apply_list (apply_serially resolved apply_list st)
              else sorted apply_list (apply_scheduled resolved schedule st)
        ]

  -- What Import returns for a report.
  conclude : ApplyReport → Result (Unit {0})
  conclude report = elim (report.total) [
    | ℕ.zero ↦ ok tt
    | ℕ.suc _ ↦ elim (successful report.results) [
      | ℕ.zero ↦ err (first_non_ok_error report.results)
      | ℕ.suc _ ↦ ok tt
    ]
  ]

  nil_or : Option Error → Result (Unit {0})
  nil_or none = ok tt
  nil_or (some e) = err e

  finished : Map PreflightResult → List ApplyImageResult × State Dest → Imported Dest
  unfolding conclude
  finished skipped (results, st) =
      let report : ApplyReport = record {
        total = length bundle.sidecar.images;
        results = results ++ preflight_skips bundle.sidecar.images skipped;
      } in
      record { result = conclude report; report = some report; state = st }

  -- Import past the preflight, with a new spool.
  apply_all :
      List ResolvedBaseline → List PreflightResult → List String → State Dest → Imported Dest
  unfolding finished
  apply_all resolved results schedule st =
      let (apply_list, skipped) = split_preflight_results results in
      let dir = join opts.workdir "baselines" in
      elim (site.mkdir_error dir) [
        | some e ↦ record {
          result = err (wrap "create baselines spool dir" e);
          report = none;
          state = st;
        }
        | none ↦ finished skipped (
            import_each_image (index_by_name resolved []) apply_list schedule
              (record st { spool = record { dir = dir; entries = [] } }))
      ]

  preflight_row : PreflightResult → ApplyImageResult
  preflight_row r =
      if is_preflight_ok r.status
      then record { image_name = r.image_name; status = apply_ok; error = none }
      else preflight_skipped_result r

  -- abortWithPreflightSummary
  abort_with_preflight_summary : List PreflightResult → State Dest → Imported Dest
  unfolding nil_or preflight_row
  abort_with_preflight_summary results st = record {
    result = nil_or (first_preflight_error results);
    report = some (record { total = length results; results = map preflight_row results });
    state = st;
  }

  after_preflight : List ResolvedBaseline → List String → State Dest → Preflight → Imported Dest
  unfolding abort_with_preflight_summary apply_all
  after_preflight resolved schedule st p = elim (p.fatal) [
    | some e ↦ record { result = err e; report = none; state = st }
    | none ↦
        if opts.strict && p.any_fail
        then abort_with_preflight_summary p.results st
        else apply_all resolved p.results schedule st
  ]

  -- Import past resolveBaselines, with an order for the tasks of the pool.
  unfoldable pub import_resolved : List ResolvedBaseline → List String → State Dest → Imported Dest
  unfolding after_preflight
  import_resolved resolved schedule st =
      after_preflight resolved schedule st
        (run_preflight site.manifests site.dig opts.context bundle resolved st.disk)
