-- ===== src/Importer/Report.antt =====
-- The report of an import: pkg/importer/summary.go, and what pkg/importer/importer.go puts into it.
pub mod Order
pub mod Skips
use diffah.Base.{
  ℕ, zero, suc, String, Bool, true, false, Option, none, some, List, [], ◌∷◌, ◌++◌, length, ltb,
  if◌then◌else◌,
}
use diffah.Base.Map.{Map, lookup, insert}
use diffah.Base.Sort.{sort}
use diffah.Diff.Types.{ImageEntry}
use diffah.Diff.Errors.{Error, missing_patch_source, missing_baseline_reuse_layer, message}
use diffah.Importer.Preflight.{
  PreflightStatus, preflight_ok, preflight_error, schema_error, PreflightResult,
}

pub data ApplyImageStatus : Type 0 where
  apply_ok failed_compose failed_invariant skipped_preflight : ApplyImageStatus

pub record ApplyImageResult : Type 0 where
  pub image_name : String
  pub status : ApplyImageStatus
  pub error : Option Error

pub record ApplyReport : Type 0 where
  pub total : ℕ
  pub results : List ApplyImageResult

abbrev pub is_apply_ok : ApplyImageStatus → Bool
is_apply_ok apply_ok = true
is_apply_ok _ = false

abbrev pub failed : String → ApplyImageStatus → Error → ApplyImageResult
failed name status e = record { image_name = name; status = status; error = some e }

-- ApplyReport.Successful
unfoldable pub successful : List ApplyImageResult → ℕ
successful [] = 0
successful (r ∷ results) = let n = successful results in if is_apply_ok r.status then suc n else n

first_or_empty_digest : List String → String
first_or_empty_digest [] = ""
first_or_empty_digest (d ∷ _) = d

-- preflightResultToErr; `none` is the nil error.
unfoldable pub preflight_result_to_err : PreflightResult → Option Error
unfolding first_or_empty_digest
preflight_result_to_err r = elim (r.status) [
  | preflight_ok ↦ none
  | PreflightStatus.missing_patch_source ↦
      some (missing_patch_source r.image_name "" (first_or_empty_digest r.missing_patch_sources))
  | PreflightStatus.missing_reuse_layer ↦
      some
        (missing_baseline_reuse_layer r.image_name (first_or_empty_digest r.missing_reuse_layers))
  | preflight_error ↦ r.error
  | schema_error ↦ r.error
]

-- preflightSkippedResult
unfoldable pub preflight_skipped_result : PreflightResult → ApplyImageResult
preflight_skipped_result r = record {
  image_name = r.image_name;
  status = skipped_preflight;
  error = preflight_result_to_err r;
}

abbrev pub is_preflight_ok : PreflightStatus → Bool
is_preflight_ok preflight_ok = true
is_preflight_ok _ = false

pub skip_all : List PreflightResult → Map PreflightResult → Map PreflightResult
skip_all [] m = m
skip_all (r ∷ results) m =
    skip_all results (if is_preflight_ok r.status then m else insert r.image_name r m)

pub apply_list : List PreflightResult → List String
apply_list [] = []
apply_list (r ∷ results) =
    let rest = apply_list results in if is_preflight_ok r.status then r.image_name ∷ rest else rest

-- splitPreflightResults
unfoldable pub split_preflight_results : List PreflightResult → List String × Map PreflightResult
unfolding skip_all apply_list
split_preflight_results results = (apply_list results, skip_all results [])

-- mergePreflightSkips: the rows that it appends.
unfoldable pub preflight_skips : List ImageEntry → Map PreflightResult → List ApplyImageResult
preflight_skips [] skipped = []
preflight_skips (img ∷ images) skipped =
    let rest = preflight_skips images skipped in
    elim (lookup img.name skipped) [ none ↦ rest | some r ↦ preflight_skipped_result r ∷ rest ]

-- The map `rank` of sortResultsByApplyList: the last place of a name.
rank_from : ℕ → List String → Map ℕ → Map ℕ
rank_from i [] m = m
rank_from i (n ∷ names) m = rank_from (suc i) names (insert n i m)

rank_of : List String → String → ℕ
unfolding rank_from
rank_of names n = elim (lookup n (rank_from 0 names [])) [ some i ↦ i | none ↦ length names ]

ranked_before : List String → ApplyImageResult → ApplyImageResult → Bool
ranked_before names a b = ltb (rank_of names a.image_name) (rank_of names b.image_name)

-- sortResultsByApplyList
unfoldable pub sort_results_by_apply_list :
    List String → List ApplyImageResult → List ApplyImageResult
unfolding ranked_before rank_of
sort_results_by_apply_list names = sort (ranked_before names)

-- firstNonOKError
unfoldable pub first_non_ok_error : List ApplyImageResult → Error
first_non_ok_error [] = message "no image succeeded"
first_non_ok_error (r ∷ results) =
    let rest = first_non_ok_error results in
    if is_apply_ok r.status then rest else elim (r.error) [ some e ↦ e | none ↦ rest ]

-- The error of abortWithPreflightSummary, whose summary goes to the terminal; `none` is the nil error.
unfoldable pub first_preflight_error : List PreflightResult → Option Error
first_preflight_error [] = some (message "preflight rejected images (--strict)")
first_preflight_error (r ∷ results) =
    let rest = first_preflight_error results in
    if is_preflight_ok r.status then rest else preflight_result_to_err r
