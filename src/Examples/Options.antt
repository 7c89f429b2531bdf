-- ===== src/Examples/Options.antt =====
-- Plans, ranks and budgets.
use diffah.Base.{none, [], ◌∷◌, ◌≡◌, ◌↔◌, arith, All}
use diffah.Base.Int.{pos, ◌≤ℤ◌}
use diffah.Diff.Types.{BlobRef}
use diffah.Diff.Plan.{compute_plan}
use diffah.Diff.Plan.Laws.{IsPartition, compute_plan-IsPartition}
use diffah.Diff.Errors.{ok}
use diffah.Exporter.Types.{PairPlan}
use diffah.Exporter.Planner.{pick_top_k}
use diffah.Exporter.Planner.Ranking.{IsTopK, pick_top_k-IsTopK}
use diffah.Exporter.Window.{layer_estimate, check_single_layer_fits_in_budget}
use diffah.Exporter.Window.Bounds.{check_single_layer_fits_in_budget_iff}
use diffah.Examples.Fixtures.{layer_a, planner_b}

abbrev layer_b : BlobRef
layer_b = record layer_a { digest = "bb" }

abbrev plan : PairPlan
plan = record {
  name = "app";
  baseline_ref = "oci:old";
  target_manifest = [];
  target_media_type = "";
  target_layer_descs = layer_a ∷ layer_b ∷ [];
  target_config_raw = [];
  target_config_desc = layer_b;
  baseline_digests = "bb" ∷ [];
  baseline_manifest = [];
  baseline_media_type = "";
  baseline_layer_meta = [];
  shipped = layer_a ∷ [];
  required = layer_b ∷ [];
}

compute_plan_example :
    IsPartition
      (layer_a ∷ layer_b ∷ [])
      ("bb" ∷ [])
      (compute_plan (layer_a ∷ layer_b ∷ []) ("bb" ∷ []))
compute_plan_example = compute_plan-IsPartition (layer_a ∷ layer_b ∷ []) ("bb" ∷ [])

pick_top_k_example :
    IsTopK planner_b none (pos 100) (pos 3) (pick_top_k planner_b none (pos 100) (pos 3))
pick_top_k_example = pick_top_k-IsTopK planner_b none (pos 100) (pos 3)

check_single_layer_example :
    (check_single_layer_fits_in_budget (plan ∷ []) (pos 27) (pos 1000) ≡ ok tt)
    ↔ All (λ p. All (λ s. layer_estimate (pos 27) s ≤ℤ pos 1000) p.shipped) (plan ∷ [])
check_single_layer_example =
    check_single_layer_fits_in_budget_iff (plan ∷ []) (pos 27) (pos 1000) (omega arith)
