-- ===== src/Exporter/Window/Bounds.antt =====
-- What the memory estimates promise.
use diffah.Base.{String, List, [], ◌∷◌, ◌≡◌, ◌↔◌, All, arith}
use diffah.Base.Int.{ℤ, pos, ◌≤ℤ◌}
use diffah.Diff.Types.{BlobRef}
use diffah.Diff.Errors.{ok}
use diffah.Exporter.Types.{PairPlan}
use diffah.Exporter.Window.{
  resolve_window_log, estimate_rss_for_window_log, layer_estimate, max_layer, max_plan,
  check_single_layer_fits_in_budget,
}

-- For one window setting, a larger layer is never given a smaller estimate.
pub estimate_mono :
    (w a b : ℤ)
    → a ≤ℤ b
    → (estimate_rss_for_window_log (resolve_window_log w a)
        ≤ℤ estimate_rss_for_window_log (resolve_window_log w b))
unfolding estimate_rss_for_window_log resolve_window_log
estimate_mono w a b h = ground arith

max_layer_iff :
    (w budget : ℤ) (shipped : List BlobRef) (acc : ℤ × String)
    → ((max_layer w shipped acc).0 ≤ℤ budget)
      ↔ ((acc.0 ≤ℤ budget) × All (λ s. layer_estimate w s ≤ℤ budget) shipped)
unfolding max_layer
max_layer_iff w budget [] acc = ground arith
max_layer_iff w budget (s ∷ shipped) (m, d) = ground (
  arith,
  max_layer_iff w budget shipped (m, d),
  max_layer_iff w budget shipped (layer_estimate w s, s.digest),
)

max_plan_iff :
    (w budget : ℤ) (plans : List PairPlan) (acc : ℤ × String)
    → ((max_plan w plans acc).0 ≤ℤ budget)
      ↔ ((acc.0 ≤ℤ budget) × All (λ p. All (λ s. layer_estimate w s ≤ℤ budget) p.shipped) plans)
unfolding max_plan
max_plan_iff w budget [] acc = ground arith
max_plan_iff w budget (p ∷ plans) acc = ground (
  arith,
  max_layer_iff w budget p.shipped acc,
  max_plan_iff w budget plans (max_layer w p.shipped acc),
)

-- With a budget that is not negative, the check before the export passes exactly if every shipped
-- layer of every pair has an estimate within the budget.
pub check_single_layer_fits_in_budget_iff :
    (plans : List PairPlan) (w budget : ℤ)
    → pos 0 ≤ℤ budget
    → (check_single_layer_fits_in_budget plans w budget ≡ ok tt)
      ↔ All (λ p. All (λ s. layer_estimate w s ≤ℤ budget) p.shipped) plans
unfolding check_single_layer_fits_in_budget
check_single_layer_fits_in_budget_iff plans w budget h =
    ground (arith, max_plan_iff w budget plans (pos 0, ""))
