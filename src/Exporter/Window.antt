-- ===== src/Exporter/Window.antt =====
-- ResolveWindowLog (pkg/exporter/intralayer.go), EstimateRSSForWindowLog (admission.go) and
-- checkSingleLayerFitsInBudget (exporter.go).
pub mod Bounds
use diffah.Base.{ℕ, ◌*◌, ◌^◌, String, Bool, not, List, [], ◌∷◌, if◌then◌else◌}
use diffah.Base.Int.{ℤ, pos, eqb_ℤ, leb_ℤ, ltb_ℤ}
use diffah.Diff.Types.{BlobRef}
use diffah.Diff.Errors.{Result, ok, err, user_error, user}
use diffah.Exporter.Types.{PairPlan}

unfoldable pub resolve_window_log : ℤ → ℤ → ℤ
resolve_window_log user_window_log layer_size =
    if not (eqb_ℤ user_window_log (pos 0))
    then user_window_log
    else if leb_ℤ layer_size (pos (128 * 2 ^ 20))
    then pos 27
    else if leb_ℤ layer_size (pos (2 ^ 30))
    then pos 30
    else pos 31

-- The table rssEstimateByWindowLog, with its largest entry for any other window.
unfoldable pub estimate_rss_for_window_log : ℤ → ℤ
estimate_rss_for_window_log wl =
    if eqb_ℤ wl (pos 27)
    then pos (256 * 2 ^ 20)
    else if eqb_ℤ wl (pos 28)
    then pos (512 * 2 ^ 20)
    else if eqb_ℤ wl (pos 29)
    then pos (2 ^ 30)
    else if eqb_ℤ wl (pos 30)
    then pos (2 * 2 ^ 30)
    else pos (4 * 2 ^ 30)

abbrev pub layer_estimate : ℤ → BlobRef → ℤ
layer_estimate window_log s = estimate_rss_for_window_log (resolve_window_log window_log s.size)

-- The inner loop of checkSingleLayerFitsInBudget: the largest estimate so far and its layer.
max_layer : ℤ → List BlobRef → ℤ × String → ℤ × String
max_layer window_log [] acc = acc
max_layer window_log (s ∷ shipped) (max_est, offending) =
    let e = layer_estimate window_log s in
    max_layer window_log shipped (if ltb_ℤ max_est e then (e, s.digest) else (max_est, offending))

max_plan : ℤ → List PairPlan → ℤ × String → ℤ × String
unfolding max_layer
max_plan window_log [] acc = acc
max_plan window_log (plan ∷ plans) acc =
    max_plan window_log plans (max_layer window_log plan.shipped acc)

unfoldable pub check_single_layer_fits_in_budget : List PairPlan → ℤ → ℤ → Result (Unit {0})
unfolding max_plan
check_single_layer_fits_in_budget plans window_log mem_budget =
    let (max_est, offending) = max_plan window_log plans (pos 0, "") in
    if ltb_ℤ mem_budget max_est
    then err (user_error user offending "increase --memory-budget or reduce --zstd-window-log")
    else ok tt
