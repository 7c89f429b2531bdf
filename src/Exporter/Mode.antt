-- ===== src/Exporter/Mode.antt =====
-- resolveMode (pkg/exporter/resolvemode.go). The probe is the result of asking for the zstd binary.
use diffah.Base.{String, Bool, true, ◌≡◌, ◌≢◌, ◌↔◌, ◌⊎◌, arith, eq_iff, if◌then◌else◌, ◌==◌}
use diffah.Diff.Errors.{Result, ok, err, message, wrap, zstd_binary_missing}

abbrev pub mode_auto : String
mode_auto = "auto"

abbrev pub mode_off : String
mode_off = "off"

abbrev pub mode_required : String
mode_required = "required"

-- The `switch`, after the default has been put in.
unfoldable pub by_mode : String → Bool × String → Result String
by_mode mode (available, reason) =
    if mode == mode_auto
    then (if available then ok mode_auto else ok mode_off)
    else if mode == mode_off
    then ok mode_off
    else if mode == mode_required
    then (if available then ok mode_auto else err (wrap reason zstd_binary_missing))
    else err (message "--intra-layer not recognized; valid values: auto, off, required")

unfoldable pub resolve_mode : String → Bool × String → Result String
resolve_mode user_mode probe = by_mode (if user_mode == "" then mode_auto else user_mode) probe

auto_ne_off : ◌≢◌ {A = String} mode_auto mode_off
auto_ne_off = ground (arith, eq_iff mode_auto mode_off)

auto_ne_required : ◌≢◌ {A = String} mode_auto mode_required
auto_ne_required = ground (arith, eq_iff mode_auto mode_required)

off_ne_required : ◌≢◌ {A = String} mode_off mode_required
off_ne_required = ground (arith, eq_iff mode_off mode_required)

by_mode_iff :
    (mode : String) (available : Bool) (reason : String)
    → (by_mode mode (available, reason) ≡ ok mode_auto)
      ↔ ((available ≡ true) × ((mode ≡ mode_auto) ⊎ (mode ≡ mode_required)))
unfolding by_mode
by_mode_iff m available reason = ground (
  arith,
  auto_ne_off,
  auto_ne_required,
  off_ne_required,
  eq_iff m mode_auto,
  eq_iff m mode_off,
  eq_iff m mode_required,
)

-- Patches are enabled exactly if zstd is available and the mode is "auto", "required" or not given.
pub resolve_mode-auto_iff :
    (user_mode : String) (available : Bool) (reason : String)
    → (resolve_mode user_mode (available, reason) ≡ ok mode_auto) ↔ (
        (available ≡ true)
        × ((user_mode ≡ "") ⊎ (user_mode ≡ mode_auto) ⊎ (user_mode ≡ mode_required)))
unfolding resolve_mode
resolve_mode-auto_iff m available reason = ground (
  arith,
  eq_iff m "",
  eq_iff mode_required "",
  eq_iff mode_auto "",
  by_mode_iff mode_auto available reason,
  by_mode_iff m available reason,
)
