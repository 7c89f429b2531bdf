-- ===== src/Diff/Plan.antt =====
-- pkg/diff/plan.go: which target layers are shipped, and which come from the baseline.
pub mod Laws
use diffah.Base.{String, List, [], ◌∷◌, contains, if◌then◌else◌}
use diffah.Diff.Types.{BlobRef}

pub record Plan : Type 0 where
  pub shipped_in_delta : List BlobRef
  pub required_from_baseline : List BlobRef

-- The `for` loop: `known` are the baseline digests, appends keep the order of the target.
unfoldable pub compute_plan : List BlobRef → List String → Plan
compute_plan [] known = record { shipped_in_delta = []; required_from_baseline = [] }
compute_plan (b ∷ target) known =
    let rest = compute_plan target known in
    if contains b.digest known
    then record rest { required_from_baseline = b ∷ rest.required_from_baseline }
    else record rest { shipped_in_delta = b ∷ rest.shipped_in_delta }
