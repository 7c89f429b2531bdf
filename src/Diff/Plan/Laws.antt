-- ===== src/Diff/Plan/Laws.antt =====
-- ComputePlan is an order-preserving partition of the target by the baseline.
use mathlib.Core.List.{Perm, Sublistᴰ, perm_middle}
use mathlib.Core.List.Perm
use diffah.Base.{
  String, ◌≡◌, refl, false, inl, inr, List, [], ◌∷◌, ◌++◌, arith, All, In, Bool-cases, contains,
  contains_iff,
}
use diffah.Diff.Types.{BlobRef}
use diffah.Diff.Plan.{Plan, compute_plan}

-- `plan` splits `target` by whether `baseline` has the digest.
pub record IsPartition (target : List BlobRef) (baseline : List String) (plan : Plan) : Type 0 where
  pub complete : Perm (plan.shipped_in_delta ++ plan.required_from_baseline) target
  pub shipped_order : Sublistᴰ plan.shipped_in_delta target
  pub required_order : Sublistᴰ plan.required_from_baseline target
  pub shipped_new : All (λ b. ¬ In b.digest baseline) plan.shipped_in_delta
  pub required_known : All (λ b. In b.digest baseline) plan.required_from_baseline

not-In : (d : String) (ds : List String) → contains d ds ≡ false → ¬ In d ds
not-In d ds h = ground (arith, contains_iff d ds)

-- Shipped and required layers together are the target's layers, each as often as there; both lists
-- keep the target's order; no shipped layer's digest is in the baseline, and each required one is.
pub compute_plan-IsPartition :
    (target : List BlobRef) (baseline : List String)
    → IsPartition target baseline (compute_plan target baseline)
unfolding compute_plan
compute_plan-IsPartition [] baseline = record {
  complete = Perm.refl [];
  shipped_order = Sublistᴰ.slnil;
  required_order = Sublistᴰ.slnil;
  shipped_new = tt;
  required_known = tt;
}
compute_plan-IsPartition (b ∷ target) baseline =
    let ih = compute_plan-IsPartition target baseline in
    elim (Bool-cases (contains b.digest baseline)) [
      | inl e ↦ rw e (record {
        complete =
            Perm.trans
              (perm_middle (compute_plan target baseline).shipped_in_delta
                (compute_plan target baseline).required_from_baseline)
              (Perm.cons b ih.complete);
        shipped_order = Sublistᴰ.cons ih.shipped_order;
        required_order = Sublistᴰ.cons-cons refl ih.required_order;
        shipped_new = ih.shipped_new;
        required_known = ((contains_iff b.digest baseline).0 e, ih.required_known);
      })
      | inr e ↦ rw e (record {
        complete = Perm.cons b ih.complete;
        shipped_order = Sublistᴰ.cons-cons refl ih.shipped_order;
        required_order = Sublistᴰ.cons ih.required_order;
        shipped_new = (not-In b.digest baseline e, ih.shipped_new);
        required_known = ih.required_known;
      })
    ]
