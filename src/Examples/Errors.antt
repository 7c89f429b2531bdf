-- ===== src/Examples/Errors.antt =====
-- A network error whose text speaks of authorisation.
use diffah.Base.{String, false, Option, none, some, [], ◌∷◌, ◌≡◌, refl, inr}
use diffah.Diff.Errors.{External, message, external}
use diffah.Diff.Classify.{Texts, contains_any, cause_of, hint_of, exit_code, classify, is_some}
use diffah.Diff.Classify.Chain.{IsTyped, wraps, classify-wraps}
use diffah.Diff.Classify.Registry.{
  registry_auth_needles, says, classify_registry_err, exit_code-classify_registry_err,
}

abbrev refused : External
refused = record {
  text = "proxy: denied";
  is_context_error = false;
  url_op = none;
  net_op = some "dial";
  path = none;
  is_not_exist = false;
  is_permission = false;
}

abbrev texts : Texts
texts = record {
  text = λ e. elim e [ external x ↦ x.text | message m ↦ m | _ ↦ "" ];
  lower = λ s. s;
}

refused-IsTyped : IsTyped texts (external refused)
unfolding hint_of cause_of is_some
refused-IsTyped = inr (refused, refl, λ q. clash q)
  where
    clash : {s : String} → ◌≡◌ {A = Option String} (some s) none → ⊥
    clash h = cc

classify-wraps_example :
    classify texts (wraps ("copy to" ∷ "apply" ∷ []) (external refused))
    ≡ classify texts (external refused)
classify-wraps_example =
    classify-wraps texts ("copy to" ∷ "apply" ∷ []) (external refused) refused-IsTyped

exit_code_example :
    exit_code (classify texts (classify_registry_err texts (external refused) "r:1")).0 ≡ 2
unfolding says contains_any registry_auth_needles
exit_code_example = exit_code-classify_registry_err texts (external refused) "r:1"
