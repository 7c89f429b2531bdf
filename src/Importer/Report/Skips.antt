-- ===== src/Importer/Report/Skips.antt =====
-- The rows of the applied and of the skipped images.
use mathlib.Core.List.{Perm, perm_middle}
use mathlib.Core.List.Perm
use diffah.Base.{
  String, Bool, true, false, Option, none, some, List, [], ◌∷◌, ◌++◌, ◌≡◌, ◌≢◌, refl, sym, ap,
  subst, ◌∙◌, arith, IsDistinct, Bool-cases, inl, inr, eq_iff, In, All, All_of_In, All-In,
  if◌then◌else◌,
}
use diffah.Base.Map.{Map, lookup, insert, lookup-insert}
use diffah.Diff.Types.{ImageEntry}
use diffah.Importer.Preflight.{PreflightResult}
use diffah.Importer.Preflight.Summary.{image_names, result_names}
use diffah.Importer.Report.{
  is_preflight_ok, skip_all, apply_list, preflight_skips, preflight_skipped_result,
  split_preflight_results,
}
use diffah.Importer.Report.Order.{row_names}

-- The names of the results that are not OK.
abbrev rejected : List PreflightResult → List String
rejected [] = []
rejected (r ∷ results) =
    let rest = rejected results in if is_preflight_ok r.status then rest else r.image_name ∷ rest

lookup-skip_all :
    (n : String) (results : List PreflightResult) (m : Map PreflightResult)
    → (¬ In n (result_names results))
    → lookup n (skip_all results m) ≡ lookup n m
unfolding skip_all
lookup-skip_all n [] m h = refl
lookup-skip_all n (r ∷ results) m h = elim (Bool-cases (is_preflight_ok r.status)) [
  | inl fine ↦ rw fine (lookup-skip_all n results m (λ k. h (inr k)))
  | inr bad ↦ rw bad (
      lookup-skip_all n results (insert r.image_name r m) (λ k. h (inr k))
      ∙ ground (arith, lookup-insert r.image_name n r m, eq_iff r.image_name n, h))
]

skip_all-ok :
    (r : PreflightResult) (results : List PreflightResult) (m : Map PreflightResult)
    → is_preflight_ok r.status ≡ true
    → skip_all (r ∷ results) m ≡ skip_all results m
unfolding skip_all
skip_all-ok r results m fine =
    ap (skip_all results) (ap (λ (b : Bool). if b then m else insert r.image_name r m) fine)

skip_all-rejected :
    (r : PreflightResult) (results : List PreflightResult) (m : Map PreflightResult)
    → is_preflight_ok r.status ≡ false
    → skip_all (r ∷ results) m ≡ skip_all results (insert r.image_name r m)
unfolding skip_all
skip_all-rejected r results m bad =
    ap (skip_all results) (ap (λ (b : Bool). if b then m else insert r.image_name r m) bad)

rejected-names :
    (images : List ImageEntry) (results : List PreflightResult) (m : Map PreflightResult)
    → result_names results ≡ image_names images
    → IsDistinct (image_names images)
    → All (λ n. lookup n m ≡ none) (image_names images)
    → row_names (preflight_skips images (skip_all results m)) ≡ rejected results
unfolding preflight_skips preflight_skipped_result
rejected-names [] [] m names distinct empty = refl
rejected-names [] (r ∷ results) m names distinct empty = absurd (ground arith)
rejected-names (img ∷ images) [] m names distinct empty = absurd (ground arith)
rejected-names (img ∷ images) (r ∷ results) m names distinct empty =
    elim (Bool-cases (is_preflight_ok r.status)) [
      | inl fine ↦
          let absent = lookup-skip_all img.name results m other ∙ empty.0 in
          ap rows_of (skip_all-ok r results m fine)
          ∙ rw (preflight_skips, absent, fine)
              (rejected-names images results m tails distinct.1 empty.1)
      | inr bad ↦
          let there = lookup-skip_all img.name results (insert r.image_name r m) other ∙ at_head in
          ap rows_of (skip_all-rejected r results m bad)
          ∙ rw (preflight_skips, there, bad)
              (ap (◌∷◌ r.image_name) (
                rejected-names images results (insert r.image_name r m) tails distinct.1
                  still_empty))
    ]
  where
    rows_of : Map PreflightResult → List String
    rows_of skipped = row_names (preflight_skips (img ∷ images) skipped)

    tails : result_names results ≡ image_names images
    tails = ground arith

    heads : r.image_name ≡ img.name
    heads = ground arith

    other : ¬ In img.name (result_names results)
    other = subst (λ ns. ¬ In img.name ns) (sym tails) distinct.0

    at_head : lookup img.name (insert r.image_name r m) ≡ some r
    at_head =
        ground (arith, lookup-insert r.image_name img.name r m, eq_iff r.image_name img.name, heads)

    apart : (n : String) → In n (image_names images) → r.image_name ≢ n
    apart n k e = distinct.0 (subst (λ a. In a (image_names images)) (sym e ∙ heads) k)

    still_empty : All (λ n. lookup n (insert r.image_name r m) ≡ none) (image_names images)
    still_empty = All_of_In _ (image_names images) (λ n k. ground (
      arith,
      lookup-insert r.image_name n r m,
      eq_iff r.image_name n,
      apart n k,
      All-In (λ a. lookup a m ≡ none) n (image_names images) empty.1 k,
    ))

apply_list-Perm :
    (results : List PreflightResult)
    → Perm (apply_list results ++ rejected results) (result_names results)
unfolding apply_list
apply_list-Perm [] = Perm.refl []
apply_list-Perm (r ∷ results) = elim (Bool-cases (is_preflight_ok r.status)) [
  | inl fine ↦ rw fine (Perm.cons r.image_name (apply_list-Perm results))
  | inr bad ↦ rw bad (
      Perm.trans (perm_middle (apply_list results) (rejected results))
        (Perm.cons r.image_name (apply_list-Perm results)))
]

In-apply_list :
    (n : String) (results : List PreflightResult)
    → In n (apply_list results)
    → In n (result_names results)
unfolding apply_list
In-apply_list n [] h = h
In-apply_list n (r ∷ results) h = ground (arith, In-apply_list n results)

apply_list-IsDistinct :
    (results : List PreflightResult)
    → IsDistinct (result_names results)
    → IsDistinct (apply_list results)
unfolding apply_list
apply_list-IsDistinct [] h = tt
apply_list-IsDistinct (r ∷ results) h = elim (Bool-cases (is_preflight_ok r.status)) [
  | inl fine ↦
      rw fine ((λ k. h.0 (In-apply_list r.image_name results k)), apply_list-IsDistinct results h.1)
  | inr bad ↦ rw bad (apply_list-IsDistinct results h.1)
]

no_rejects :
    (names : List String) → All (λ n. ◌≡◌ {A = Option PreflightResult} (lookup n []) none) names
no_rejects [] = tt
no_rejects (n ∷ names) = (refl, no_rejects names)

-- If the results name the images, which have different names, then the apply list and the rows of the
-- skipped images name each image once.
pub split-Perm :
    (images : List ImageEntry) (results : List PreflightResult)
    → result_names results ≡ image_names images
    → IsDistinct (image_names images)
    → IsDistinct (split_preflight_results results).0
      × Perm
          ((split_preflight_results results).0
            ++ row_names (preflight_skips images (split_preflight_results results).1))
          (image_names images)
unfolding split_preflight_results
split-Perm images results names distinct = (
  apply_list-IsDistinct results (subst IsDistinct (sym names) distinct),
  subst (λ ns. Perm (apply_list results ++ ns) (image_names images))
      (sym (rejected-names images results [] names distinct (no_rejects (image_names images))))
      (subst (Perm (apply_list results ++ rejected results)) names (apply_list-Perm results)),
)
