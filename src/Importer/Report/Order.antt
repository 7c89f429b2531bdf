-- ===== src/Importer/Report/Order.antt =====
-- The order of the rows of a report.
use mathlib.Core.List.{Perm}
use mathlib.Core.List.Perm
use mathlib.Core.HLevel.{prop→set}
use text.Mathlib.TextEquality.{IsScalar-prop}
use diffah.Base.{
  ℕ, suc, ◌≤◌, String, Bool, false, none, some, List, [], ◌∷◌, map, ◌≡◌, refl, subst, ltb, arith,
  All, All_of_In, In, IsDistinct, eq_iff, eq_refl, inl, inr, length,
}
use diffah.Base.Map.{Map, lookup, insert, lookup-insert}
use diffah.Base.Sort.{IsSorted, IsStrictOrder, sort-perm, sort-IsSorted}
use diffah.Base.Sort.Unique.{IsIncreasing, sorted-eq}
use diffah.Importer.Manifest.{In-either}
use diffah.Importer.Report.{
  ApplyImageResult, rank_from, rank_of, ranked_before, sort_results_by_apply_list,
}

rank_from_fresh :
    (n : String) (i : ℕ) (names : List String) (m : Map ℕ)
    → (¬ In n names)
    → lookup n (rank_from i names m) ≡ lookup n m
unfolding rank_from
rank_from_fresh n i [] m h = refl
rank_from_fresh n i (x ∷ names) m h = ground (
  arith,
  rank_from_fresh n (suc i) names (insert x i m) (λ k. h (inr k)),
  lookup-insert x n i m,
  eq_iff x n,
)

rank_from_first :
    (n : String) (i : ℕ) (names : List String) (m : Map ℕ)
    → (¬ In n names)
    → lookup n (rank_from (suc i) names (insert n i m)) ≡ some i
rank_from_first n i names m h =
    ground
      (arith, rank_from_fresh n (suc i) names (insert n i m) h, lookup-insert n n i m, eq_refl n)

rank_from_at :
    (n : String) (i : ℕ) (names : List String) (m : Map ℕ)
    → In n names
    → (k : ℕ) × (lookup n (rank_from i names m) ≡ some k) × (i ≤ k)
unfolding rank_from
rank_from_at n i [] m h = absurd h
rank_from_at n i (x ∷ names) m h = elim (In-either n names) [
  | inl later ↦
      let (k, found, above) = rank_from_at n (suc i) names (insert x i m) later in
      (k, found, omega arith)
  | inr last ↦ (i, first (ground arith) last, omega arith)
]
  where
    first : n ≡ x → (¬ In n names) → lookup n (rank_from (suc i) names (insert x i m)) ≡ some i
    first e last =
        subst (λ a. lookup n (rank_from (suc i) names (insert a i m)) ≡ some i) e
          (rank_from_first n i names m last)

abbrev rank_in : Map ℕ → ℕ → String → ℕ
rank_in m top n = elim (lookup n m) [ some i ↦ i | none ↦ top ]

rank_in-eq : (m : Map ℕ) (top : ℕ) (n : String) (k : ℕ) → lookup n m ≡ some k → rank_in m top n ≡ k
rank_in-eq m top n k h = rw (rank_in, h) refl

ranks-IsIncreasing :
    (i top : ℕ) (names : List String) (m : Map ℕ)
    → IsDistinct names
    → IsIncreasing
        (λ (a b : String).
          ltb (rank_in (rank_from i names m) top a) (rank_in (rank_from i names m) top b))
        names
unfolding rank_from
ranks-IsIncreasing i top [] m h = tt
ranks-IsIncreasing i top (x ∷ names) m h = (
  All_of_In _ names (λ y later.
      let (k, found, above) = rank_from_at y (suc i) names (insert x i m) later in
      let here = rank_in-eq _ top x i (rank_from_first x i names m h.0) in
      let there = rank_in-eq _ top y k found in ground (arith, here, there)),
  ranks-IsIncreasing (suc i) top names (insert x i m) h.1,
)

IsSorted-map :
    {A : Type 0} (f : A → String) (below : String → String → Bool) (xs : List A)
    → IsSorted (λ a b. below (f a) (f b)) xs
    → IsSorted below (map f xs)
IsSorted-map f below [] h = tt
IsSorted-map f below (x ∷ xs) h = (All-map xs h.0, IsSorted-map f below xs h.1)
  where
    All-map :
        (ys : List _)
        → All (λ y. below (f y) (f x) ≡ false) ys
        → All (λ n. below n (f x) ≡ false) (map f ys)
    All-map [] k = tt
    All-map (y ∷ ys) k = (k.0, All-map ys k.1)

ranked_before-IsStrictOrder : (names : List String) → IsStrictOrder (ranked_before names)
unfolding ranked_before
ranked_before-IsStrictOrder names = record {
  asym = λ a b h. ground arith;
  negtrans = λ a b c h k. ground arith;
}

abbrev pub row_names : List ApplyImageResult → List String
row_names = map (λ (r : ApplyImageResult). r.image_name)

String_set : IsSet String
String_set = hlevel (λ (x : ℕ). prop→set (IsScalar-prop x))

-- However the tasks finish, so long as each name of the apply list is recorded once, the rows end up in
-- the order of the apply list, and they are the recorded ones.
pub sort_results_by_apply_list-in_order :
    (names : List String) (results : List ApplyImageResult)
    → IsDistinct names
    → Perm (row_names results) names
    → (row_names (sort_results_by_apply_list names results) ≡ names)
      × Perm (sort_results_by_apply_list names results) results
unfolding sort_results_by_apply_list ranked_before rank_of
sort_results_by_apply_list-in_order names results distinct each_once =
    let kept = sort-perm (ranked_before names) results in
    (
      sorted-eq String_set (λ a b. ltb (rank_of names a) (rank_of names b)) _ names
          (Perm.trans (Perm.map _ kept) each_once)
          (IsSorted-map (λ (r : ApplyImageResult). r.image_name)
            (λ a b. ltb (rank_of names a) (rank_of names b)) _
            (sort-IsSorted (ranked_before names) (ranked_before-IsStrictOrder names) results))
          (ranks-IsIncreasing 0 (length names) names [] distinct),
      kept,
    )
