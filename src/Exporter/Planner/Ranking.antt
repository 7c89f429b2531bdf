-- ===== src/Exporter/Planner/Ranking.antt =====
-- PickTopK returns the best k baseline layers.
use Prim.Native.Nat.{min}
use mathlib.Core.List.{Perm}
use diffah.Base.{
  ℕ, ◌+◌, All-weaken, subst, [], ◌∷◌, String, Bool, true, false, not, List, ◌++◌, ◌≡◌, ◌↔◌, ◌⊎◌,
  inl, inr, All, arith, length, take, drop, take-append-drop, Bool-cases, refl, length-take,
  text_ltb, text_ltb_asym, text_ltb_negtrans, if◌then◌else◌,
}
use diffah.Base.Int.{ℤ, pos, negsuc, neg_part, ◌-ℤ◌, pos_part, ltb_ℤ, leb_ℤ, eqb_ℤ, ◌<ℤ◌, ◌≤ℤ◌}
use diffah.Base.Map.{Map}
use diffah.Base.Sort.{
  sort, sort-perm, sort-IsSorted, IsStrictOrder, IsSorted, take_first, length-sort, IsSorted-take,
}
use diffah.Exporter.Types.{BaselineLayerMeta}
use diffah.Exporter.Fingerprint.{Fingerprint, score}
use diffah.Exporter.Planner.{Planner, better, rank_score, abs_delta, fingerprint_at, pick_top_k}

-- Three keys in turn: `s` descending, `d` ascending, and the text ascending.
abbrev lex : ℤ → ℤ → ℤ → ℤ → String → String → Bool
lex sa sb da db ta tb =
    if not (eqb_ℤ sa sb)
    then ltb_ℤ sb sa
    else if not (eqb_ℤ da db)
    then ltb_ℤ da db
    else text_ltb ta tb

lex_asym :
    (sa sb da db : ℤ) (ta tb : String)
    → lex sa sb da db ta tb ≡ true
    → lex sb sa db da tb ta ≡ false
lex_asym sa sb da db ta tb h = ground (arith, text_ltb_asym ta tb)

-- The second does not come before the first, in terms of the keys.
abbrev NotBefore : ℤ → ℤ → ℤ → ℤ → String → String → Type 0
NotBefore sa sb da db ta tb =
    (sb <ℤ sa)
    ⊎ ((sa ≤ℤ sb)
        × (sb ≤ℤ sa)
        × ((da <ℤ db) ⊎ ((da ≤ℤ db) × (db ≤ℤ da) × (text_ltb tb ta ≡ false))))

lex_iff :
    (sa sb da db : ℤ) (ta tb : String)
    → (lex sb sa db da tb ta ≡ false) ↔ NotBefore sa sb da db ta tb
lex_iff sa sb da db ta tb = ground arith

NotBefore-trans :
    (sa sb sc da db dc : ℤ) (ta tb tc : String)
    → NotBefore sa sb da db ta tb
    → NotBefore sb sc db dc tb tc
    → NotBefore sa sc da dc ta tc
NotBefore-trans sa sb sc da db dc ta tb tc (inl h) (inl k) = inl (omega arith)
NotBefore-trans sa sb sc da db dc ta tb tc (inl h) (inr k) = inl (omega arith)
NotBefore-trans sa sb sc da db dc ta tb tc (inr h) (inl k) = inl (omega arith)
NotBefore-trans sa sb sc da db dc ta tb tc (inr (h, h', inl d)) (inr (k, k', inl e)) =
    inr (omega arith, omega arith, inl (omega arith))
NotBefore-trans sa sb sc da db dc ta tb tc (inr (h, h', inl d)) (inr (k, k', inr (e, e', t))) =
    inr (omega arith, omega arith, inl (omega arith))
NotBefore-trans sa sb sc da db dc ta tb tc (inr (h, h', inr (d, d', s))) (inr (k, k', inl e)) =
    inr (omega arith, omega arith, inl (omega arith))
NotBefore-trans sa sb sc da db dc ta tb tc (inr (h, h', inr (d, d', s)))
      (inr (k, k', inr (e, e', t))) =
    inr (omega arith, omega arith, inr (omega arith, omega arith, text_ltb_negtrans ta tb tc s t))

lex_negtrans :
    (sa sb sc da db dc : ℤ) (ta tb tc : String)
    → lex sb sa db da tb ta ≡ false
    → lex sc sb dc db tc tb ≡ false
    → lex sc sa dc da tc ta ≡ false
lex_negtrans sa sb sc da db dc ta tb tc h k = (lex_iff sa sc da dc ta tc).1 (
    NotBefore-trans sa sb sc da db dc ta tb tc ((lex_iff sa sb da db ta tb).0 h)
      ((lex_iff sb sc db dc tb tc).0 k))

module _ (fps : Map Fingerprint) (target_fp : Fingerprint) (target_size : ℤ) where
  better-IsStrictOrder : IsStrictOrder (better fps target_fp target_size)
  unfolding better
  better-IsStrictOrder = record {
    asym = λ a b.
        lex_asym (rank_score fps target_fp a) (rank_score fps target_fp b)
          (abs_delta a.size target_size) (abs_delta b.size target_size) a.digest b.digest;
    negtrans = λ a b c.
        lex_negtrans (rank_score fps target_fp a) (rank_score fps target_fp b)
          (rank_score fps target_fp c) (abs_delta a.size target_size) (abs_delta b.size target_size)
          (abs_delta c.size target_size) a.digest b.digest c.digest;
  }

-- How far apart two sizes are.
abbrev pub distance : ℤ → ℤ → ℤ
distance a b = pos (pos_part (a -ℤ b) + neg_part (a -ℤ b))

abs_delta-distance : (a b : ℤ) → abs_delta a b ≡ distance a b
unfolding abs_delta ◌-ℤ◌
abs_delta-distance (pos a) (pos b) = ground arith
abs_delta-distance (pos a) (negsuc b) = ground arith
abs_delta-distance (negsuc a) (pos b) = ground arith
abs_delta-distance (negsuc a) (negsuc b) = ground arith

-- `b` is not better than `a`: its fingerprint has a lower score against the target's, or the same
-- score and a size that is further from the target's, or that too is the same and its digest does not
-- come first.
abbrev pub RanksBelow : Planner → Fingerprint → ℤ → BaselineLayerMeta → BaselineLayerMeta → Type 0
RanksBelow p target_fp target_size a b =
    NotBefore (score target_fp (fingerprint_at p.fingerprints a.digest))
      (score target_fp (fingerprint_at p.fingerprints b.digest)) (distance a.size target_size)
      (distance b.size target_size) a.digest b.digest

module _ (p : Planner) (target_fp : Fingerprint) (target_size : ℤ) where
  better-RanksBelow :
      (a b : BaselineLayerMeta)
      → better p.fingerprints target_fp target_size b a ≡ false
      → RanksBelow p target_fp target_size a b
  unfolding better
  better-RanksBelow a b h =
      let keys = λ (da db : ℤ).
        NotBefore (rank_score p.fingerprints target_fp a) (rank_score p.fingerprints target_fp b) da
          db a.digest b.digest in
      subst (λ da. keys da (distance b.size target_size)) (abs_delta-distance a.size target_size)
        (subst (keys (abs_delta a.size target_size)) (abs_delta-distance b.size target_size) (
          (lex_iff (rank_score p.fingerprints target_fp a) (rank_score p.fingerprints target_fp b)
              (abs_delta a.size target_size) (abs_delta b.size target_size) a.digest b.digest).0
            h))

  -- Each layer ranks above all that come after it.
  abbrev pub IsRanked : List BaselineLayerMeta → Type 0
  IsRanked [] = Unit
  IsRanked (x ∷ xs) = All (RanksBelow p target_fp target_size x) xs × IsRanked xs

  IsSorted-IsRanked :
      (xs : List BaselineLayerMeta)
      → IsSorted (better p.fingerprints target_fp target_size) xs
      → IsRanked xs
  IsSorted-IsRanked [] h = tt
  IsSorted-IsRanked (x ∷ xs) h =
      (All-weaken _ _ xs (better-RanksBelow x) h.0, IsSorted-IsRanked xs h.1)

-- `picked` are the best layers of `baseline`, in their order, and `rest` the others.
pub record IsTopK (p : Planner) (target_fp : Fingerprint) (target_size k : ℤ)
    (picked : List BaselineLayerMeta) : Type 0 where
  pub rest : List BaselineLayerMeta
  pub complete : Perm (picked ++ rest) p.baseline
  pub count : length picked ≡ min (pos_part k) (length p.baseline)
  pub ordered : IsRanked p target_fp target_size picked
  pub first : All (λ x. All (RanksBelow p target_fp target_size x) rest) picked

module _ (p : Planner) (target_fp : Fingerprint) (target_size k : ℤ) where
  abbrev order : BaselineLayerMeta → BaselineLayerMeta → Bool
  order = better p.fingerprints target_fp target_size

  take_best :
      (n : ℕ)
      → n ≡ min (pos_part k) (length (sort order p.baseline))
      → IsTopK p target_fp target_size k (take n (sort order p.baseline))
  take_best n e =
      let sorted =
        sort-IsSorted order (better-IsStrictOrder p.fingerprints target_fp target_size)
          p.baseline in
      record {
        rest = drop n (sort order p.baseline);
        complete = rw (take-append-drop n (sort order p.baseline)) (sort-perm order p.baseline);
        count =
            omega (arith, e, length-take n (sort order p.baseline), length-sort order p.baseline);
        ordered =
            IsSorted-IsRanked p target_fp target_size _
              (IsSorted-take order n (sort order p.baseline) sorted);
        first =
            All-weaken _ _ (take n (sort order p.baseline))
              (λ x.
                All-weaken _ _ (drop n (sort order p.baseline))
                  (better-RanksBelow p target_fp target_size x))
              (take_first order n (sort order p.baseline) sorted);
      }

  -- PickTopK returns min(k, number of layers) layers of the baseline, in the order of the ranking
  -- (score descending, then the size closest to the target's, then the digest), and no layer that is
  -- left out ranks before one that is returned. None is returned for a k that is not positive.
  pub pick_top_k-IsTopK : IsTopK p target_fp target_size k (pick_top_k p target_fp target_size k)
  unfolding pick_top_k
  pick_top_k-IsTopK = elim (Bool-cases (leb_ℤ k (pos 0))) [
    | inl e ↦ rw e (take_best 0 (ground arith))
    | inr e ↦ rw e (take_best (min (pos_part k) (length (sort order p.baseline))) refl)
  ]
