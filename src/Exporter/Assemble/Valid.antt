-- ===== src/Exporter/Assemble/Valid.antt =====
-- Which lists of pairs the exporter accepts.
use diffah.Base.{String, List, [], ◌∷◌, ◌≡◌, ◌≢◌, ◌↔◌, arith, In, contains_iff}
use diffah.Diff.Errors.{ok}
use diffah.Exporter.Types.{Pair}
use diffah.Exporter.Assemble.{names_from, validate_pairs}

-- No name of a pair occurs twice, nor among `seen`.
abbrev pub IsFreshPairs : List String → List Pair → Type 0
IsFreshPairs seen [] = Unit
IsFreshPairs seen (p ∷ pairs) = (¬ In p.name seen) × IsFreshPairs (p.name ∷ seen) pairs

names_from_iff :
    (seen : List String) (pairs : List Pair)
    → (names_from seen pairs ≡ ok tt) ↔ IsFreshPairs seen pairs
unfolding names_from
names_from_iff seen [] = ground arith
names_from_iff seen (p ∷ pairs) =
    ground (arith, contains_iff p.name seen, names_from_iff (p.name ∷ seen) pairs)

-- ValidatePairs accepts exactly the non-empty lists of pairs without a repeated name.
pub validate_pairs_iff :
    (pairs : List Pair) → (validate_pairs pairs ≡ ok tt) ↔ ((pairs ≢ []) × IsFreshPairs [] pairs)
unfolding validate_pairs
validate_pairs_iff [] = ground arith
validate_pairs_iff (p ∷ pairs) = ground (arith, names_from_iff [] (p ∷ pairs))
