-- ===== src/Progress/Cap.antt =====
-- The sum of what a capped callback reports.
use Prim.Native.Nat.{min}
use diffah.Base.{
  ℕ, ◌+◌, ◌-◌, true, Option, none, some, List, [], ◌∷◌, ◌≡◌, refl, ap, ◌∙◌, zero, suc, arith,
}
use diffah.Base.Int.{ℤ, pos, negsuc, pos_part, leb_ℤ, ◌-ℤ◌}
use diffah.Progress.{capped_write, capped_writes}

abbrev pub total_of : List ℕ → ℕ
total_of [] = 0
total_of (n ∷ ns) = n + total_of ns

abbrev pub told : List ℤ → ℕ
told [] = 0
told (m ∷ ms) = pos_part m + told ms

-- A call with `r` bytes left tells the smaller number, and leaves the rest.
capped_write_pos :
    (r n : ℕ) → capped_write (pos (suc r)) (pos n) ≡ (some (pos (min (r + 1) n)), pos (r + 1 - n))
unfolding capped_write ◌-ℤ◌
capped_write_pos r n = ground (arith)

capped_write-none : (r n : ℤ) → leb_ℤ r (pos 0) ≡ true → capped_write r n ≡ (none, r)
unfolding capped_write
capped_write-none r n h = rw (capped_write, h) refl

-- The reports from a call on.
abbrev after : List ℕ → Option ℤ × ℤ → List ℤ
after chunks (m, r) = elim m [ none ↦ capped_writes r chunks | some k ↦ k ∷ capped_writes r chunks ]

none_left : (chunks : List ℕ) (r : ℤ) → leb_ℤ r (pos 0) ≡ true → told (capped_writes r chunks) ≡ 0
unfolding capped_writes
none_left [] r h = refl
none_left (n ∷ chunks) r h =
    ap (λ c. told (after chunks c)) (capped_write-none r (pos n) h) ∙ none_left chunks r h

-- However the bytes are cut into chunks, a callback with cap `total` tells its sink the smaller of the
-- cap and their number in all; a negative cap tells nothing.
pub told-capped_writes :
    (total : ℤ) (chunks : List ℕ)
    → told (capped_writes total chunks) ≡ min (pos_part total) (total_of chunks)
unfolding capped_writes
told-capped_writes total [] = ground arith
told-capped_writes (negsuc k) (n ∷ chunks) =
    none_left (n ∷ chunks) (negsuc k) (ground arith) ∙ omega arith
told-capped_writes (pos zero) (n ∷ chunks) =
    none_left (n ∷ chunks) (pos 0) (ground arith) ∙ omega arith
told-capped_writes (pos (suc r)) (n ∷ chunks) =
    ap (λ c. told (after chunks c)) (capped_write_pos r n)
    ∙ omega (arith, told-capped_writes (pos (r + 1 - n)) chunks)
