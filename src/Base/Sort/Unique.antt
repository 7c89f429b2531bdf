-- ===== src/Base/Sort/Unique.antt =====
-- A list that is strictly increasing is the only sorted arrangement of its items.
use mathlib.Core.Path.{◌≡◌, sym, ap, subst}
use mathlib.Core.Bool.{Bool, true, false}
use mathlib.Core.Logic.Or
use mathlib.Core.List.{List, [], ◌∷◌, Perm, Mem, mem-cons, not-mem-nil, mem-cons_self}
use mathlib.Core.List.Perm
use diffah.Base.Lists.{All}
use diffah.Base.Sort.{IsSorted}

Bool_set : IsSet Bool
Bool_set = hlevel

module _ {A : Type 0} (less : A → A → Bool) where
  abbrev pub IsIncreasing : List A → Type 0
  IsIncreasing [] = Unit
  IsIncreasing (x ∷ xs) = All (λ y. less x y ≡ true) xs × IsIncreasing xs

module _ {A : Type 0} (is_set : IsSet A) (less : A → A → Bool) where
  All-Mem :
      (f : A → Bool) (b : Bool) (a : A) (xs : List A) → All (λ y. f y ≡ b) xs → Mem a xs → f a ≡ b
  All-Mem f b a [] h m = absurd (not-mem-nil m)
  All-Mem f b a (x ∷ xs) h m =
      Or.elim (Bool_set _ _) (mem-cons.0 m) (λ e. rw e h.0) (λ k. All-Mem f b a xs h.1 k)

  head_eq :
      (x y : A) (xs ys : List A)
      → All (λ z. less z x ≡ false) xs
      → All (λ z. less y z ≡ true) ys
      → Mem x (y ∷ ys)
      → Mem y (x ∷ xs)
      → x ≡ y
  head_eq x y xs ys hx hy mx my =
      Or.elim (is_set x y) (mem-cons.0 mx) (λ e. e)
        (λ later.
          Or.elim (is_set x y) (mem-cons.0 my) (λ e. sym e)
            (λ behind. absurd (
              clash (All-Mem (less y) true x ys hy later)
                (All-Mem (λ z. less z x) false y xs hx behind))))
    where
      clash : less y x ≡ true → less y x ≡ false → ⊥
      clash p q = cc

  pub sorted-eq : (xs ys : List A) → Perm xs ys → IsSorted less xs → IsIncreasing less ys → xs ≡ ys
  sorted-eq [] ys p hx hy = sym (Perm.eq-nil (Perm.symm p))
  sorted-eq (x ∷ xs) [] p hx hy = Perm.eq-nil p
  sorted-eq (x ∷ xs) (y ∷ ys) p hx hy =
      let e =
        head_eq x y xs ys hx.0 hy.0 ((Perm.mem_iff p).0 mem-cons_self)
          ((Perm.mem_iff p).1 mem-cons_self) in
      let p' : Perm (y ∷ xs) (y ∷ ys) = subst (λ a. Perm (a ∷ xs) (y ∷ ys)) e p in
      rw e (ap (◌∷◌ y) (sorted-eq xs ys (Perm.cons_inv p') hx.1 hy.1))
