-- ===== src/Archive/Clean/Inside.antt =====
-- What is extracted stays inside the destination.
use Prim.Native.Char.{Char, code}
use Prim.Native.String.{◌++◌}
use Prim.Native.String.append
use diffah.Base.{
  String, Bool, true, false, ◌||◌, List, [], ◌∷◌, ◌≡◌, ◌≢◌, refl, arith, All, ◌⊎◌, inl, inr, eq_iff,
  ◌==◌, if◌then◌else◌, sym, ap, ◌∙◌,
}
use diffah.Diff.Errors.{Error, Result, ok, err}
use diffah.Archive.Clean.{
  go_up, push, push_all, reverse_onto, clean_parts, starts_up, under, safe_join, is_abs, split,
  is_separator, add_char,
}

abbrev pub NoSlash : String → Type 0
NoSlash String.[] = Unit
NoSlash (String.◌∷◌ c s) = (code c ≢ b'/') × NoSlash s

-- A part that names an entry of its directory.
pub record IsPlain (part : String) : Type 0 where
  pub one_name : NoSlash part
  pub not_empty : part ≢ ""
  pub not_here : part ≢ "."
  pub not_up : part ≢ ".."

abbrev AllUp : List String → Type 0
AllUp = All (λ p. p ≡ "..")

-- In reverse: plain parts, and before them only "..".
abbrev IsStack : List String → Type 0
IsStack [] = Unit
IsStack (x ∷ xs) = (IsPlain x × IsStack xs) ⊎ ((x ≡ "..") × AllUp xs)

clash : {b : Bool} → b ≡ true → b ≡ false → ⊥
clash t f = cc

if_intro :
    {A : Type 0} (b : Bool) (P : A → Type 0) {x y : A}
    → (b ≡ true → P x)
    → (b ≡ false → P y)
    → P (if b then x else y)
if_intro true P t e = t refl
if_intro false P t e = e refl

go_up-IsStack : (rooted : Bool) (stack : List String) → IsStack stack → IsStack (go_up rooted stack)
unfolding go_up
go_up-IsStack true [] h = tt
go_up-IsStack false [] h = inr (refl, tt)
go_up-IsStack rooted (top ∷ stack) (inl (plain, rest)) =
    if_intro (top == "..") IsStack (λ up. absurd (plain.not_up ((eq_iff top "..").0 up)))
      (λ _. rest)
go_up-IsStack rooted (top ∷ stack) (inr (e, ups)) =
    if_intro (top == "..") IsStack (λ _. inr (refl, (e, ups)))
      (λ other. absurd (clash ((eq_iff top "..").1 e) other))

push-IsStack :
    (rooted : Bool) (part : String) (stack : List String)
    → NoSlash part
    → IsStack stack
    → IsStack (push rooted part stack)
unfolding push
push-IsStack rooted part stack one h =
    if_intro (part == "" || part == ".") IsStack (λ _. h)
      (λ named.
        if_intro (part == "..") IsStack (λ _. go_up-IsStack rooted stack h)
          (λ other. inl (plain_from named other, h)))
  where
    plain_from : (part == "" || part == ".") ≡ false → (part == "..") ≡ false → IsPlain part
    plain_from named other = record {
      one_name = one;
      not_empty = λ e. ground (arith, eq_iff part "");
      not_here = λ e. ground (arith, eq_iff part ".");
      not_up = λ e. ground (arith, eq_iff part "..");
    }

push_all-IsStack :
    (rooted : Bool) (parts stack : List String)
    → All NoSlash parts
    → IsStack stack
    → IsStack (push_all rooted parts stack)
unfolding push_all
push_all-IsStack rooted [] stack ones h = h
push_all-IsStack rooted (part ∷ parts) stack ones h =
    push_all-IsStack rooted parts (push rooted part stack) ones.1
      (push-IsStack rooted part stack ones.0 h)

append-cons : (c : Char) (p : String) → String.◌∷◌ c String.[] ++ p ≡ String.◌∷◌ c p
append-cons c p = (λ i. append.cons c String.[] p i) ∙ ap (String.◌∷◌ c) (λ i. append.nil p i)

add_char-NoSlash :
    (c : Char) (parts : List String)
    → code c ≢ b'/'
    → All NoSlash parts
    → All NoSlash (add_char (String.◌∷◌ c String.[]) parts)
unfolding add_char
add_char-NoSlash c [] other h = ((other, tt), tt)
add_char-NoSlash c (p ∷ parts) other h = (rw (append-cons c p) (other, h.0), h.1)

split-NoSlash : (s : String) → All NoSlash (split s)
unfolding split is_separator
split-NoSlash String.[] = (tt, tt)
split-NoSlash (String.◌∷◌ c s) =
    if_intro (is_separator (code c)) (All NoSlash) (λ _. (tt, split-NoSlash s))
      (λ other. add_char-NoSlash c (split s) (λ e. ground arith) (split-NoSlash s))

ups_first :
    (xs acc : List String)
    → AllUp xs
    → starts_up acc ≡ true
    → starts_up (reverse_onto xs acc) ≡ true
unfolding reverse_onto starts_up
ups_first [] acc ups h = h
ups_first (x ∷ xs) acc ups h = ups_first xs (x ∷ acc) ups.1 (ground (arith, ups.0, eq_iff x ".."))

IsPlain-or_up :
    (stack : List String)
    → IsStack stack
    → All IsPlain stack ⊎ ((acc : List String) → starts_up (reverse_onto stack acc) ≡ true)
unfolding reverse_onto starts_up
IsPlain-or_up [] h = inl tt
IsPlain-or_up (x ∷ xs) (inl (plain, rest)) = elim (IsPlain-or_up xs rest) [
  | inl all ↦ inl (plain, all)
  | inr up ↦ inr (λ acc. up (x ∷ acc))
]
IsPlain-or_up (x ∷ xs) (inr (e, ups)) =
    inr (λ acc. ups_first xs (x ∷ acc) ups (ground (arith, eq_iff x "..")))

All-reverse_onto :
    (P : String → Type 0) (xs acc : List String)
    → All P xs
    → All P acc
    → All P (reverse_onto xs acc)
unfolding reverse_onto
All-reverse_onto P [] acc h k = k
All-reverse_onto P (x ∷ xs) acc h k = All-reverse_onto P xs (x ∷ acc) h.1 (h.0, k)

clean_parts-IsPlain :
    (name : String) → starts_up (clean_parts name) ≡ false → All IsPlain (clean_parts name)
unfolding clean_parts
clean_parts-IsPlain name h =
    elim (IsPlain-or_up _
      (push_all-IsStack (is_abs name) (split name) [] (split-NoSlash name) tt)) [
        | inl all ↦ All-reverse_onto IsPlain _ [] all tt
        | inr up ↦ absurd (clash (up []) h)
      ]

-- The directory itself, or the path of an entry below it.
abbrev pub IsInside : String → String → Type 0
IsInside dest path = (parts : List String) × (path ≡ under dest parts) × All IsPlain parts

-- What safeJoin accepts is the destination or a path below it, each of whose parts names an entry of
-- its directory: it has no separator and is not empty, "." or "..".
pub safe_join-IsInside :
    (dest name path : String) → safe_join dest name ≡ ok path → IsInside dest path
unfolding safe_join
safe_join-IsInside dest name path =
    if_intro (is_abs name || starts_up (clean_parts name)) (λ r. r ≡ ok path → IsInside dest path)
      (λ _ h. absurd (failing h))
      (λ fine h.
        (clean_parts name, sym (same h), clean_parts-IsPlain name (or_right (is_abs name) fine)))
  where
    failing : {e : Error} → ◌≡◌ {A = Result String} (err e) (ok path) → ⊥
    failing h = cc

    same : {a : String} → ◌≡◌ {A = Result String} (ok a) (ok path) → a ≡ path
    same h = cc

    or_right : (a : Bool) {b : Bool} → a || b ≡ false → b ≡ false
    or_right true h = absurd (clash refl h)
    or_right false h = h
