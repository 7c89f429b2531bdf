-- ===== src/Diff/Classify/Chain.antt =====
-- What wrapping an error does to its category.
use diffah.Base.{
  String, none, some, List, [], ◌∷◌, ◌≡◌, ◌≢◌, refl, ◌⊎◌, inl, inr, ◌∙◌, Option-cases,
}
use diffah.Diff.Errors.{Error, External, wrap}
use diffah.Diff.Classify.{Texts, cause_of, find_category, fallback, hint_of, classify}

-- fmt.Errorf("c: %w", …) for each context in turn, the first outermost.
abbrev pub wraps : List String → Error → Error
wraps [] e = e
wraps (c ∷ contexts) e = wrap c (wraps contexts e)

-- The error has a category of its own, or comes from the operating system or the network.
abbrev pub IsTyped : Texts → Error → Type 0
IsTyped t e =
    (find_category t e ≢ none) ⊎ ((x : External) × (cause_of e ≡ some x) × (hint_of x ≢ none))

wraps-IsTyped :
    (t : Texts) (contexts : List String) (e : Error) → IsTyped t e → IsTyped t (wraps contexts e)
unfolding find_category cause_of
wraps-IsTyped t [] e h = h
wraps-IsTyped t (c ∷ contexts) e h = wraps-IsTyped t contexts e h

wrap_typed :
    (t : Texts) (c : String) (e : Error) → IsTyped t e → classify t (wrap c e) ≡ classify t e
unfolding classify find_category cause_of fallback
wrap_typed t c e (inl h) = elim (Option-cases (find_category t e)) [
  | inl q ↦ absurd (h q)
  | inr (k, q) ↦ rw (classify, q) refl
]
wrap_typed t c e (inr (x, q, h)) = elim (Option-cases (hint_of x)) [
  | inl none_found ↦ absurd (h none_found)
  | inr (hint, found) ↦ elim (Option-cases (find_category t e)) [
    | inl untyped ↦ rw (classify, untyped, fallback, q, found) refl
    | inr (k, typed) ↦ rw (classify, typed) refl
  ]
]

-- Wrapping an error that has a category or comes from the system or the network, any number of times,
-- changes neither its category nor its hint.
pub classify-wraps :
    (t : Texts) (contexts : List String) (e : Error)
    → IsTyped t e
    → classify t (wraps contexts e) ≡ classify t e
classify-wraps t [] e h = refl
classify-wraps t (c ∷ contexts) e h =
    wrap_typed t c (wraps contexts e) (wraps-IsTyped t contexts e h) ∙ classify-wraps t contexts e h
