-- ===== src/Importer/Preflight/Stops.antt =====
-- When the scan of the images ends early or reports a failure.
use diffah.Base.{
  String, Bool, true, false, Option, none, some, List, [], ◌∷◌, ◌≡◌, ◌≢◌, ◌⊎◌, refl, subst, sym,
  arith, In, inl, inr, Option-cases, Bool-cases, if◌then◌else◌,
}
use diffah.Base.Map.{Map, lookup}
use diffah.Base.Disk.{Disk}
use diffah.Diff.Types.{ImageEntry}
use diffah.Diff.Errors.{Error}
use diffah.Exporter.Types.{Digester}
use diffah.Importer.Manifest.{ManifestLib, ExtractedBundle}
use diffah.Importer.Preflight.{
  PreflightStatus, preflight_ok, schema_error, ResolvedBaseline, Preflight, scan_one_image,
  is_ok_status, is_schema_error, scan_images,
}
use diffah.Importer.Preflight.Summary.{schema_error-fatal}

clash : {A : Type 0} {o : Option A} {a : A} → o ≡ none → o ≡ some a → ⊥
clash q k = cc

ok_status : (s : PreflightStatus) → is_ok_status s ≡ true → s ≡ preflight_ok
unfolding is_ok_status
ok_status s h = ground arith

same_baseline :
    {o : Option ResolvedBaseline} {rb rb' : ResolvedBaseline}
    → o ≡ some rb
    → o ≡ some rb'
    → rb ≡ rb'
same_baseline l l' = cc

module _ (lib : ManifestLib) (dig : Digester) (ctx : String → Option Error)
    (bundle : ExtractedBundle) (by_name : Map ResolvedBaseline) (disk : Disk) where
  -- The context has ended before the image is scanned.
  abbrev pub IsCancelled : ImageEntry → Type 0
  IsCancelled img = ctx img.name ≢ none

  -- No baseline was resolved for the image, or its scan does not end with the status OK.
  abbrev pub Fails : ImageEntry → Type 0
  Fails img =
      (lookup img.name by_name ≡ none)
      ⊎ ((rb : ResolvedBaseline) × (lookup img.name by_name ≡ some rb)
          × ((scan_one_image lib dig none bundle img rb disk).status ≢ preflight_ok))

  -- The bundle's own manifest of the image cannot be read.
  abbrev pub IsMalformed : ImageEntry → Type 0
  IsMalformed img =
      (rb : ResolvedBaseline) × (lookup img.name by_name ≡ some rb)
      × ((scan_one_image lib dig none bundle img rb disk).status ≡ schema_error)

  abbrev scan : List ImageEntry → Preflight
  scan = scan_images lib dig ctx bundle by_name disk

  not-IsMalformed :
      (img : ImageEntry) (rb : ResolvedBaseline)
      → lookup img.name by_name ≡ some rb
      → is_schema_error (scan_one_image lib dig none bundle img rb disk).status ≡ false
      → ¬ IsMalformed img
  unfolding is_schema_error
  not-IsMalformed img rb l fine (rb', l', bad) = flag_clash _ fine (
      subst (λ b. (scan_one_image lib dig none bundle img b disk).status ≡ schema_error)
        (same_baseline l' l) bad)
    where
      flag_clash : (s : PreflightStatus) → is_schema_error s ≡ false → s ≡ schema_error → ⊥
      flag_clash s f t = ground arith

  not_failing :
      (img : ImageEntry) (rb : ResolvedBaseline)
      → lookup img.name by_name ≡ some rb
      → is_ok_status (scan_one_image lib dig none bundle img rb disk).status ≡ true
      → ¬ Fails img
  not_failing img rb l fine (inl q) = clash q l
  not_failing img rb l fine (inr (rb', l', bad)) = bad (
      subst (λ b. (scan_one_image lib dig none bundle img b disk).status ≡ preflight_ok)
        (same_baseline l l') (ok_status _ fine))

  -- A scan that completes has met no cancelled context and no malformed image, and one without a
  -- failure has met no image that fails.
  abbrev Clears : ImageEntry → Preflight → Type 0
  Clears img p = (¬ IsCancelled img) × (¬ IsMalformed img) × (p.any_fail ≡ false → ¬ Fails img)

  scan_images-head :
      (img : ImageEntry) (images : List ImageEntry)
      → (scan (img ∷ images)).fatal ≡ none
      → Clears img (scan (img ∷ images))
        × ((scan images).fatal ≡ none)
        × ((scan (img ∷ images)).any_fail ≡ false → (scan images).any_fail ≡ false)
  unfolding scan_images
  scan_images-head img images h = elim (Option-cases (ctx img.name)) [
    | inr (e, c) ↦ absurd (clash (rw (scan_images, c) at h) refl)
    | inl c ↦ elim (Option-cases (lookup img.name by_name)) [
      | inl l ↦ (
        (
          λ k. k c,
          λ (rb, found, _). clash l found,
          λ a. absurd (flag (rw (scan_images, c, l) at a)),
        ),
        rw (scan_images, c, l) at h,
        λ a. absurd (flag (rw (scan_images, c, l) at a)),
      )
      | inr (rb, l) ↦
          elim (Bool-cases
            (is_schema_error (scan_one_image lib dig none bundle img rb disk).status)) [
              | inl broken ↦
                  let (e, q) = schema_error-fatal lib dig ctx bundle by_name disk img rb broken in
                  absurd (clash (rw (scan_images, c, l, broken) at h) q)
              | inr fine ↦ (
                (
                  λ k. k c,
                  not-IsMalformed img rb l fine,
                  λ a. not_failing img rb l (passed _ _ (rw (scan_images, c, l, fine) at a)).0,
                ),
                rw (scan_images, c, l, fine) at h,
                λ a. (passed _ _ (rw (scan_images, c, l, fine) at a)).1,
              )
            ]
    ]
  ]
    where
      flag : true ≡ false → ⊥
      flag k = cc

      passed : (b r : Bool) → (if b then r else true) ≡ false → (b ≡ true) × (r ≡ false)
      passed b r k = ground arith

  pub scan_images-Clears :
      (img : ImageEntry) (images : List ImageEntry)
      → In img images
      → (scan images).fatal ≡ none
      → Clears img (scan images)
  scan_images-Clears img [] m h = absurd m
  scan_images-Clears img (x ∷ images) (inl same) h =
      subst (λ i. Clears i (scan (x ∷ images))) (sym same) (scan_images-head x images h).0
  scan_images-Clears img (x ∷ images) (inr m) h =
      let (_, completes, quiet) = scan_images-head x images h in
      let (runs, fine, passes) = scan_images-Clears img images m completes in
      (runs, fine, λ a. passes (quiet a))
