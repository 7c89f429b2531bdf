-- ===== src/Importer/Resolve/Releases.antt =====
-- The sources that are open after the baselines have been resolved.
use mathlib.Core.List.{append-nil, append_assoc}
use diffah.Base.{
  ℕ, ◌≤◌, String, Bool, true, false, not, ◌&&◌, ◌||◌, none, some, List, [], ◌∷◌, ◌++◌, ◌≡◌, refl,
  sym, subst, ◌∙◌, arith, Bool-cases, Option-cases, inl, inr, eq_iff, ◌==◌,
}
use diffah.Base.Map.{Map, lookup}
use diffah.Base.Disk.{Bytes}
use diffah.Diff.Types.{ImageEntry}
use diffah.Diff.Errors.{Error, Result, ok, err, Result-cases}
use diffah.Diff.Classify.Registry.{is_retryable_registry_err}
use diffah.Importer.Retry.{with_retry}
use diffah.Importer.Apply.{Site, parse_reference}
use diffah.Importer.Resolve.{
  Sources, Registry, Held, same, opened, closed, close_resolved_baselines, rewrite_default_key,
  check_manifest, open_one_baseline, resolve_from, check_names, checked_names, resolve_baselines,
}

-- One of the baselines holds the handle.
abbrev pub holds : List Held → ℕ → Bool
holds [] h = false
holds (x ∷ held) h = same h x.handle || holds held h

holds-append :
    (held : List Held) (x : Held) (h : ℕ)
    → holds (held ++ (x ∷ [])) h ≡ (same h x.handle || holds held h)
holds-append [] x h = refl
holds-append (y ∷ held) x h = ground (arith, holds-append held x h)

-- No handle from the next one on is open.
abbrev pub IsFresh : Sources → Type 0
IsFresh st = (h : ℕ) → st.next ≤ h → st.live h ≡ false

pub close_resolved_baselines-live :
    (held : List Held) (st : Sources) (h : ℕ)
    → (close_resolved_baselines held st).live h ≡ (not (holds held h) && st.live h)
unfolding close_resolved_baselines
close_resolved_baselines-live [] st h = refl
close_resolved_baselines-live (x ∷ held) st h =
    ground (arith, close_resolved_baselines-live held (closed x.handle st) h)

opened-closed :
    (st : Sources) (h : ℕ) → IsFresh st → (closed st.next (opened st)).live h ≡ st.live h
opened-closed st h fresh = ground (arith, fresh h)

-- What is open beyond what was open before: the sources of the baselines, and nothing else. None of
-- them was open before.
record Opens (before : Sources) (held : List Held) (st : Sources) : Type 0 where
  new : (h : ℕ) → holds held h ≡ true → before.live h ≡ false
  only : (h : ℕ) → st.live h ≡ (holds held h || before.live h)
  fresh : IsFresh st

module _ {Dest : Type 0} (site : Site Dest) (reg : Registry) where
  -- The baseline has the image's name, and its manifest the digest that the sidecar gives.
  pub record IsBaselineOf (img : ImageEntry) (x : Held) : Type 0 where
    pub named : x.baseline.name ≡ img.name
    pub digested : site.dig.from_bytes x.baseline.manifest_bytes ≡ img.baseline.manifest_digest

  -- The baselines are those of the images that have one, in the order of the images.
  pub data Matches (expanded : Map String) : List ImageEntry → List Held → Type 0 where
    no_images : Matches expanded [] []
    skip :
        {img : ImageEntry} {images : List ImageEntry} {held : List Held}
        → lookup img.name expanded ≡ none
        → Matches expanded images held
        → Matches expanded (img ∷ images) held
    keep :
        {img : ImageEntry} {images : List ImageEntry} {x : Held} {held : List Held} (raw : String)
        → lookup img.name expanded ≡ some raw
        → IsBaselineOf img x
        → Matches expanded images held
        → Matches expanded (img ∷ images) (x ∷ held)

  abbrev Opened : ImageEntry → Sources → Result Held × Sources → Type 0
  Opened img st (err e, st') = (h : ℕ) → st'.live h ≡ st.live h
  Opened img st (ok x, st') = (x.handle ≡ st.next) × (st' ≡ opened st) × IsBaselineOf img x

  check_manifest-Opened :
      (img : ImageEntry) (raw : String) (source : String → Result Bytes)
      (mf : Result (Bytes × String)) (st : Sources)
      → IsFresh st
      → Opened img st (check_manifest site reg img raw source mf st)
  unfolding check_manifest
  check_manifest-Opened img raw source (err e) st fresh = λ h. opened-closed st h fresh
  check_manifest-Opened img raw source (ok (bytes, mime)) st fresh =
      elim (Bool-cases (site.dig.from_bytes bytes == img.baseline.manifest_digest)) [
        | inl equal ↦
            rw (check_manifest, equal)
              (
                refl,
                refl,
                record {
                  named = refl;
                  digested =
                      (eq_iff (site.dig.from_bytes bytes) img.baseline.manifest_digest).0 equal;
                },
              )
        | inr other ↦ rw (check_manifest, other) (λ h. opened-closed st h fresh)
      ]

  open_one_baseline-Opened :
      (img : ImageEntry) (raw : String) (st : Sources)
      → IsFresh st
      → Opened img st (open_one_baseline site reg img raw st)
  unfolding open_one_baseline
  open_one_baseline-Opened img raw st fresh = elim (Result-cases (parse_reference site raw)) [
    | inr (e, q) ↦ rw (open_one_baseline, q) (λ h. refl)
    | inl (ref, q) ↦
        elim (Result-cases (
          (with_retry (is_retryable_registry_err site.texts) (reg.new_image_source ref)
            (reg.ended ref) reg.retry_delay reg.retry_times).result)) [
              | inr (e, k) ↦ rw (open_one_baseline, q, k) (λ h. refl)
              | inl (source, k) ↦
                  rw (open_one_baseline, q, k) (check_manifest-Opened img raw source _ st fresh)
            ]
  ]

  Opens-open :
      (before : Sources) (held : List Held) (st : Sources) (x : Held)
      → Opens before held st
      → x.handle ≡ st.next
      → Opens before (held ++ (x ∷ [])) (opened st)
  Opens-open before held st x o e = record {
    new = λ h q. ground (arith, holds-append held x h, e, o.new h, o.only h, o.fresh h);
    only = λ h. ground (arith, holds-append held x h, e, o.only h);
    fresh = λ h le. ground (arith, o.fresh h);
  }

  abbrev Resolves :
      Map String → Sources → List ImageEntry → List Held → Result (List Held) × Sources → Type 0
  Resolves expanded before images held (err e, st) = (h : ℕ) → st.live h ≡ before.live h
  Resolves expanded before images held (ok all, st) =
      Opens before all st
      × ((more : List Held) × (all ≡ held ++ more) × Matches expanded images more)

  Resolves-skip :
      (expanded : Map String) (before : Sources) (img : ImageEntry) (images : List ImageEntry)
      (held : List Held) (r : Result (List Held) × Sources)
      → lookup img.name expanded ≡ none
      → Resolves expanded before images held r
      → Resolves expanded before (img ∷ images) held r
  Resolves-skip expanded before img images held (err e, st) absent h = h
  Resolves-skip expanded before img images held (ok all, st) absent (o, (more, e, m)) =
      (o, (more, e, skip absent m))

  Resolves-keep :
      (expanded : Map String) (before : Sources) (img : ImageEntry) (images : List ImageEntry)
      (held : List Held) (x : Held) (raw : String) (r : Result (List Held) × Sources)
      → lookup img.name expanded ≡ some raw
      → IsBaselineOf img x
      → Resolves expanded before images (held ++ (x ∷ [])) r
      → Resolves expanded before (img ∷ images) held r
  Resolves-keep expanded before img images held x raw (err e, st) found b h = h
  Resolves-keep expanded before img images held x raw (ok all, st) found b (o, (more, e, m)) =
      (o, (x ∷ more, e ∙ append_assoc held (x ∷ []) more, keep raw found b m))

  failed :
      (img : ImageEntry) (st : Sources) (r : Result Held × Sources) (e : Error)
      → r.0 ≡ err e
      → Opened img st r
      → (h : ℕ) → r.1.live h ≡ st.live h
  failed img st (err _, st') e q o = o
  failed img st (ok _, st') e q o = absurd (ground arith)

  succeeded :
      (img : ImageEntry) (st : Sources) (r : Result Held × Sources) (x : Held)
      → r.0 ≡ ok x
      → Opened img st r
      → (x.handle ≡ st.next) × (r.1 ≡ opened st) × IsBaselineOf img x
  succeeded img st (err _, st') x q o = absurd (ground arith)
  succeeded img st (ok y, st') x q o =
      let equal : y ≡ x = cc in
      subst (λ (z : Held). (z.handle ≡ st.next) × (st' ≡ opened st) × IsBaselineOf img z) equal o

  resolve_from-Resolves :
      (expanded : Map String) (before : Sources) (images : List ImageEntry) (held : List Held)
      (st : Sources)
      → Opens before held st
      → Resolves expanded before images held (resolve_from site reg expanded images held st)
  unfolding resolve_from
  resolve_from-Resolves expanded before [] held st o = (o, ([], sym (append-nil held), no_images))
  resolve_from-Resolves expanded before (img ∷ images) held st o =
      elim (Option-cases (lookup img.name expanded)) [
        | inl absent ↦
            rw (resolve_from, absent)
              (Resolves-skip expanded before img images held _ absent
                (resolve_from-Resolves expanded before images held st o))
        | inr (raw, found) ↦
            let opening = open_one_baseline-Opened img raw st o.fresh in
            elim (Result-cases (open_one_baseline site reg img raw st).0) [
              | inr (e, q) ↦
                  rw (resolve_from, found, q)
                    (λ h. ground (
                      arith,
                      close_resolved_baselines-live held (open_one_baseline site reg img raw st).1
                          h,
                      failed img st _ e q opening h,
                      o.new h,
                      o.only h,
                    ))
              | inl (x, q) ↦
                  let (at, after, b) = succeeded img st _ x q opening in
                  rw (resolve_from, found, q, after)
                    (Resolves-keep expanded before img images held x raw _ found b (
                      resolve_from-Resolves expanded before images (held ++ (x ∷ [])) (opened st)
                        (Opens-open before held st x o at)))
            ]
      ]

  -- On an error the sources that are open are those from before. Otherwise those of the baselines are
  -- open too, which were not open before, and they are the ones of the images that have a baseline.
  abbrev pub Releases :
      Map String → List ImageEntry → Sources → Result (List Held) × Sources → Type 0
  Releases expanded images before (err e, st) = (h : ℕ) → st.live h ≡ before.live h
  Releases expanded images before (ok held, st) =
      ((h : ℕ) → holds held h ≡ true → before.live h ≡ false)
      × ((h : ℕ) → st.live h ≡ (holds held h || before.live h))
      × Matches expanded images held

  checked_names-Releases :
      (strict : Bool) (expanded : Map String) (images : List ImageEntry) (before : Sources)
      (r : Result (List Held) × Sources)
      → Resolves expanded before images [] r
      → Releases expanded images before (checked_names site reg strict expanded images r)
  unfolding checked_names
  checked_names-Releases strict expanded images before (err e, st) h = h
  checked_names-Releases strict expanded images before (ok held, st) (o, (more, equal, m)) =
      elim (Result-cases (check_names site reg strict expanded images held)) [
        | inr (e, q) ↦
            rw (checked_names, q)
              (λ h. ground (arith, close_resolved_baselines-live held st h, o.new h, o.only h))
        | inl (_, q) ↦
            rw (checked_names, q) (o.new, o.only, subst (Matches expanded images) (sym equal) m)
      ]

  -- If resolveBaselines fails, it has closed every source that it opened: whether a source cannot be
  -- opened, its manifest cannot be read or has another digest, or in the end a baseline is missing or
  -- unknown. If it succeeds, exactly the sources of the baselines that it returns have been opened,
  -- and these are the baselines of the images that have one, in the order of the images, each with the
  -- manifest that the sidecar names.
  pub resolve_baselines-Releases :
      (images : List ImageEntry) (baselines : Map String) (strict : Bool) (st : Sources)
      → IsFresh st
      → Releases
          (rewrite_default_key images baselines)
          images
          st
          (resolve_baselines site reg images baselines strict st)
  unfolding resolve_baselines
  resolve_baselines-Releases images baselines strict st fresh =
      checked_names-Releases strict (rewrite_default_key images baselines) images st _ (
        resolve_from-Resolves (rewrite_default_key images baselines) st images [] st
          (record { new = λ h q. absurd (ground arith); only = λ h. refl; fresh = fresh }))
