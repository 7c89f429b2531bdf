-- ===== src/Importer/Resolve.antt =====
-- pkg/importer/resolve.go: the baselines that an import opens. An image source is known by a handle,
-- and the state says which handles are open. What each attempt to open a source and to read its
-- manifest gives is a parameter.
pub mod Releases
use diffah.Base.{
  ℕ, suc, String, Bool, true, false, not, ◌&&◌, ◌||◌, Option, none, some, List, [], ◌∷◌, ◌++◌, map,
  leb, contains, if◌then◌else◌, ◌==◌,
}
use diffah.Base.Int.{ℤ}
use diffah.Base.Map.{Map, lookup, insert, has}
use diffah.Base.Disk.{Bytes}
use diffah.Diff.Types.{ImageEntry}
use diffah.Diff.Errors.{
  Error, Result, ok, err, wrap, baseline_mismatch, baseline_missing, baseline_name_unknown,
}
use diffah.Diff.Classify.Registry.{classify_registry_err, is_retryable_registry_err}
use diffah.Importer.Preflight.{ResolvedBaseline}
use diffah.Importer.Retry.{with_retry}
use diffah.Importer.Apply.{Site, parse_reference}

pub record Sources : Type 0 where
  pub next : ℕ
  pub live : ℕ → Bool

-- ref.NewImageSource and src.GetManifest at each attempt, and the error of a context that ends in the
-- wait after it. An open source gives the blobs of the baseline.
pub record Registry : Type 0 where
  pub new_image_source : String → ℕ → Result (String → Result Bytes)
  pub get_manifest : String → ℕ → Result (Bytes × String)
  pub ended : String → ℕ → Option Error
  pub retry_times : ℤ
  pub retry_delay : ℤ

-- A resolved baseline with the handle of its open source.
pub record Held : Type 0 where
  pub baseline : ResolvedBaseline
  pub handle : ℕ

abbrev pub same : ℕ → ℕ → Bool
same h k = leb h k && leb k h

abbrev pub opened : Sources → Sources
opened st = record { next = suc st.next; live = λ h. same h st.next || st.live h }

-- src.Close()
abbrev pub closed : ℕ → Sources → Sources
closed k st = record st { live = λ h. not (same h k) && st.live h }

-- closeResolvedBaselines
unfoldable pub close_resolved_baselines : List Held → Sources → Sources
close_resolved_baselines [] st = st
close_resolved_baselines (x ∷ held) st = close_resolved_baselines held (closed x.handle st)

abbrev pub default_image_key : String
default_image_key = "default"

rewrite_keys : String → Map String → Map String → Map String
rewrite_keys name [] expanded = expanded
rewrite_keys name ((k, v) ∷ m) expanded =
    rewrite_keys name m (insert (if k == default_image_key then name else k) v expanded)

-- rewriteDefaultKey
unfoldable pub rewrite_default_key : List ImageEntry → Map String → Map String
unfolding rewrite_keys
rewrite_default_key (img ∷ []) m = if has default_image_key m then rewrite_keys img.name m [] else m
rewrite_default_key images m = m

abbrev names_of : List ImageEntry → List String
names_of = map (λ (img : ImageEntry). img.name)

unknown_name : List ImageEntry → Map String → Option String
unknown_name images [] = none
unknown_name images ((name, _) ∷ expanded) =
    let rest = unknown_name images expanded in
    if contains name (names_of images) then rest else some name

-- rejectUnknownBaselineNames
unfoldable pub reject_unknown_baseline_names : List ImageEntry → Map String → Result (Unit {0})
unfolding unknown_name
reject_unknown_baseline_names images expanded = elim (unknown_name images expanded) [
  | none ↦ ok tt
  | some name ↦ err (baseline_name_unknown name (names_of images))
]

-- The images that have not been resolved.
missing_names : List ImageEntry → List Held → List String
missing_names [] held = []
missing_names (img ∷ images) held =
    let rest = missing_names images held in
    if contains img.name (map (λ (x : Held). x.baseline.name) held) then rest else img.name ∷ rest

module _ {Dest : Type 0} (site : Site Dest) (reg : Registry) where
  -- openOneBaseline from the manifest on.
  check_manifest :
      ImageEntry
      → String
      → (String → Result Bytes)
      → Result (Bytes × String)
      → Sources
      → Result Held × Sources
  check_manifest img raw source (err e) st = (
    err (wrap "read baseline manifest" (classify_registry_err site.texts e raw)),
    closed st.next (opened st),
  )
  check_manifest img raw source (ok (bytes, mime)) st =
      if not (site.dig.from_bytes bytes == img.baseline.manifest_digest)
      then (
        err (baseline_mismatch img.name img.baseline.manifest_digest (site.dig.from_bytes bytes)),
        closed st.next (opened st),
      )
      else (
        ok (record {
          baseline = record {
            name = img.name;
            manifest_bytes = bytes;
            manifest_mime = mime;
            source = source;
          };
          handle = st.next;
        }),
        opened st,
      )

  -- openOneBaseline
  unfoldable pub open_one_baseline : ImageEntry → String → Sources → Result Held × Sources
  unfolding check_manifest
  open_one_baseline img raw st = elim (parse_reference site raw) [
    | err e ↦ (err (wrap "parse baseline reference" e), st)
    | ok ref ↦
        elim ((with_retry (is_retryable_registry_err site.texts) (reg.new_image_source ref)
          (reg.ended ref) reg.retry_delay reg.retry_times).result) [
            | err e ↦
                (err (wrap "open baseline source" (classify_registry_err site.texts e raw)), st)
            | ok source ↦
                check_manifest img raw source
                  (with_retry (is_retryable_registry_err site.texts) (reg.get_manifest ref)
                    (reg.ended ref) reg.retry_delay reg.retry_times).result
                  st
          ]
  ]

  -- The loop of resolveBaselines, with the baselines so far.
  resolve_from : Map String → List ImageEntry → List Held → Sources → Result (List Held) × Sources
  resolve_from expanded [] held st = (ok held, st)
  resolve_from expanded (img ∷ images) held st = elim (lookup img.name expanded) [
    | none ↦ resolve_from expanded images held st
    | some raw ↦
        let (opening, st') = open_one_baseline img raw st in
        elim opening [
          | err e ↦ (err e, close_resolved_baselines held st')
          | ok x ↦ resolve_from expanded images (held ++ (x ∷ [])) st'
        ]
  ]

  -- What resolveBaselines checks after its loop.
  check_names : Bool → Map String → List ImageEntry → List Held → Result (Unit {0})
  unfolding missing_names
  check_names strict expanded images held =
      elim (if strict then missing_names images held else []) [
        | n ∷ names ↦ err (baseline_missing (n ∷ names))
        | [] ↦ reject_unknown_baseline_names images expanded
      ]

  checked_names :
      Bool
      → Map String
      → List ImageEntry
      → Result (List Held) × Sources
      → Result (List Held) × Sources
  unfolding check_names
  checked_names strict expanded images (err e, st) = (err e, st)
  checked_names strict expanded images (ok held, st) =
      elim (check_names strict expanded images held) [
        | err e ↦ (err e, close_resolved_baselines held st)
        | ok _ ↦ (ok held, st)
      ]

  -- resolveBaselines
  unfoldable pub resolve_baselines :
      List ImageEntry → Map String → Bool → Sources → Result (List Held) × Sources
  unfolding resolve_from checked_names
  resolve_baselines images baselines strict st =
      let expanded = rewrite_default_key images baselines in
      checked_names strict expanded images (resolve_from expanded images [] st)
