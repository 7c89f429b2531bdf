-- ===== src/Importer/Preflight/Coverage.antt =====
-- What the status OK of a scan says: the baseline has whatever the bundle leaves to it.
use diffah.Base.{
  String, true, false, not, ◌&&◌, none, some, List, [], ◌∷◌, ◌≡◌, ◌≢◌, ◌⊎◌, ◌↔◌, refl, sym, subst,
  inl, inr, arith, All, In, Option-cases, Bool-cases, eq_iff, ◌==◌,
}
use diffah.Base.Map.{Map, lookup}
use diffah.Base.Disk.{Disk}
use diffah.Diff.Types.{BlobEntry, ImageEntry, entries, is_patch}
use diffah.Diff.Errors.{ok}
use diffah.Exporter.Types.{Digester}
use diffah.Importer.Manifest.{
  LayerRef, ManifestLib, ExtractedBundle, parse_manifest, read_sidecar_target_layers, add, add_all,
  digests_not_in, contains-add_iff, In-add_all_iff, In-digests_not_in_iff, In-either,
}
use diffah.Importer.Invariant.{digests}
use diffah.Importer.Preflight.{
  preflight_ok, ResolvedBaseline, required_from, with_required, compute_required_baseline_digests,
  status_of, baseline_set, scan_layers, scan_one_image,
}

-- The baseline has the layer or the config, unless the config has no digest.
abbrev pub Has : List LayerRef → String → String → Type 0
Has baseline config x = In x (digests baseline) ⊎ ((x ≡ config) × (config ≢ ""))

In-baseline_set_iff :
    (x : String) (baseline : List LayerRef) (config : String)
    → In x (baseline_set baseline config) ↔ Has baseline config x
unfolding baseline_set
In-baseline_set_iff x baseline config = ground (
  arith,
  contains-add_iff x config (add_all (digests baseline) []),
  In-add_all_iff x (digests baseline) [],
  eq_iff config "",
)

-- The layer needs nothing of the baseline, or the baseline has what it needs: the layer itself, where
-- it is not shipped, and the source of the patch, where it is shipped as one.
abbrev pub IsCovered : Map BlobEntry → (String → Type 0) → LayerRef → Type 0
IsCovered shipped Has l =
    (lookup l.digest shipped ≡ none → Has l.digest)
    × ((e : BlobEntry)
        → lookup l.digest shipped ≡ some e
        → is_patch e.encoding ≡ true
        → e.patch_from_digest ≢ ""
        → Has e.patch_from_digest)

abbrev AllIn : List String → List String → Type 0
AllIn xs have = (x : String) → In x xs → In x have

AllIn-add_iff :
    (d : String) (xs have : List String) → AllIn (add d xs) have ↔ (In d have × AllIn xs have)
AllIn-add_iff d xs have = (
  (λ h. (
    h d ((contains-add_iff d d xs).1 (inl refl)),
    λ x m. h x ((contains-add_iff x d xs).1 (inr m)),
  )),
  λ h x m. ground (arith, contains-add_iff x d xs, h.0, h.1 x),
)

module _ (shipped : Map BlobEntry) (have : List String) where
  Both : List String × List String → Type 0
  Both (reuse, sources) = AllIn reuse have × AllIn sources have

  module _ (l : LayerRef) (layers : List LayerRef) (reuse sources : List String) where
    not_shipped :
        lookup l.digest shipped ≡ none
        → required_from shipped (l ∷ layers) reuse sources
          ≡ required_from shipped layers (add l.digest reuse) sources
    unfolding required_from
    not_shipped n = rw (required_from, n) refl

    shipped_patch :
        (e : BlobEntry)
        → lookup l.digest shipped ≡ some e
        → (is_patch e.encoding && not (e.patch_from_digest == "")) ≡ true
        → required_from shipped (l ∷ layers) reuse sources
          ≡ required_from shipped layers reuse (add e.patch_from_digest sources)
    unfolding required_from
    shipped_patch e n q = rw (required_from, n, q) refl

    shipped_whole :
        (e : BlobEntry)
        → lookup l.digest shipped ≡ some e
        → (is_patch e.encoding && not (e.patch_from_digest == "")) ≡ false
        → required_from shipped (l ∷ layers) reuse sources
          ≡ required_from shipped layers reuse sources
    unfolding required_from
    shipped_whole e n q = rw (required_from, n, q) refl

  required_from_iff :
      (layers : List LayerRef) (reuse sources : List String)
      → Both (required_from shipped layers reuse sources)
        ↔ (AllIn reuse have × AllIn sources have × All (IsCovered shipped (λ x. In x have)) layers)
  unfolding required_from Both
  required_from_iff [] reuse sources = ((λ h. (h.0, h.1, tt)), λ h. (h.0, h.1))
  required_from_iff (l ∷ layers) reuse sources = elim (Option-cases (lookup l.digest shipped)) [
    | inl n ↦
        let i = required_from_iff layers (add l.digest reuse) sources in
        let step = not_shipped l layers reuse sources n in
        (
          (λ h.
              let (r, k, c) = i.0 (subst Both step h) in
              let (m, r') = (AllIn-add_iff l.digest reuse have).0 r in
              (r', k, (((λ _. m), λ e h' _ _. ground arith), c))),
          λ (r, k, (covered, c)).
              subst Both (sym step)
                (i.1 ((AllIn-add_iff l.digest reuse have).1 (covered.0 n, r), k, c)),
        )
    | inr (e, n) ↦ elim (Bool-cases (is_patch e.encoding && not (e.patch_from_digest == ""))) [
      | inl q ↦
          let i = required_from_iff layers reuse (add e.patch_from_digest sources) in
          let step = shipped_patch l layers reuse sources e n q in
          (
            (λ h.
                let (r, k, c) = i.0 (subst Both step h) in
                let (m, k') = (AllIn-add_iff e.patch_from_digest sources have).0 k in
                (r, k', (((λ h'. ground arith), λ e' h' _ _. ground (arith, m)), c))),
            λ (r, k, (covered, c)). subst Both (sym step) (
                i.1 (
                  r,
                  (AllIn-add_iff e.patch_from_digest sources have).1
                      (ground (arith, covered.1 e n, eq_iff e.patch_from_digest ""), k),
                  c,
                )),
          )
      | inr q ↦
          let i = required_from_iff layers reuse sources in
          let step = shipped_whole l layers reuse sources e n q in
          (
            (λ h.
                let (r, k, c) = i.0 (subst Both step h) in
                (
                  r,
                  k,
                  (
                    (
                      (λ h'. ground arith),
                      λ e' h' p ne. ground (arith, eq_iff e'.patch_from_digest ""),
                    ),
                    c,
                  ),
                )),
            λ (r, k, (covered, c)). subst Both (sym step) (i.1 (r, k, c)),
          )
    ]
  ]

none_missing :
    (xs have : List String) → ((x : String) → ¬ In x (digests_not_in xs have)) ↔ AllIn xs have
none_missing xs have = (
  (λ h x m. ground (arith, h x, In-digests_not_in_iff x xs have, In-either x have)),
  λ h x m. ground (arith, h x, In-digests_not_in_iff x xs have),
)

status_of-ok_iff :
    (xs ys : List String)
    → (status_of xs ys ≡ preflight_ok) ↔ (((x : String) → ¬ In x xs) × ((x : String) → ¬ In x ys))
unfolding status_of
status_of-ok_iff [] [] = ((λ h. ((λ x m. m), λ x m. m)), λ h. refl)
status_of-ok_iff [] (y ∷ ys) = ((λ h. ground arith), λ h. absurd (h.1 y (inl refl)))
status_of-ok_iff (x ∷ xs) ys = ((λ h. ground arith), λ h. absurd (h.0 x (inl refl)))

mapped :
    (shipped : Map BlobEntry) (layers : List LayerRef) (P Q : String → Type 0)
    → ((x : String) → P x → Q x)
    → All (IsCovered shipped P) layers
    → All (IsCovered shipped Q) layers
mapped shipped [] P Q f h = tt
mapped shipped (l ∷ layers) P Q f ((a, b), h) = (
  ((λ n. f l.digest (a n)), λ e n p ne. f e.patch_from_digest (b e n p ne)),
  mapped shipped layers P Q f h,
)

-- Where the bundle's target manifest and the baseline's manifest can be read, the scan of an image has
-- the status OK exactly when every layer of the target manifest that is not shipped, and every
-- non-empty source of a shipped patch, is a layer or the config of the baseline manifest.
pub scan_one_image-ok_iff :
    (lib : ManifestLib) (dig : Digester) (bundle : ExtractedBundle) (img : ImageEntry)
    (rb : ResolvedBaseline) (disk : Disk) (layers baseline : List LayerRef)
    (target_type config baseline_type : String)
    → read_sidecar_target_layers lib dig bundle img disk ≡ ok (layers, target_type)
    → parse_manifest lib rb.manifest_bytes rb.manifest_mime ≡ ok (baseline, config, baseline_type)
    → ((scan_one_image lib dig none bundle img rb disk).status ≡ preflight_ok)
      ↔ All (IsCovered (entries bundle.sidecar.blobs) (Has baseline config)) layers
unfolding scan_one_image compute_required_baseline_digests with_required scan_layers Both
scan_one_image-ok_iff lib dig bundle img rb disk layers baseline target_type config baseline_type h
      k =
    let shipped = entries bundle.sidecar.blobs in
    let have = baseline_set baseline config in
    let required = required_from shipped layers [] [] in
    rw (scan_one_image, compute_required_baseline_digests, h, k)
      (
        (λ ok_.
            let (a, b) =
              (status_of-ok_iff (digests_not_in required.1 have) (digests_not_in required.0 have)).0
                ok_ in
            let (_, _, covered) =
              (required_from_iff shipped have layers [] []).0
                ((none_missing required.0 have).0 b, (none_missing required.1 have).0 a) in
            mapped shipped layers (λ x. In x have) (Has baseline config)
              (λ x. (In-baseline_set_iff x baseline config).0) covered),
        λ covered.
            let (a, b) = (required_from_iff shipped have layers [] []).1 (
              (λ x m. absurd m),
              (λ x m. absurd m),
              mapped shipped layers (Has baseline config) (λ x. In x have)
                  (λ x. (In-baseline_set_iff x baseline config).1) covered,
            ) in
            (status_of-ok_iff (digests_not_in required.1 have) (digests_not_in required.0 have)).1
              ((none_missing required.1 have).1 b, (none_missing required.0 have).1 a),
      )
