-- ===== src/Importer/Invariant/Match.antt =====
-- What verifyApplyInvariant accepts.
use diffah.Base.{
  String, Bool, true, false, not, ◌&&◌, some, List, [], ◌∷◌, ◌≡◌, ◌≢◌, ◌↔◌, refl, subst, Option,
  inl, inr, arith, All, In, Bool-cases, Option-cases, eq_iff, ◌==◌, if◌then◌else◌,
}
use diffah.Base.Int.{pos, ltb_ℤ, eqb_ℤ, eqb_ℤ-true, ◌<ℤ◌, ℤ}
use diffah.Base.Map.{Map, lookup}
use diffah.Base.Disk.{Disk}
use diffah.Diff.Types.{BlobEntry, ImageEntry, entries}
use diffah.Diff.Errors.{Result, ok, err, ◌>>◌, apply_invariant_failed, >>_iff}
use diffah.Exporter.Types.{Digester}
use diffah.Importer.Manifest.{
  LayerRef, ManifestLib, ExtractedBundle, FetchedManifest, read_sidecar_target_layers,
  read_dest_manifest_layers, add_all, In-add_all_iff, In-digests_not_in_iff, In-either,
}
use diffah.Importer.Invariant.{
  digests, layer_set_diff, sizes_from, want_size, check_sizes, verify_per_layer_size, is_nil,
  failed_for, compare_layers, verify_apply_invariant,
}

is_nil_iff : (xs : List String) → (is_nil xs ≡ true) ↔ ((x : String) → ¬ In x xs)
unfolding is_nil
is_nil_iff [] = ((λ h x m. m), (λ h. refl))
is_nil_iff (x ∷ xs) = ((λ h. ground arith), (λ h. absurd (h x (inl refl))))

both : (b c : Bool) → (b && c) ≡ true → (b ≡ true) × (c ≡ true)
both b c h = ground arith

both_true : (b c : Bool) → b ≡ true → c ≡ true → (b && c) ≡ true
both_true b c h k = ground arith

-- The same digests, in any order and any number.
abbrev pub SameDigests : List LayerRef → List LayerRef → Type 0
SameDigests expected actual = (x : String) → In x (digests expected) ↔ In x (digests actual)

In-missing_iff :
    (x : String) (expected actual : List LayerRef)
    → In x (layer_set_diff expected actual).0
      ↔ (In x (digests expected) × (¬ In x (digests actual)))
unfolding layer_set_diff
In-missing_iff x expected actual = ground (
  arith,
  In-digests_not_in_iff x (add_all (digests expected) []) (add_all (digests actual) []),
  In-add_all_iff x (digests expected) [],
  In-add_all_iff x (digests actual) [],
)

In-unexpected_iff :
    (x : String) (expected actual : List LayerRef)
    → In x (layer_set_diff expected actual).1
      ↔ (In x (digests actual) × (¬ In x (digests expected)))
unfolding layer_set_diff
In-unexpected_iff x expected actual = In-missing_iff x actual expected

layer_set_diff-nil_iff :
    (expected actual : List LayerRef)
    → ((is_nil (layer_set_diff expected actual).0 && is_nil (layer_set_diff expected actual).1)
        ≡ true)
      ↔ SameDigests expected actual
layer_set_diff-nil_iff expected actual = (to, from)
  where
    to :
        (is_nil (layer_set_diff expected actual).0 && is_nil (layer_set_diff expected actual).1)
          ≡ true
        → SameDigests expected actual
    to h x = ground (
      arith,
      (is_nil_iff (layer_set_diff expected actual).0).0
          (both (is_nil (layer_set_diff expected actual).0)
            (is_nil (layer_set_diff expected actual).1) h).0
          x,
      (is_nil_iff (layer_set_diff expected actual).1).0
          (both (is_nil (layer_set_diff expected actual).0)
            (is_nil (layer_set_diff expected actual).1) h).1
          x,
      In-missing_iff x expected actual,
      In-unexpected_iff x expected actual,
      In-either x (digests expected),
      In-either x (digests actual),
    )

    from :
        SameDigests expected actual
        → (is_nil (layer_set_diff expected actual).0 && is_nil (layer_set_diff expected actual).1)
          ≡ true
    from same =
        both_true (is_nil (layer_set_diff expected actual).0)
          (is_nil (layer_set_diff expected actual).1)
          ((is_nil_iff (layer_set_diff expected actual).0).1
            (λ x. ground (arith, same x, In-missing_iff x expected actual)))
          ((is_nil_iff (layer_set_diff expected actual).1).1
            (λ x. ground (arith, same x, In-unexpected_iff x expected actual)))

-- The size that the sidecar gives for the layer, where it gives a positive one, and the size in the
-- target manifest otherwise.
abbrev pub IsWantedSize : Map BlobEntry → LayerRef → ℤ → Type 0
IsWantedSize blobs e n =
    ((b : BlobEntry) → lookup e.digest blobs ≡ some b → pos 0 <ℤ b.size → n ≡ b.size)
    × (((b : BlobEntry) → lookup e.digest blobs ≡ some b → ¬ (pos 0 <ℤ b.size)) → n ≡ e.size)

want_size_iff :
    (blobs : Map BlobEntry) (e : LayerRef) (n : ℤ)
    → (n ≡ want_size blobs e) ↔ IsWantedSize blobs e n
unfolding want_size
want_size_iff blobs e n = elim (Option-cases (lookup e.digest blobs)) [
  | inl absent ↦
      rw (want_size, absent)
        ((λ q. ((λ b h _. ground arith), λ _. q)), λ w. w.1 (λ b h. ground arith))
  | inr (b, is_b) ↦ elim (Bool-cases (ltb_ℤ (pos 0) b.size)) [
    | inl q ↦
        rw (want_size, is_b, q)
          (
            (λ is_n. ((λ b' h _. ground arith), λ none_ok. absurd (none_ok b refl (ground arith)))),
            λ w. w.0 b refl (ground arith),
          )
    | inr q ↦
        rw (want_size, is_b, q)
          (
            (λ is_n. ((λ b' h positive. absurd (not_positive b b' h positive q)), λ _. is_n)),
            λ w. w.1 (λ b' h positive. not_positive b b' h positive q),
          )
  ]
]
  where
    not_positive :
        (b b' : BlobEntry)
        → ◌≡◌ {A = Option BlobEntry} (some b) (some b')
        → pos 0 <ℤ b'.size
        → ltb_ℤ (pos 0) b.size ≡ false
        → ⊥
    not_positive b b' h positive q = ground arith

-- Each expected layer that the image has is there in the wanted size.
abbrev pub HasSizes : Map BlobEntry → Map ℤ → List LayerRef → Type 0
HasSizes blobs sizes expected =
    All (λ e. (n : ℤ) → lookup e.digest sizes ≡ some n → IsWantedSize blobs e n) expected

check_sizes_iff :
    (blobs : Map BlobEntry) (sizes : Map ℤ) (expected : List LayerRef)
    → (check_sizes blobs sizes expected ≡ ok tt) ↔ HasSizes blobs sizes expected
unfolding check_sizes
check_sizes_iff blobs sizes [] = ground arith
check_sizes_iff blobs sizes (e ∷ expected) = elim (Option-cases (lookup e.digest sizes)) [
  | inl absent ↦
      let rest = check_sizes_iff blobs sizes expected in
      rw (check_sizes, absent) ((λ h. ((λ n is_n. ground arith), rest.0 h)), λ h. rest.1 h.1)
  | inr (n, is_n) ↦
      let rest = check_sizes_iff blobs sizes expected in
      let here = want_size_iff blobs e n in
      elim (Bool-cases (eqb_ℤ n (want_size blobs e))) [
        | inl q ↦
            let same = here.0 (eqb_ℤ-true n (want_size blobs e) q) in
            rw (check_sizes, is_n, q)
              (
                (λ h.
                    ((λ n' is_n'. subst (IsWantedSize blobs e) (only n n' is_n') same), rest.0 h)),
                λ h. rest.1 h.1,
              )
        | inr q ↦
            rw (check_sizes, is_n, q)
              (
                (λ h. absurd (ground arith)),
                λ h. absurd (unequal n (want_size blobs e) q (here.1 (h.0 n refl))),
              )
      ]
]
  where
    only : (n n' : ℤ) → ◌≡◌ {A = Option ℤ} (some n) (some n') → n ≡ n'
    only n n' h = ground arith

    unequal : (a b : ℤ) → eqb_ℤ a b ≡ false → a ≢ b
    unequal a b h q = ground arith

failed_for_iff : (name : String) (r : Result (Unit {0})) → (failed_for name r ≡ ok tt) ↔ (r ≡ ok tt)
unfolding failed_for
failed_for_iff name (ok tt) = ground arith
failed_for_iff name (err e) = ground arith

module _ (img : ImageEntry) (blobs : Map BlobEntry) (expected actual : List LayerRef)
    (expected_type actual_type actual_digest : String) where
  -- The image has the layers that the bundle expects, in their sizes, and, unless the manifest was
  -- converted to another media type, the expected manifest.
  abbrev pub IsMatch : Type 0
  IsMatch =
      SameDigests expected actual
      × HasSizes blobs (sizes_from actual []) expected
      × (expected_type ≡ actual_type → actual_digest ≡ img.target.manifest_digest)

  abbrev same_test : Bool
  same_test = is_nil (layer_set_diff expected actual).0 && is_nil (layer_set_diff expected actual).1

  abbrev digest_check : Result (Unit {0})
  digest_check =
      if expected_type == actual_type && not (actual_digest == img.target.manifest_digest)
      then err (apply_invariant_failed img.name [] [] "manifest digest mismatch")
      else ok tt

  different :
      same_test ≡ false
      → compare_layers img blobs (expected, expected_type) (actual, actual_type, actual_digest)
        ≢ ok tt
  unfolding compare_layers
  different q = rw (compare_layers, q) (λ h. ground arith)

  same_layers :
      same_test ≡ true
      → compare_layers img blobs (expected, expected_type) (actual, actual_type, actual_digest)
        ≡ (failed_for img.name (check_sizes blobs (sizes_from actual []) expected) >> digest_check)
  unfolding compare_layers verify_per_layer_size
  same_layers q = rw (compare_layers, q) refl

  digest_check_iff :
      (digest_check ≡ ok tt)
      ↔ (expected_type ≡ actual_type → actual_digest ≡ img.target.manifest_digest)
  digest_check_iff =
      ground
        (arith, eq_iff expected_type actual_type, eq_iff actual_digest img.target.manifest_digest)

  matches :
      same_test ≡ true
      → (compare_layers img blobs (expected, expected_type) (actual, actual_type, actual_digest)
          ≡ ok tt)
        ↔ IsMatch
  matches q =
      let same = (layer_set_diff-nil_iff expected actual).0 q in
      rw (same_layers q) (
        ground (
          arith,
          same,
          >>_iff (failed_for img.name (check_sizes blobs (sizes_from actual []) expected))
              digest_check tt,
          failed_for_iff img.name (check_sizes blobs (sizes_from actual []) expected),
          check_sizes_iff blobs (sizes_from actual []) expected,
          digest_check_iff,
        ))

  compare_layers_iff :
      (compare_layers img blobs (expected, expected_type) (actual, actual_type, actual_digest)
        ≡ ok tt)
      ↔ IsMatch
  compare_layers_iff = elim (Bool-cases same_test) [
    | inl q ↦ matches q
    | inr q ↦ (
      (λ h. absurd (different q h)),
      λ m. absurd (ground (arith, (layer_set_diff-nil_iff expected actual).1 m.0)),
    )
  ]

-- Where the bundle's target manifest and the destination's manifest can be read, verifyApplyInvariant
-- accepts exactly the images that have the expected layers, each in the size that the sidecar gives
-- (or the target manifest, where the sidecar gives none), and the expected manifest digest, unless
-- the media types differ.
pub verify_apply_invariant_iff :
    (lib : ManifestLib) (dig : Digester) (img : ImageEntry) (bundle : ExtractedBundle)
    (dest : FetchedManifest) (disk : Disk) (expected actual : List LayerRef)
    (expected_type actual_type actual_digest : String)
    → read_sidecar_target_layers lib dig bundle img disk ≡ ok (expected, expected_type)
    → read_dest_manifest_layers lib dig dest ≡ ok (actual, actual_type, actual_digest)
    → (verify_apply_invariant lib dig img bundle dest disk ≡ ok tt)
      ↔ IsMatch img
          (entries bundle.sidecar.blobs)
          expected
          actual
          expected_type
          actual_type
          actual_digest
unfolding verify_apply_invariant
verify_apply_invariant_iff lib dig img bundle dest disk expected actual expected_type actual_type
      actual_digest h k =
    rw (verify_apply_invariant, h, k)
      (compare_layers_iff img (entries bundle.sidecar.blobs) expected actual expected_type
        actual_type actual_digest)
