-- ===== src/Diff/Sidecar/Schema.antt =====
-- The schema of a sidecar, stated without reference to the order of the checks, and the proof that
-- Sidecar.validate accepts exactly the sidecars that meet it.
use diffah.Base.{
  ℕ, ◌+◌, String, true, none, some, List, [], ◌∷◌, ◌≡◌, ◌≢◌, ◌↔◌, ◌⊎◌, arith, All, In, Option-cases,
  inl, inr, contains_iff, eq_iff,
}
use diffah.Base.Int.{pos, ◌<ℤ◌, eq_of_parts}
use diffah.Base.Map.{Map, has}
use diffah.Diff.Types.{full, patch, ImageEntry, BlobEntry, Sidecar}
use diffah.Diff.Errors.{ok, >>_iff}
use diffah.Diff.Sidecar.{
  matches_name, validate_blob_entry, validate_image, validate_images, validate_blobs, validate,
  validate_parts,
}

-- A full blob is stored as it is; a patch names its codec and source, and is smaller.
abbrev pub IsGoodBlob : BlobEntry → Type 0
IsGoodBlob b =
    ((b.encoding ≡ full) × (b.codec ≡ "") × (b.patch_from_digest ≡ "") × (b.archive_size ≡ b.size))
    ⊎ ((b.encoding ≡ patch)
        × (b.codec ≢ "")
        × (b.patch_from_digest ≢ "")
        × (pos 0 <ℤ b.archive_size)
        × (b.archive_size <ℤ b.size))

abbrev pub IsGoodImage : Map BlobEntry → ImageEntry → Type 0
IsGoodImage blobs img =
    (matches_name img.name ≡ true)
    × (img.target.manifest_digest ≢ "")
    × (has img.target.manifest_digest blobs ≡ true)
    × (img.baseline.manifest_digest ≢ "")

-- No name occurs twice, nor among `seen`.
abbrev pub IsFresh : List String → List ImageEntry → Type 0
IsFresh seen [] = Unit
IsFresh seen (img ∷ images) = (¬ In img.name seen) × IsFresh (img.name ∷ seen) images

pub record IsSchemaValid (s : Sidecar) : Type 0 where
  pub blobs : Map BlobEntry
  pub has_platform : s.platform ≢ ""
  pub has_blobs : s.blobs ≡ some blobs
  pub has_images : s.images ≢ []
  pub good_images : All (IsGoodImage blobs) s.images
  pub distinct_names : IsFresh [] s.images
  pub good_blobs : All (λ e. IsGoodBlob e.1) blobs

pub validate_blob_entry_iff :
    (d : String) (b : BlobEntry) → (validate_blob_entry d b ≡ ok tt) ↔ IsGoodBlob b
unfolding validate_blob_entry
validate_blob_entry_iff d b =
    ground
      (arith, eq_iff b.codec "", eq_iff b.patch_from_digest "", eq_of_parts b.archive_size b.size)

validate_blobs_iff : (m : Map BlobEntry) → (validate_blobs m ≡ ok tt) ↔ All (λ e. IsGoodBlob e.1) m
unfolding validate_blobs
validate_blobs_iff [] = ground arith
validate_blobs_iff ((d, b) ∷ m) = ground (
  arith,
  >>_iff (validate_blob_entry d b) (validate_blobs m) tt,
  validate_blob_entry_iff d b,
  validate_blobs_iff m,
)

validate_image_iff :
    (m : Map BlobEntry) (i : ℕ) (seen : List String) (img : ImageEntry)
    → (validate_image m i seen img ≡ ok tt) ↔ (IsGoodImage m img × (¬ In img.name seen))
unfolding validate_image
validate_image_iff m i seen img = ground (
  arith,
  contains_iff img.name seen,
  eq_iff img.target.manifest_digest "",
  eq_iff img.baseline.manifest_digest "",
)

validate_images_iff :
    (m : Map BlobEntry) (i : ℕ) (seen : List String) (images : List ImageEntry)
    → (validate_images m i seen images ≡ ok tt) ↔ (All (IsGoodImage m) images × IsFresh seen images)
unfolding validate_images
validate_images_iff m i seen [] = ground arith
validate_images_iff m i seen (img ∷ images) = ground (
  arith,
  >>_iff (validate_image m i seen img) (validate_images m (i + 1) (img.name ∷ seen) images) tt,
  validate_image_iff m i seen img,
  validate_images_iff m (i + 1) (img.name ∷ seen) images,
)

validate_parts_iff :
    (m : Map BlobEntry) (images : List ImageEntry)
    → (validate_parts m images ≡ ok tt) ↔ (
        (images ≢ [])
        × All (IsGoodImage m) images
        × IsFresh [] images
        × All (λ e. IsGoodBlob e.1) m)
unfolding validate_parts
validate_parts_iff m [] = ground arith
validate_parts_iff m (img ∷ images) = ground (
  arith,
  >>_iff (validate_images m 0 [] (img ∷ images)) (validate_blobs m) tt,
  validate_images_iff m 0 [] (img ∷ images),
  validate_blobs_iff m,
)

validate-none : (s : Sidecar) → s.blobs ≡ none → validate s ≢ ok tt
unfolding validate
validate-none s e h = ground arith

validate-some :
    (s : Sidecar) (m : Map BlobEntry)
    → s.blobs ≡ some m
    → (validate s ≡ ok tt) ↔ ((s.platform ≢ "") × (validate_parts m s.images ≡ ok tt))
unfolding validate
validate-some s m e = ground (arith, eq_iff s.platform "")

validate_sound : (s : Sidecar) → validate s ≡ ok tt → IsSchemaValid s
validate_sound s h = elim (Option-cases s.blobs) [
  | inl e ↦ absurd (validate-none s e h)
  | inr (m, e) ↦
      let (platform, parts) = (validate-some s m e).0 h in
      let (images, good, fresh, blobs) = (validate_parts_iff m s.images).0 parts in
      record {
        blobs = m;
        has_platform = platform;
        has_blobs = e;
        has_images = images;
        good_images = good;
        distinct_names = fresh;
        good_blobs = blobs;
      }
]

-- `validate` returns no error exactly for the sidecars that meet the schema: a platform; a non-nil
-- blob map; at least one image; every image with a well-formed and unrepeated name, a non-empty
-- baseline manifest digest and a non-empty target manifest digest that is a blob; every blob either
-- full, unpatched and of its own size, or a patch with codec and source that is smaller than the
-- blob and not empty.
pub validate_iff : (s : Sidecar) → (validate s ≡ ok tt) ↔ IsSchemaValid s
validate_iff s = (
  validate_sound s,
  λ v. (validate-some s v.blobs v.has_blobs).1 (
    v.has_platform,
    (validate_parts_iff v.blobs s.images).1
        (v.has_images, v.good_images, v.distinct_names, v.good_blobs),
  ),
)
