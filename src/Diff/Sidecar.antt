-- ===== src/Diff/Sidecar.antt =====
-- pkg/diff/sidecar.go: the schema of diffah.json. The JSON codec is a parameter.
pub mod Schema
pub mod RoundTrip
use Prim.Native.Char.{code}
use diffah.Base.{
  ℕ, ◌+◌, String, Bool, true, false, not, ◌&&◌, ◌||◌, Option, none, some, List, [], ◌∷◌, leb,
  contains, if◌then◌else◌, ◌==◌,
}
use diffah.Base.Int.{ℤ, pos, leb_ℤ, eqb_ℤ}
use diffah.Base.Map.{Map, has}
use diffah.Diff.Types.{
  Encoding, full, patch, unknown, ImageEntry, BlobEntry, Sidecar, entries, is_patch,
}
use diffah.Diff.Errors.{
  Error, Result, ok, err, ◌>>=◌, ◌>>◌, wrap_err, sidecar_schema, SchemaReason, platform_required,
  blobs_required, images_empty, name_mismatch, name_duplicate, target_required, baseline_required,
  target_not_in_blobs, full_sets_patch_fields, patch_requires_codec, patch_requires_source,
  full_size_mismatch, patch_size_range, encoding_unknown, phase1_archive, unknown_bundle_version,
  invalid_bundle_format,
}

abbrev pub schema_version_v1 : String
schema_version_v1 = "v1"

abbrev pub feature_bundle : String
feature_bundle = "bundle"

-- nameRegex: ^[a-zA-Z0-9][a-zA-Z0-9_.-]*$
is_alnum : ℕ → Bool
is_alnum c = (leb b'a' c && leb c b'z') || (leb b'A' c && leb c b'Z') || (leb b'0' c && leb c b'9')

is_name_char : ℕ → Bool
unfolding is_alnum
is_name_char c = is_alnum c || (leb b'-' c && leb c b'.') || (leb b'_' c && leb c b'_')

all_name_chars : String → Bool
unfolding is_name_char
all_name_chars String.[] = true
all_name_chars (String.◌∷◌ c s) = is_name_char (code c) && all_name_chars s

unfoldable pub matches_name : String → Bool
unfolding is_alnum all_name_chars
matches_name String.[] = false
matches_name (String.◌∷◌ c s) = is_alnum (code c) && all_name_chars s

pub schema : {A : Type 0} → SchemaReason → Result A
schema r = err (sidecar_schema r)

-- validateBlobEntry
unfoldable pub validate_blob_entry : String → BlobEntry → Result (Unit {0})
unfolding schema
validate_blob_entry d b = elim (b.encoding) [
  | full ↦
      if not (b.codec == "") || not (b.patch_from_digest == "")
      then schema (full_sets_patch_fields d)
      else if not (eqb_ℤ b.archive_size b.size)
      then schema (full_size_mismatch d b.archive_size b.size)
      else ok tt
  | patch ↦
      if b.codec == ""
      then schema (patch_requires_codec d)
      else if b.patch_from_digest == ""
      then schema (patch_requires_source d)
      else if leb_ℤ b.archive_size (pos 0) || leb_ℤ b.size b.archive_size
      then schema (patch_size_range d b.archive_size b.size)
      else ok tt
  | unknown s ↦ schema (encoding_unknown d (unknown s))
]

-- One round of the loop over `s.Images`, at index `i` with the names seen so far.
unfoldable pub validate_image : Map BlobEntry → ℕ → List String → ImageEntry → Result (Unit {0})
unfolding schema
validate_image blobs i seen img =
    if not (matches_name img.name)
    then schema (name_mismatch i img.name)
    else if contains img.name seen
    then schema (name_duplicate i img.name)
    else if img.target.manifest_digest == ""
    then schema (target_required i)
    else if not (has img.target.manifest_digest blobs)
    then schema (target_not_in_blobs i img.target.manifest_digest)
    else if img.baseline.manifest_digest == ""
    then schema (baseline_required i)
    else ok tt

unfoldable pub validate_images :
    Map BlobEntry → ℕ → List String → List ImageEntry → Result (Unit {0})
validate_images blobs i seen [] = ok tt
validate_images blobs i seen (img ∷ images) = do
  validate_image blobs i seen img
  validate_images blobs (i + 1) (img.name ∷ seen) images

-- The loop over `s.Blobs`, in the map's iteration order.
unfoldable pub validate_blobs : Map BlobEntry → Result (Unit {0})
validate_blobs [] = ok tt
validate_blobs ((d, b) ∷ blobs) = do validate_blob_entry d b; validate_blobs blobs

validate_parts : Map BlobEntry → List ImageEntry → Result (Unit {0})
unfolding schema
validate_parts blobs [] = schema images_empty
validate_parts blobs (img ∷ images) = do
  validate_images blobs 0 [] (img ∷ images)
  validate_blobs blobs

-- Sidecar.validate
unfoldable pub validate : Sidecar → Result (Unit {0})
unfolding schema validate_parts
validate s =
    if s.platform == ""
    then schema platform_required
    else elim (s.blobs) [ none ↦ schema blobs_required | some m ↦ validate_parts m s.images ]

any_patch : Map BlobEntry → Bool
any_patch [] = false
any_patch ((d, b) ∷ blobs) = is_patch b.encoding || any_patch blobs

-- Sidecar.RequiresZstd
unfoldable pub requires_zstd : Sidecar → Bool
unfolding any_patch
requires_zstd s = any_patch (entries s.blobs)

-- encoding/json at the type Sidecar.
pub record Json : Type 1 where
  pub Bytes : Type 0
  pub marshal_indent : Sidecar → Result Bytes
  pub unmarshal : Bytes → Result Sidecar

module _ (json : Json) where
  open json use {Bytes, marshal_indent, unmarshal}

  -- Sidecar.Marshal
  unfoldable pub marshal : Sidecar → Result Bytes
  marshal s = do validate s; wrap_err "marshal sidecar" (marshal_indent s)

  as_format_error : Result Sidecar → Result Sidecar
  as_format_error (ok s) = ok s
  as_format_error (err e) = err (invalid_bundle_format e)

  check_parsed : Sidecar → Result Sidecar
  check_parsed s =
      if not (s.feature == feature_bundle)
      then err (phase1_archive s.feature)
      else if not (s.version == schema_version_v1)
      then err (unknown_bundle_version s.version)
      else (do validate s; ok s)

  -- ParseSidecar; its probe for unknown fields only writes to the log.
  unfoldable pub parse_sidecar : Bytes → Result Sidecar
  unfolding as_format_error check_parsed
  parse_sidecar raw = do s ← as_format_error (unmarshal raw); check_parsed s
