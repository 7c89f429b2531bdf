-- ===== src/Diff/Types.antt =====
-- The records of pkg/diff/plan.go and pkg/diff/sidecar.go. A digest is the text that the source
-- keeps, such as "sha256:9f86…"; sizes are signed, as they may be read from JSON.
use diffah.Base.{ℕ, String, Bool, true, false, Option, none, some, List, []}
use diffah.Base.Int.{ℤ}
use diffah.Base.Map.{Map}

-- `unknown s` is any text other than "full" and "patch", the zero value "" included.
pub data Encoding : Type 0 where
  full patch : Encoding
  unknown : String → Encoding

pub record BlobRef : Type 0 where
  pub digest : String
  pub size : ℤ
  pub media_type : String
  pub encoding : Encoding
  pub codec : String
  pub patch_from_digest : String
  pub archive_size : ℤ

pub record TargetRef : Type 0 where
  pub manifest_digest : String
  pub manifest_size : ℤ
  pub media_type : String

pub record BaselineRef : Type 0 where
  pub manifest_digest : String
  pub media_type : String
  pub source_hint : String

pub record ImageEntry : Type 0 where
  pub name : String
  pub baseline : BaselineRef
  pub target : TargetRef

pub record BlobEntry : Type 0 where
  pub size : ℤ
  pub media_type : String
  pub encoding : Encoding
  pub codec : String
  pub patch_from_digest : String
  pub archive_size : ℤ

-- `blobs` is `none` for a nil map. `created_at` counts seconds, and 0 is the zero time.
pub record Sidecar : Type 0 where
  pub version : String
  pub feature : String
  pub tool : String
  pub tool_version : String
  pub created_at : ℕ
  pub platform : String
  pub blobs : Option (Map BlobEntry)
  pub images : List ImageEntry

-- What reading the map gives: a nil map reads as an empty one.
abbrev pub entries : Option (Map BlobEntry) → Map BlobEntry
entries none = []
entries (some m) = m

abbrev pub is_patch : Encoding → Bool
is_patch patch = true
is_patch _ = false
