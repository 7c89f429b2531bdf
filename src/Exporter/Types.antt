-- ===== src/Exporter/Types.antt =====
-- The records of pkg/exporter/intralayer.go, pair.go and perpair.go. Image references, the system
-- context and the open image sources are left out: what is read through them is an argument where
-- it is used.
use diffah.Base.{String, List}
use diffah.Base.Int.{ℤ}
use diffah.Base.Disk.{Bytes}
use diffah.Diff.Types.{BlobRef}

pub record BaselineLayerMeta : Type 0 where
  pub digest : String
  pub size : ℤ
  pub media_type : String

pub record Pair : Type 0 where
  pub name : String
  pub baseline_ref : String
  pub target_ref : String

pub record PairPlan : Type 0 where
  pub name : String
  pub baseline_ref : String
  pub target_manifest : Bytes
  pub target_media_type : String
  pub target_layer_descs : List BlobRef
  pub target_config_raw : Bytes
  pub target_config_desc : BlobRef
  pub baseline_digests : List String
  pub baseline_manifest : Bytes
  pub baseline_media_type : String
  pub baseline_layer_meta : List BaselineLayerMeta
  pub shipped : List BlobRef
  pub required : List BlobRef

-- github.com/opencontainers/go-digest: FromBytes, Encoded, Algorithm, and the digest of bytes by the
-- algorithm of another digest.
pub record Digester : Type 0 where
  pub from_bytes : Bytes → String
  pub encoded : String → String
  pub algorithm : String → String
  pub digest_as : String → Bytes → String
