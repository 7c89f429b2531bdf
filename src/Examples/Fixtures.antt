-- ===== src/Examples/Fixtures.antt =====
-- A small zstd, the digests "aa", "bb", … and a work directory with the parts "t", "b" and "l".
use Prim.Native.String.{◌++◌}
use diffah.Base.{String, Option, none, some, [], ◌∷◌, ◌≡◌, ◌≢◌, arith, if◌then◌else◌, ◌==◌}
use diffah.Base.Int.{pos}
use diffah.Base.Disk.{Bytes, Disk}
use diffah.Diff.Types.{BlobRef, unknown}
use diffah.Diff.Errors.{Result, ok, err, message}
use diffah.Exporter.Types.{BaselineLayerMeta, Digester}
use diffah.Exporter.Codec.{EncodeOpts, Zstd}
use diffah.Exporter.Codec.RoundTrip.{IsZstd}
use diffah.Exporter.Fingerprint.{Fingerprint}
use diffah.Exporter.Planner.{Planner}
use diffah.Exporter.Pool.{BlobPool, Os}
use diffah.Exporter.Encode.{Encoder}

-- A patch is the byte 7 and then the target.
abbrev pub tiny_encode : EncodeOpts → Option Bytes → Bytes → Result Bytes
tiny_encode opts none b = err (message "no reference")
tiny_encode opts (some r) b = ok (7 ∷ b)

abbrev pub tiny_decode : Option Bytes → Bytes → Result Bytes
tiny_decode ref [] = err (message "no header")
tiny_decode ref (x ∷ b) = ok b

abbrev pub tiny_zstd : Zstd
tiny_zstd = record {
  encode = tiny_encode;
  decode = tiny_decode;
  full_size = λ opts b. ok (pos 50);
  empty_frame = 9 ∷ [];
}

pub tiny_zstd-IsZstd : IsZstd tiny_zstd
tiny_zstd-IsZstd = record {
  decode-encode = decodes;
  encode_not_empty = not_empty;
  has_header = header;
  empty_has_header = λ q. ground arith;
}
  where
    decodes :
        (opts : EncodeOpts) (ref : Option Bytes) (b p : Bytes)
        → tiny_encode opts ref b ≡ ok p
        → tiny_decode ref p ≡ ok b
    decodes opts none b p h = ground arith
    decodes opts (some r) b p h = ground arith

    not_empty :
        (opts : EncodeOpts) (ref : Option Bytes) (b p : Bytes)
        → tiny_encode opts ref b ≡ ok p
        → p ≢ 9 ∷ []
    not_empty opts none b p h = λ q. ground arith
    not_empty opts (some r) b p h = λ q. ground arith

    header :
        (opts : EncodeOpts) (ref : Option Bytes) (b p : Bytes)
        → tiny_encode opts ref b ≡ ok p
        → p ≢ []
    header opts none b p h = λ q. ground arith
    header opts (some r) b p h = λ q. ground arith

-- The hex text of a digest is one of two.
abbrev pub hex : String → String
hex d = if d == "bb" then "bb" else "aa"

abbrev pub two_digests : Digester
two_digests = record {
  from_bytes = λ b. "mm";
  encoded = hex;
  algorithm = λ d. "sha256";
  digest_as = λ d b. "aa";
}

abbrev pub calm_os : Os
calm_os = record {
  write_error = λ p. none;
  rename_error = λ p. none;
  create_error = λ p. none;
  sync_error = λ p. none;
  close_error = λ p. none;
  left_behind = λ p. none;
}

abbrev pub opts : EncodeOpts
opts = record { level = pos 3; window_log = pos 27 }

abbrev pub layer_a : BlobRef
layer_a = record {
  digest = "aa";
  size = pos 100;
  media_type = "layer";
  encoding = unknown "";
  codec = "";
  patch_from_digest = "";
  archive_size = pos 0;
}

abbrev pub baseline_b : BaselineLayerMeta
baseline_b = record { digest = "bb"; size = pos 90; media_type = "layer" }

abbrev pub read_baseline : String → Result String
read_baseline d = ok ("l/" ++ d)

abbrev pub planner_b : Planner
planner_b = record {
  baseline = baseline_b ∷ [];
  read_blob_path = read_baseline;
  fingerprints = [];
  level = pos 3;
  window_log = pos 27;
}

abbrev pub no_fingerprint : String → Fingerprint
no_fingerprint p = none

abbrev pub encoder : Encoder
encoder = record {
  os = calm_os;
  zstd = tiny_zstd;
  dig = two_digests;
  fingerprint_of = no_fingerprint;
  tmp_of = λ p. p ++ ".tmp";
  mode = "auto";
  level = pos 3;
  window_log = pos 27;
  candidates = pos 1;
  targets_dir = "t";
  blobs_dir = "b";
}

abbrev pub empty_pool : BlobPool
empty_pool = record { dir = "b"; spills = []; entries = []; ship_refs = [] }

-- The baseline's layer is on disk.
abbrev pub disk : Disk
disk = ("l/bb", 1 ∷ 2 ∷ []) ∷ []
