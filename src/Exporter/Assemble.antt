-- ===== src/Exporter/Assemble.antt =====
-- pkg/exporter/pair.go and assemble.go: the checks on the pairs, and the sidecar of a pool.
pub mod Valid
use Prim.Native.Char.{code, Char}
use Prim.Native.String.{◌++◌}
use diffah.Base.{
  ℕ, String, Bool, true, false, not, ◌&&◌, ◌||◌, Option, none, some, List, [], ◌∷◌, map, leb,
  contains, if◌then◌else◌, ◌==◌,
}
use diffah.Base.Disk.{byte_size}
use diffah.Diff.Types.{Sidecar, ImageEntry}
use diffah.Diff.Errors.{Result, ok, err, invalid_bundle_spec, duplicate_bundle_name}
use diffah.Diff.Sidecar.{schema_version_v1, feature_bundle}
use diffah.Exporter.Types.{Pair, PairPlan, Digester}
use diffah.Exporter.Pool.{BlobPool}

names_from : List String → List Pair → Result (Unit {0})
names_from seen [] = ok tt
names_from seen (p ∷ pairs) =
    if contains p.name seen
    then err (duplicate_bundle_name p.name)
    else names_from (p.name ∷ seen) pairs

-- ValidatePairs
unfoldable pub validate_pairs : List Pair → Result (Unit {0})
unfolding names_from
validate_pairs [] = err (invalid_bundle_spec "" "pairs must be non-empty")
validate_pairs (p ∷ pairs) = names_from [] (p ∷ pairs)

same_char : Char → Char → Bool
same_char c d = leb (code c) (code d) && leb (code d) (code c)

-- strings.CutPrefix: what follows the prefix.
cut_prefix : String → String → Option String
unfolding same_char
cut_prefix String.[] s = some s
cut_prefix (String.◌∷◌ c p) String.[] = none
cut_prefix (String.◌∷◌ c p) (String.◌∷◌ d s) = if same_char c d then cut_prefix p s else none

is_slash : Char → Bool
is_slash c = leb b'/' (code c) && leb (code c) b'/'

all_slashes : String → Bool
unfolding is_slash
all_slashes String.[] = true
all_slashes (String.◌∷◌ c s) = is_slash c && all_slashes s

last_part : String → String → String
unfolding is_slash all_slashes
last_part part String.[] = part
last_part part (String.◌∷◌ c s) =
    if not (is_slash c)
    then last_part (part ++ String.◌∷◌ c String.[]) s
    else if all_slashes s
    then part
    else last_part "" s

-- filepath.Base
base_name : String → String
unfolding all_slashes last_part
base_name s = if s == "" then "." else if all_slashes s then "/" else last_part "" s

first_prefix : List String → String → Option String
unfolding cut_prefix
first_prefix [] ref = none
first_prefix (p ∷ prefixes) ref = elim (cut_prefix p ref) [
  | some rest ↦ some rest
  | none ↦ first_prefix prefixes ref
]

-- sourceHintFor
unfoldable pub source_hint_for : String → String
unfolding cut_prefix first_prefix base_name
source_hint_for ref =
    elim (first_prefix ("docker-archive:" ∷ "oci-archive:" ∷ "oci:" ∷ "dir:" ∷ []) ref) [
      | some rest ↦ base_name rest
      | none ↦ elim (cut_prefix "docker://" ref) [ some rest ↦ rest | none ↦ ref ]
    ]

unfoldable pub image_entry : Digester → PairPlan → ImageEntry
image_entry dig p = record {
  name = p.name;
  baseline = record {
    manifest_digest = dig.from_bytes p.baseline_manifest;
    media_type = p.baseline_media_type;
    source_hint = source_hint_for p.baseline_ref;
  };
  target = record {
    manifest_digest = dig.from_bytes p.target_manifest;
    manifest_size = byte_size p.target_manifest;
    media_type = p.target_media_type;
  };
}

-- assembleSidecar
unfoldable pub assemble_sidecar :
    Digester → BlobPool → List PairPlan → String → String → ℕ → Sidecar
assemble_sidecar dig pool pairs platform tool_version created_at = record {
  version = schema_version_v1;
  feature = feature_bundle;
  tool = "diffah";
  tool_version = tool_version;
  created_at = created_at;
  platform = platform;
  blobs = some pool.entries;
  images = map (image_entry dig) pairs;
}
