-- ===== src/Diff/Specs.antt =====
-- pkg/diff/bundle_spec.go: the specifications of bundles, baselines and outputs. encoding/json and the
-- parser of image references are parameters, and the reasons in errors are not modelled.
pub mod Resolved
pub mod Accepted
use Prim.Native.String.{◌++◌}
use diffah.Base.{
  String, Bool, true, false, not, ◌||◌, Option, none, some, List, [], ◌∷◌, contains, cut_colon,
  if◌then◌else◌, ◌==◌,
}
use diffah.Base.Map.{Map, has}
use diffah.Base.Disk.{Bytes}
use diffah.Diff.Errors.{
  Error, Result, ok, err, ◌>>=◌, ◌>>◌, wrap, message, invalid_bundle_spec,
  bundle_spec_missing_transport, duplicate_bundle_name,
}
use diffah.Diff.Sidecar.{matches_name}
use diffah.Archive.Clean.{clean_parts, is_abs}

pub record BundlePairSpec : Type 0 where
  pub name : String
  pub baseline : String
  pub target : String

-- os.ReadFile and os.Stat's IsDir; json.Unmarshal into the three specifications and into a map of
-- raw messages, of which the keys are kept; and alltransports.ParseImageName.
pub record SpecLib : Type 0 where
  pub read_file : String → Result Bytes
  pub is_dir : String → Bool
  pub unmarshal_pairs : Bytes → Result (List BundlePairSpec)
  pub unmarshal_baselines : Bytes → Result (Map String)
  pub unmarshal_keys : Bytes → Result (Map (Unit {0}))
  pub unmarshal_outputs : Bytes → Result (Map String)
  pub parse_image_name : String → Option Error

invalid : {A : Type 0} → String → Result A → Result A
invalid path (ok a) = ok a
invalid path (err e) = err (invalid_bundle_spec path "")

join_parts : List String → String
join_parts [] = ""
join_parts (p ∷ []) = p
join_parts (p ∷ q ∷ parts) = p ++ ("/" ++ join_parts (q ∷ parts))

-- filepath.Clean
clean_text : String → String
unfolding join_parts
clean_text path =
    let parts = join_parts (clean_parts path) in
    if is_abs path then "/" ++ parts else if parts == "" then "." else parts

-- The path through its last separator.
directory_part : String → String
directory_part String.[] = ""
directory_part (String.◌∷◌ c s) =
    let rest = directory_part s in
    if rest == ""
    then (if is_abs (String.◌∷◌ c String.[]) then String.◌∷◌ c String.[] else "")
    else String.◌∷◌ c rest

-- filepath.Dir
unfoldable pub dir_of : String → String
unfolding clean_text directory_part
dir_of path = clean_text (directory_part path)

-- filepath.Join of a directory that is not empty and a relative path.
pub join_clean : String → String → String
unfolding clean_text
join_clean base path = clean_text (base ++ ("/" ++ path))

pub is_file_transport : String → Bool
is_file_transport t = t == "docker-archive" || t == "oci-archive" || t == "oci" || t == "dir"

pub resolved_path : String → String → String
unfolding join_clean
resolved_path base path = if not (is_abs path) then join_clean base path else path

pub resolved_rest : String → String → String
unfolding resolved_path
resolved_rest base rest = elim (cut_colon rest) [
  | none ↦ resolved_path base rest
  | some (path, tail) ↦ resolved_path base path ++ (":" ++ tail)
]

-- resolveTransportPrefixedPath
unfoldable pub resolve_transport_prefixed_path : String → String → String
unfolding resolved_rest is_file_transport
resolve_transport_prefixed_path base ref = elim (cut_colon ref) [
  | none ↦ ref
  | some (prefix, rest) ↦
      if is_file_transport prefix then prefix ++ (":" ++ resolved_rest base rest) else ref
]

module _ (lib : SpecLib) where
  -- validateTransportRef
  unfoldable pub validate_transport_ref : String → Result (Unit {0})
  validate_transport_ref ref = elim (cut_colon ref) [
    | none ↦ err (message "missing transport prefix")
    | some (transport, rest) ↦
        if transport == ""
        then err (message "missing transport prefix")
        else elim (lib.parse_image_name ref) [
          | none ↦ ok tt
          | some e ↦ err (wrap "invalid image reference" e)
        ]
  ]

  has_transport : String → String → Result (Unit {0})
  has_transport field ref = elim (validate_transport_ref ref) [
    | ok _ ↦ ok tt
    | err e ↦ err (bundle_spec_missing_transport field ref)
  ]

  -- One round of the loop of ParseBundleSpec.
  check_pair : String → List String → BundlePairSpec → Result (Unit {0})
  unfolding has_transport
  check_pair path seen p =
      if not (matches_name p.name)
      then err (invalid_bundle_spec path "")
      else if contains p.name seen
      then err (duplicate_bundle_name p.name)
      else if p.baseline == "" || p.target == ""
      then err (invalid_bundle_spec path "")
      else has_transport "baseline" p.baseline >> has_transport "target" p.target

  abbrev pub resolved_pair : String → BundlePairSpec → BundlePairSpec
  resolved_pair base p = record {
    name = p.name;
    baseline = resolve_transport_prefixed_path base p.baseline;
    target = resolve_transport_prefixed_path base p.target;
  }

  check_pairs : String → String → List String → List BundlePairSpec → Result (List BundlePairSpec)
  check_pairs path base seen [] = ok []
  check_pairs path base seen (p ∷ pairs) =
      check_pair path seen p
      >> (check_pairs path base (p.name ∷ seen) pairs >>= λ rest. ok (resolved_pair base p ∷ rest))

  some_pairs : String → List BundlePairSpec → Result (List BundlePairSpec)
  unfolding check_pairs check_pair
  some_pairs path [] = err (invalid_bundle_spec path "pairs must be non-empty")
  some_pairs path (p ∷ pairs) = check_pairs path (dir_of path) [] (p ∷ pairs)

  -- ParseBundleSpec
  unfoldable pub parse_bundle_spec : String → Result (List BundlePairSpec)
  unfolding some_pairs invalid
  parse_bundle_spec path = invalid path (lib.read_file path) >>= λ raw.
      invalid path (lib.unmarshal_pairs raw) >>= λ pairs. some_pairs path pairs

  check_refs : String → Map String → Result (Unit {0})
  unfolding invalid
  check_refs path [] = ok tt
  check_refs path ((name, ref) ∷ refs) =
      (if not (matches_name name)
        then err (invalid_bundle_spec path "")
        else invalid path (validate_transport_ref ref))
      >> check_refs path refs

  some_refs : String → Map String → Result (Map String)
  unfolding check_refs
  some_refs path [] = err (invalid_bundle_spec path "must be non-empty")
  some_refs path (r ∷ refs) = check_refs path (r ∷ refs) >> ok (r ∷ refs)

  -- ParseBaselineSpec
  unfoldable pub parse_baseline_spec : String → Result (Map String)
  unfolding some_refs invalid
  parse_baseline_spec path = invalid path (lib.read_file path) >>= λ raw.
      invalid path (lib.unmarshal_baselines raw) >>= λ refs. some_refs path refs

  with_outputs : String → Map (Unit {0}) → Result (Map String) → Result (Map String)
  unfolding some_refs invalid
  with_outputs path keys spec =
      if has "outputs" keys
      then (invalid path spec >>= λ refs. some_refs path refs)
      else err (invalid_bundle_spec path "missing required field \"outputs\"")

  -- ParseOutputSpec
  unfoldable pub parse_output_spec : String → Result (Map String)
  unfolding with_outputs invalid
  parse_output_spec path =
      if lib.is_dir path
      then err (invalid_bundle_spec path "OUTPUT-SPEC must be a JSON file, not a directory")
      else (invalid path (lib.read_file path) >>= λ raw.
          invalid path (lib.unmarshal_keys raw) >>= λ keys.
          with_outputs path keys (lib.unmarshal_outputs raw))
