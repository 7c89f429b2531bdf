-- ===== src/Examples/Specs.antt =====
-- A bundle specification with one pair.
use diffah.Base.{false, none, [], ◌∷◌, map, ◌≡◌, ◌≢◌, ◌↔◌, refl, All}
use diffah.Diff.Errors.{ok, err, message}
use diffah.Diff.Specs.{
  dir_of, BundlePairSpec, SpecLib, resolve_transport_prefixed_path, resolved_pair,
  parse_bundle_spec,
}
use diffah.Diff.Specs.Accepted.{IsGoodSpec, AreFresh, AreResolved, parse_bundle_spec_iff}
use diffah.Archive.Clean.{clean_parts, is_abs}
use diffah.Base.Text.{cut_colon}

abbrev pair : BundlePairSpec
pair = record { name = "app"; baseline = "oci:old:v1"; target = "docker://r/app" }

abbrev lib : SpecLib
lib = record {
  read_file = λ path. ok (1 ∷ []);
  is_dir = λ path. false;
  unmarshal_pairs = λ raw. ok (pair ∷ []);
  unmarshal_baselines = λ raw. err (message "no baselines");
  unmarshal_keys = λ raw. ok [];
  unmarshal_outputs = λ raw. err (message "no outputs");
  parse_image_name = λ ref. none;
}

parse_bundle_spec_example :
    (parse_bundle_spec lib "specs/b.json" ≡ ok (map (resolved_pair lib "specs") (pair ∷ []))) ↔ (
      ((pair ∷ []) ≢ [])
      × AreFresh lib "specs/b.json" [] (pair ∷ [])
      × All (IsGoodSpec lib "specs/b.json") (pair ∷ [])
      × AreResolved lib "specs/b.json" "specs"
          (pair ∷ [])
          (map (resolved_pair lib "specs") (pair ∷ [])))
unfolding dir_of clean_parts is_abs
parse_bundle_spec_example =
    parse_bundle_spec_iff lib "specs/b.json" (1 ∷ []) (pair ∷ [])
      (map (resolved_pair lib "specs") (pair ∷ [])) refl refl

-- A relative path is resolved against the directory, and the tag stays.
resolved : resolve_transport_prefixed_path "specs" "oci:old:v1" ≡ "oci:specs/old:v1"
unfolding resolve_transport_prefixed_path cut_colon clean_parts is_abs
resolved = refl
