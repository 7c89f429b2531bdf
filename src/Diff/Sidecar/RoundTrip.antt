-- ===== src/Diff/Sidecar/RoundTrip.antt =====
-- Marshal and ParseSidecar, over a JSON codec that decodes what it encoded.
use diffah.Base.{true, [], ◌∷◌, ◌≡◌, ◌≢◌, ◌↔◌, ap, eq_iff, arith, All, text_ltb}
use diffah.Base.Map.{Map}
use diffah.Diff.Types.{BlobEntry, Sidecar, unknown, entries}
use diffah.Diff.Errors.{Result, ok, err, ◌>>=◌}
use diffah.Diff.Sidecar.{
  Json, schema_version_v1, feature_bundle, validate, marshal, parse_sidecar, check_parsed,
  as_format_error,
}
use diffah.Diff.Sidecar.Schema.{IsSchemaValid, validate_iff}

abbrev pub HasSortedKeys : Map BlobEntry → Type 0
HasSortedKeys [] = Unit
HasSortedKeys ((d, e) ∷ m) = All (λ x. text_ltb d x.0 ≡ true) m × HasSortedKeys m

-- The one form in which a sidecar is written: the blobs in the order of their digests, each digest
-- once, and the known encodings under their own constructors.
abbrev pub IsCanonical : Sidecar → Type 0
IsCanonical s =
    HasSortedKeys (entries s.blobs)
    × All (λ x. (x.1.encoding ≢ unknown "full") × (x.1.encoding ≢ unknown "patch"))
        (entries s.blobs)

module _ (json : Json) where
  -- What encoding/json promises: a sidecar in that form is decoded to itself.
  abbrev pub IsFaithful : Type 0
  IsFaithful =
      (s : Sidecar) (raw : json.Bytes)
      → IsCanonical s
      → json.marshal_indent s ≡ ok raw
      → json.unmarshal raw ≡ ok s

  -- Over a JSON codec that decodes what it has encoded, for a sidecar in canonical form, of the feature
  -- "bundle" and the version "v1": what Marshal has written, ParseSidecar reads back unchanged. That
  -- the sidecar meets the schema is no condition, since Marshal checks it.
  pub parse_sidecar-marshal :
      (faithful : IsFaithful) (s : Sidecar) (raw : json.Bytes)
      → IsCanonical s
      → s.feature ≡ feature_bundle
      → s.version ≡ schema_version_v1
      → marshal json s ≡ ok raw
      → parse_sidecar json raw ≡ ok s
  unfolding marshal parse_sidecar
  parse_sidecar-marshal faithful s raw canonical f v h = ground (
    arith,
    faithful s raw canonical,
    eq_iff s.feature feature_bundle,
    eq_iff s.version schema_version_v1,
  )

  check_parsed_iff :
      (s t : Sidecar)
      → (check_parsed json s ≡ ok t) ↔ (
          (s ≡ t)
          × (s.feature ≡ feature_bundle)
          × (s.version ≡ schema_version_v1)
          × (validate s ≡ ok tt))
  unfolding check_parsed
  check_parsed_iff s t =
      ground (arith, eq_iff s.feature feature_bundle, eq_iff s.version schema_version_v1)

  parsed_iff :
      (r : Result Sidecar) (s : Sidecar)
      → ((as_format_error json r >>= check_parsed json) ≡ ok s) ↔ (
          (r ≡ ok s)
          × (s.feature ≡ feature_bundle)
          × (s.version ≡ schema_version_v1)
          × (validate s ≡ ok tt))
  unfolding as_format_error
  parsed_iff (ok t) s =
      let c = check_parsed_iff t s in
      (
        λ h. let (e, f, v, w) = c.0 h in (ap ok e, rw e at f, rw e at v, rw e at w),
        λ (e, f, v, w). let d : t ≡ s = cc in c.1 (d, rw d f, rw d v, rw d w),
      )
  parsed_iff (err x) s = ground arith

  -- ParseSidecar returns a sidecar exactly when the bytes decode to it and it is of feature
  -- "bundle" and version "v1" and meets the schema.
  pub parse_sidecar_iff :
      (raw : json.Bytes) (s : Sidecar)
      → (parse_sidecar json raw ≡ ok s) ↔ (
          (json.unmarshal raw ≡ ok s)
          × (s.feature ≡ feature_bundle)
          × (s.version ≡ schema_version_v1)
          × IsSchemaValid s)
  unfolding parse_sidecar
  parse_sidecar_iff raw s =
      let p = parsed_iff (json.unmarshal raw) s in
      (
        λ h. let (e, f, v, w) = p.0 h in (e, f, v, (validate_iff s).0 w),
        λ (e, f, v, w). p.1 (e, f, v, (validate_iff s).1 w),
      )
