-- ===== src/Importer/Import/Closes.antt =====
-- What an import leaves open, and what it does where the signature is wrong.
use diffah.Base.{
  ℕ, String, none, some, List, ◌≡◌, ◌⊎◌, ◌≢◌, refl, ap, arith, eq_iff, ◌==◌, Bool-cases, inl, inr,
}
use diffah.Base.Map.{Map}
use diffah.Base.Disk.{Bytes, Disk}
use diffah.Diff.Errors.{Error, Result, ok, err, Result-cases, user_error, content}
use diffah.Importer.Manifest.{ExtractedBundle}
use diffah.Importer.Apply.{State, Site}
use diffah.Importer.Driver.{ImportOptions}
use diffah.Importer.Resolve.{Sources, Registry, Held, rewrite_default_key}
use diffah.Importer.Resolve.Releases.{
  IsFresh, Releases, close_resolved_baselines-live, resolve_baselines-Releases,
}
use diffah.Importer.Import.{
  Host, Request, Extraction, extract_bundle, verify_signature, pre_apply_checks, import_held,
  import_bundle, import_extracted, import_delta, cleaned, failed_with,
}

module _ {Dest : Type 0} (site : Site Dest) (reg : Registry) (host : Host) (req : Request)
    (opts : ImportOptions) (schedule : List String) where
  import_held-closes :
      (bundle : ExtractedBundle) (expanded : Map String) (before : Sources)
      (r : Result (List Held) × Sources) (st : State Dest) (h : ℕ)
      → Releases site reg expanded bundle.sidecar.images before r
      → (import_held site reg host req opts schedule bundle r st).1.live h ≡ before.live h
  unfolding import_held
  import_held-closes bundle expanded before (err e, sources) st h kept = kept h
  import_held-closes bundle expanded before (ok held, sources) st h (new, only, m) =
      ground (arith, close_resolved_baselines-live held sources h, new h, only h)

  import_bundle-closes :
      (x : Extraction) (st : State Dest) (sources : Sources) (h : ℕ)
      → IsFresh sources
      → (import_bundle site reg host req opts schedule x st sources).1.live h ≡ sources.live h
  unfolding import_bundle
  import_bundle-closes x st sources h fresh =
      elim (Result-cases (pre_apply_checks host req x.bundle.sidecar x.sidecar_raw)) [
        | inr (e, q) ↦ rw (import_bundle, q) refl
        | inl (_, q) ↦
            rw (import_bundle, q)
              (import_held-closes x.bundle
                (rewrite_default_key x.bundle.sidecar.images req.baselines) sources _ st h
                (resolve_baselines-Releases site reg x.bundle.sidecar.images req.baselines
                  opts.strict sources fresh))
      ]

  import_extracted-closes :
      (r : Result Extraction × Disk) (st : State Dest) (sources : Sources) (h : ℕ)
      → IsFresh sources
      → (import_extracted site reg host req opts schedule r st sources).1.live h ≡ sources.live h
  unfolding import_extracted cleaned
  import_extracted-closes (err e, disk) st sources h fresh = refl
  import_extracted-closes (ok x, disk) st sources h fresh =
      import_bundle-closes x (record st { disk = disk }) sources h fresh

  -- However an import ends, the image sources that are open after it are those that were open before:
  -- it closes every baseline that it has opened, and no other.
  pub import_delta-closes :
      (st : State Dest) (sources : Sources) (h : ℕ)
      → IsFresh sources
      → (import_delta site reg host req opts schedule st sources).1.live h ≡ sources.live h
  unfolding import_delta
  import_delta-closes st sources h fresh =
      import_extracted-closes (extract_bundle host req.delta_path st.disk) st sources h fresh

  pre_apply_checks-unverified :
      (x : Extraction) (e : Error)
      → req.verify_pub_key_path ≢ ""
      → verify_signature host req x.sidecar_raw ≡ err e
      → pre_apply_checks host req x.bundle.sidecar x.sidecar_raw ≡ err e
  unfolding pre_apply_checks
  pre_apply_checks-unverified x e keyed bad = elim (Bool-cases (req.verify_pub_key_path == "")) [
    | inl none_given ↦ absurd (keyed ((eq_iff req.verify_pub_key_path "").0 none_given))
    | inr given ↦ rw (pre_apply_checks, given, bad) refl
  ]

  import_bundle-refused :
      (x : Extraction) (st : State Dest) (sources : Sources) (e : Error)
      → pre_apply_checks host req x.bundle.sidecar x.sidecar_raw ≡ err e
      → import_bundle site reg host req opts schedule x st sources
        ≡ (failed_with site reg host req opts schedule e st, sources)
  unfolding import_bundle
  import_bundle-refused x st sources e q = rw (import_bundle, q) refl

  -- Why the signature of an archive is refused: its sidecar files cannot be read, there is no
  -- signature, the extracted sidecar has no digest, or the signature is not valid for that digest.
  abbrev pub IsRefused : Extraction → Error → Type 0
  IsRefused x e =
      (host.load_sidecars req.delta_path ≡ err e)
      ⊎ ((host.load_sidecars req.delta_path ≡ ok none)
          × (e ≡ user_error content "archive is not signed" ""))
      ⊎ ((sig : Bytes) × (host.load_sidecars req.delta_path ≡ ok (some sig))
          × ((host.payload_digest x.sidecar_raw ≡ err e)
              ⊎ ((payload : Bytes) × (host.payload_digest x.sidecar_raw ≡ ok payload)
                  × (host.verify req.verify_pub_key_path payload sig ≡ err e))))

  verify_signature-refused :
      (x : Extraction) (e : Error) → IsRefused x e → verify_signature host req x.sidecar_raw ≡ err e
  unfolding verify_signature
  verify_signature-refused x e (inl q) = rw (verify_signature, q) refl
  verify_signature-refused x e (inr (inl (q, same))) = rw (verify_signature, q, same) refl
  verify_signature-refused x e (inr (inr (sig, q, inl p))) = rw (verify_signature, q, p) refl
  verify_signature-refused x e (inr (inr (sig, q, inr (payload, p, v)))) =
      rw (verify_signature, q, p, v) refl

  -- With a key to verify, an archive that is not signed, or whose signature cannot be read or is not
  -- valid for the digest of the sidecar that was extracted, ends the import with that error: there is no report, no destination
  -- and no spool has changed, and no baseline has been opened.
  pub import_delta-unverified :
      (st : State Dest) (sources : Sources) (x : Extraction) (disk : Disk) (e : Error)
      → extract_bundle host req.delta_path st.disk ≡ (ok x, disk)
      → req.verify_pub_key_path ≢ ""
      → IsRefused x e
      → import_delta site reg host req opts schedule st sources ≡ (
        record {
          result = err e;
          report = none;
          state = record st { disk = host.remove_all x.tmp_dir disk };
        },
        sources,
      )
  unfolding import_delta import_extracted import_bundle cleaned
  import_delta-unverified st sources x disk e extracted keyed bad = rw extracted (
      ap (cleaned site reg host req opts schedule x.tmp_dir) (
        import_bundle-refused x (record st { disk = disk }) sources e
          (pre_apply_checks-unverified x e keyed (verify_signature-refused x e bad))))
