-- ===== src/Exporter/Planner/Choice.antt =====
-- PlanShippedTopK from its call to its result.
use diffah.Base.{String, some, List, [], ◌∷◌, ◌≡◌, ◌≢◌, refl, ap, sym, ◌∙◌, inl, inr, ◌⊎◌, In, All}
use diffah.Base.Int.{ℤ, pos}
use diffah.Base.Map.{lookup, has}
use diffah.Base.Disk.{Bytes, Disk}
use diffah.Diff.Types.{BlobRef}
use diffah.Diff.Errors.{Error, Result, ok, err, wrap, Result-cases}
use diffah.Exporter.Types.{BaselineLayerMeta, Digester}
use diffah.Exporter.Codec.{Zstd, encode_full_stream}
use diffah.Exporter.Fingerprint.{Fingerprint}
use diffah.Exporter.Planner.{
  Planner, Best, encode_opts, start, try_candidates, task, plan_candidates, plan_shipped_top_k,
  ensure_baseline_fp, pick_top_k,
}
use diffah.Exporter.Planner.Trial.{Holds}
use diffah.Exporter.Planner.Round.{IsHopeless}
use diffah.Exporter.Planner.Winner.{IsUsable, try_candidates-Ends}

module _ (p : Planner) (zstd : Zstd) (dig : Digester) (s : BlobRef) (target_path blobs_dir : String)
    (d0 : Disk) (target : Bytes) (full_size : ℤ) where
  -- The call answers with the best of the loop, or fails: for the measuring of the whole layer, or
  -- for a candidate that no patch can be made against. A failure leaves the files that are no
  -- candidate's as they were.
  abbrev pub Answers : Result (BlobRef × String) × Disk → List BaselineLayerMeta → Type 0
  Answers answer cands =
      let t = task p zstd dig s target_path blobs_dir full_size in
      ((best : Best) × (d : Disk) × (answer ≡ (ok (best.entry, best.path), d))
        × Holds t d0 target cands best d)
      ⊎ ((e : Error) × (d : Disk) × (answer ≡ (err e, d))
          × (((c : BaselineLayerMeta) × In c cands × IsHopeless t d0 target c)
              ⊎ ((e' : Error) × (zstd.full_size t.opts target ≡ err e')))
          × ((x : String) → All (λ c. t.path_of c ≢ x) cands → lookup x d ≡ lookup x d0))

  finish : Result Best × Disk → Result (BlobRef × String) × Disk
  finish x = elim (x.0) [ err e ↦ (err e, x.1) | ok best ↦ (ok (best.entry, best.path), x.1) ]

  after_loop :
      (c : BaselineLayerMeta) (cands : List BaselineLayerMeta)
      → let t = task p zstd dig s target_path blobs_dir full_size in
        lookup target_path d0 ≡ some target
        → zstd.full_size t.opts target ≡ ok full_size
        → plan_candidates p zstd dig s target_path blobs_dir (c ∷ cands) d0
          ≡ finish (try_candidates t (c ∷ cands) (start t) d0)
  unfolding plan_candidates encode_full_stream finish
  after_loop c cands there measured = rw (plan_candidates, encode_full_stream, there, measured) refl

  unmeasured :
      (c : BaselineLayerMeta) (cands : List BaselineLayerMeta) (e' : Error)
      → lookup target_path d0 ≡ some target
      → zstd.full_size (task p zstd dig s target_path blobs_dir full_size).opts target ≡ err e'
      → plan_candidates p zstd dig s target_path blobs_dir (c ∷ cands) d0
        ≡ (err (wrap "size-only full encode" e'), d0)
  unfolding plan_candidates encode_full_stream
  unmeasured c cands e' there fails = rw (plan_candidates, encode_full_stream, there, fails) refl

  -- Measuring the whole layer gives its size or fails.
  abbrev IsMeasured : Type 0
  IsMeasured =
      let t = task p zstd dig s target_path blobs_dir full_size in
      (zstd.full_size t.opts target ≡ ok full_size)
      ⊎ ((e' : Error) × (zstd.full_size t.opts target ≡ err e'))

  plan_candidates-Answers :
      (cands : List BaselineLayerMeta)
      → IsMeasured
      → IsUsable (task p zstd dig s target_path blobs_dir full_size) d0 target cands
      → Answers (plan_candidates p zstd dig s target_path blobs_dir cands d0) cands
  unfolding plan_candidates start finish
  plan_candidates-Answers [] measured usable = inl (
    start (task p zstd dig s target_path blobs_dir full_size),
    d0,
    refl,
    record { frame = λ x h. refl; chosen = inl refl; minimal = tt; clean = tt },
  )
  plan_candidates-Answers (c ∷ cands) (inr (e', fails)) usable = inr (
    wrap "size-only full encode" e',
    d0,
    unmeasured c cands e' usable.there fails,
    inr (e', fails),
    λ x h. refl,
  )
  plan_candidates-Answers (c ∷ cands) (inl measured) usable =
      let t = task p zstd dig s target_path blobs_dir full_size in
      let same = after_loop c cands usable.there measured in
      elim (try_candidates-Ends t d0 target (c ∷ cands) usable) [
        | inl (best, d, runs, holds) ↦ inl (best, d, same ∙ ap finish runs, holds)
        | inr (e, d, runs, why, frame) ↦ inr (e, d, same ∙ ap finish runs, inl why, frame)
      ]

past_open :
    (p : Planner) (zstd : Zstd) (dig : Digester) (fingerprint_of : String → Fingerprint)
    (s : BlobRef) (target_path blobs_dir : String) (k : ℤ) (d0 : Disk) (target : Bytes)
    → let p' = ensure_baseline_fp fingerprint_of p in
      lookup target_path d0 ≡ some target
      → plan_shipped_top_k p zstd dig fingerprint_of s target_path blobs_dir k d0
        ≡ plan_candidates p' zstd dig s target_path blobs_dir
            (pick_top_k p' (fingerprint_of target_path) s.size k)
            d0
unfolding plan_shipped_top_k
past_open p zstd dig fingerprint_of s target_path blobs_dir k d0 target there =
    rw (plan_shipped_top_k, has, there) refl

-- The size of the whole layer's encoding, and 0 where it cannot be measured.
abbrev pub measured_size : Planner → Zstd → BlobRef → Bytes → ℤ
measured_size p zstd s target = elim (zstd.full_size (encode_opts p s) target) [
  | ok n ↦ n
  | err e ↦ pos 0
]

measured_ok :
    (p : Planner) (zstd : Zstd) (s : BlobRef) (target : Bytes) (n : ℤ)
    → zstd.full_size (encode_opts p s) target ≡ ok n
    → zstd.full_size (encode_opts p s) target ≡ ok (measured_size p zstd s target)
measured_ok p zstd s target n q = q ∙ ap (λ r. ok (elim r [ ok m ↦ m | err e ↦ pos 0 ])) (sym q)

-- PlanShippedTopK, for a target on disk and candidates with separate files: the entry, the payload's
-- path and the files afterwards are the best that the loop over the top `k` baseline layers ends with,
-- or the call fails, since the full encoding cannot be measured or there is a candidate that no patch
-- can be made against, and the files of no candidate are unchanged. The best is the whole layer at
-- the target's path, or a patch that is on disk and smaller than the full encoding and the layer; no
-- candidate's patch improves on it; the other candidates' files are gone.
pub plan_shipped_top_k-Answers :
    (p : Planner) (zstd : Zstd) (dig : Digester) (fingerprint_of : String → Fingerprint)
    (s : BlobRef) (target_path blobs_dir : String) (k : ℤ) (d0 : Disk) (target : Bytes)
    → let p' = ensure_baseline_fp fingerprint_of p in
      let full_size = measured_size p' zstd s target in
      let cands = pick_top_k p' (fingerprint_of target_path) s.size k in
      IsUsable (task p' zstd dig s target_path blobs_dir full_size) d0 target cands
      → Answers p' zstd dig s target_path blobs_dir d0 target full_size
          (plan_shipped_top_k p zstd dig fingerprint_of s target_path blobs_dir k d0)
          cands
plan_shipped_top_k-Answers p zstd dig fingerprint_of s target_path blobs_dir k d0 target usable =
    let p' = ensure_baseline_fp fingerprint_of p in
    let cands = pick_top_k p' (fingerprint_of target_path) s.size k in
    let opened =
      past_open p zstd dig fingerprint_of s target_path blobs_dir k d0 target usable.there in
    elim (plan_candidates-Answers p' zstd dig s target_path blobs_dir d0 target
      (measured_size p' zstd s target) cands measured usable) [
        | inl (best, d, runs, holds) ↦ inl (best, d, opened ∙ runs, holds)
        | inr (e, d, runs, why, frame) ↦ inr (e, d, opened ∙ runs, why, frame)
      ]
  where
    measured :
        let q = zstd.full_size (encode_opts (ensure_baseline_fp fingerprint_of p) s) target in
        (q ≡ ok (measured_size (ensure_baseline_fp fingerprint_of p) zstd s target))
        ⊎ ((e : Error) × (q ≡ err e))
    measured =
        elim (Result-cases
          (zstd.full_size (encode_opts (ensure_baseline_fp fingerprint_of p) s) target)) [
            | inl (n, q) ↦ inl (measured_ok (ensure_baseline_fp fingerprint_of p) zstd s target n q)
            | inr (e, q) ↦ inr (e, q)
          ]
