-- ===== src/Exporter/Planner/Round.antt =====
-- One round of the loop of PlanShippedTopK: it keeps the state, or it fails.
use diffah.Base.{String, eq_iff, some, List, ◌∷◌, ◌≡◌, ◌≢◌, ◌⊎◌, refl, ap, inl, inr, All, arith}
use diffah.Base.Map.{lookup, remove, lookup-remove}
use diffah.Base.Disk.{Bytes, Disk}
use diffah.Diff.Errors.{Error, Result, ok, err, wrap, Result-cases}
use diffah.Exporter.Types.{BaselineLayerMeta}
use diffah.Exporter.Codec.{patch_bytes, encode_stream}
use diffah.Exporter.Planner.{Best, Task, try_candidate, try_candidates}
use diffah.Exporter.Planner.Trial.{IsPatch, Holds, IsApart, settled, settle-Settled}
use diffah.Exporter.Planner.Step.{frame_step, IsChosen-step, minimal_step, clean_step}

module _ (t : Task) (d0 : Disk) (target : Bytes) where
  -- A round with a patch for its layer returns, and keeps the state.
  pub round-Holds :
      (done : List BaselineLayerMeta) (c : BaselineLayerMeta) (p : Bytes) (best : Best) (d : Disk)
      → lookup t.target_path d0 ≡ some target
      → IsApart t d0 target done c
      → IsPatch t d0 target c p
      → Holds t d0 target done best d
      → let s = settled t d0 target c p best d in
        (try_candidate t c best d ≡ (ok s.0, s.1)) × Holds t d0 target (c ∷ done) s.0 s.1
  unfolding try_candidate encode_stream
  round-Holds done c p best d there apart made holds =
      let s = settled t d0 target c p best d in
      let outcome = settle-Settled t d0 target c p best d in
      (
        ground (
          arith,
          made.read,
          made.encoded,
          holds.frame t.target_path apart.target_done,
          holds.frame made.ref_path (apart.read_done made.ref_path made.read),
        ),
        record {
          frame = frame_step t d0 target done c p best s.0 d s.1 apart holds made outcome;
          chosen = IsChosen-step t d0 target done c p best s.0 d s.1 apart holds made outcome;
          minimal = minimal_step t d0 target done c p best s.0 d s.1 apart holds made outcome;
          clean = clean_step t d0 target done c p best s.0 d s.1 apart holds made outcome;
        },
      )

  -- No patch for the target can be made against the layer.
  abbrev pub IsHopeless : BaselineLayerMeta → Type 0
  IsHopeless c = (p : Bytes) → ¬ IsPatch t d0 target c p

  -- A round without a patch for its layer fails, and leaves the files of no candidate alone.
  pub round_fails :
      (done : List BaselineLayerMeta) (c : BaselineLayerMeta) (best : Best) (d : Disk)
      → lookup t.target_path d0 ≡ some target
      → IsApart t d0 target done c
      → Holds t d0 target done best d
      → ((p : Bytes) × IsPatch t d0 target c p)
        ⊎ ((e : Error) × (d' : Disk) × (try_candidate t c best d ≡ (err e, d'))
            × IsHopeless c
            × ((x : String) → All (λ e. t.path_of e ≢ x) (c ∷ done) → lookup x d' ≡ lookup x d0))
  unfolding try_candidate encode_stream
  round_fails done c best d there apart holds = elim (Result-cases (t.read_blob_path c.digest)) [
    | inr (e, r) ↦ inr (
      wrap "baseline path" e,
      d,
      rw (try_candidate, r) refl,
      (λ p h. ground (arith, h.read)),
      λ x (ne, nes). holds.frame x nes,
    )
    | inl (ref, r) ↦ elim (Result-cases (patch_bytes t.zstd t.opts (lookup ref d0) target)) [
      | inl (p, q) ↦ inl (p, record { ref_path = ref; read = r; encoded = q })
      | inr (e, q) ↦
          let same = holds.frame ref (apart.read_done ref r) in
          let target_same = holds.frame t.target_path apart.target_done in
          inr (
            wrap "encode patch" e,
            remove (t.path_of c) (remove (t.path_of c) d),
            ground arith,
            (λ p h. hopeless p h ref e r q),
            λ x (ne, nes). ground (
              arith,
              lookup-remove (t.path_of c) x (remove (t.path_of c) d),
              lookup-remove (t.path_of c) x d,
              eq_iff (t.path_of c) x,
              holds.frame x nes,
            ),
          )
    ]
  ]
    where
      hopeless :
          (p : Bytes) (h : IsPatch t d0 target c p) (ref : String) (e : Error)
          → t.read_blob_path c.digest ≡ ok ref
          → patch_bytes t.zstd t.opts (lookup ref d0) target ≡ err e
          → ⊥
      hopeless p h ref e r q = ground (arith, h.read, h.encoded)

  pub next_round :
      (c : BaselineLayerMeta) (todo : List BaselineLayerMeta) (best best' : Best) (d d' : Disk)
      → try_candidate t c best d ≡ (ok best', d')
      → try_candidates t (c ∷ todo) best d ≡ try_candidates t todo best' d'
  unfolding try_candidates
  next_round c todo best best' d d' e =
      ap
        (λ (r : Result Best × Disk). elim r.0 [
          | err e ↦ (err e, r.1)
          | ok b ↦ try_candidates t todo b r.1
        ])
        e

  pub failing :
      (c : BaselineLayerMeta) (todo : List BaselineLayerMeta) (best : Best) (d : Disk) (e : Error)
      (d' : Disk)
      → try_candidate t c best d ≡ (err e, d')
      → try_candidates t (c ∷ todo) best d ≡ (err e, d')
  unfolding try_candidates
  failing c todo best d x d' h =
      ap
        (λ (r : Result Best × Disk). elim r.0 [
          | err e ↦ (err e, r.1)
          | ok b ↦ try_candidates t todo b r.1
        ])
        h
