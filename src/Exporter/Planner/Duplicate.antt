-- ===== src/Exporter/Planner/Duplicate.antt =====
-- Two candidates of PlanShippedTopK with one file: the path of a candidate's spill has eight
-- digits of the layer's digest, and a baseline manifest may list a layer twice.
use diffah.Base.{true, false, some, none, [], ◌∷◌, ◌≡◌, ◌≢◌, refl, ap, ◌∙◌, arith, eq_iff, eq_refl}
use diffah.Base.Map.{lookup, insert, remove, lookup-insert, lookup-remove}
use diffah.Base.Disk.{Bytes, Disk, byte_size}
use diffah.Diff.Errors.{Result, ok}
use diffah.Exporter.Types.{BaselineLayerMeta}
use diffah.Exporter.Codec.{encode_stream}
use diffah.Exporter.Planner.{Best, Task, start, improves, settle, try_candidate, try_candidates}
use diffah.Exporter.Planner.Trial.{IsPatch, patch_best, settled}
use diffah.Exporter.Planner.Round.{next_round}

module _ (t : Task) (d0 : Disk) (target : Bytes) where
  -- A round, from any files on which the target and the reference are what they were.
  returns :
      (c : BaselineLayerMeta) (p : Bytes) (best : Best) (d : Disk) (h : IsPatch t d0 target c p)
      → lookup t.target_path d ≡ some target
      → lookup h.ref_path d ≡ lookup h.ref_path d0
      → let s = settled t d0 target c p best d in try_candidate t c best d ≡ (ok s.0, s.1)
  unfolding try_candidate encode_stream
  returns c p best d h there ref = ground (arith, h.read, h.encoded)

  answered : Best × Disk → Result Best × Disk
  answered s = (ok s.0, s.1)

  first :
      (c : BaselineLayerMeta) (p : Bytes) (d : Disk)
      → improves t (byte_size p) (start t) ≡ true
      → settled t d0 target c p (start t) d ≡ (patch_best t d0 target c p, insert (t.path_of c) p d)
  unfolding settle start
  first c p d wins = rw (settle, start, wins, eq_refl t.target_path) refl

  second :
      (c : BaselineLayerMeta) (p : Bytes) (best : Best) (d : Disk)
      → improves t (byte_size p) best ≡ false
      → settled t d0 target c p best d ≡ (best, remove (t.path_of c) (insert (t.path_of c) p d))
  unfolding settle
  second c p best d loses = rw (settle, loses) refl

  -- Two candidates with the same file, of which the second does not improve on the first: the
  -- search names the first one's patch as the payload, and its file is gone.
  pub try_candidates-same_path :
      (c c' : BaselineLayerMeta) (p p' : Bytes) (h : IsPatch t d0 target c p)
      (h' : IsPatch t d0 target c' p')
      → lookup t.target_path d0 ≡ some target
      → t.path_of c' ≡ t.path_of c
      → t.path_of c ≢ t.target_path
      → t.path_of c ≢ h'.ref_path
      → improves t (byte_size p) (start t) ≡ true
      → improves t (byte_size p') (patch_best t d0 target c p) ≡ false
      → (d : Disk) × (try_candidates t (c ∷ c' ∷ []) (start t) d0
          ≡ (ok (patch_best t d0 target c p), d))
        × (lookup (t.path_of c) d ≡ none)
  unfolding answered try_candidates
  try_candidates-same_path c c' p p' h h' there same apart_target apart_ref wins loses =
      let d1 = insert (t.path_of c) p d0 in
      let d2 = remove (t.path_of c') (insert (t.path_of c') p' d1) in
      (
        d2,
        next_round t d0 target c (c' ∷ []) (start t) (patch_best t d0 target c p) d0 d1
              (returns c p (start t) d0 h there refl ∙ ap answered (first c p d0 wins))
            ∙ next_round t d0 target c' [] (patch_best t d0 target c p) (patch_best t d0 target c p)
                d1 d2
                (returns c' p' (patch_best t d0 target c p) d1 h'
                    (ground (
                      arith,
                      there,
                      lookup-insert (t.path_of c) t.target_path p d0,
                      eq_iff (t.path_of c) t.target_path,
                    ))
                    (ground (
                      arith,
                      lookup-insert (t.path_of c) h'.ref_path p d0,
                      eq_iff (t.path_of c) h'.ref_path,
                    ))
                  ∙ ap answered (second c' p' (patch_best t d0 target c p) d1 loses))
            ∙ refl,
        ground (
          arith,
          lookup-remove (t.path_of c') (t.path_of c) (insert (t.path_of c') p' d1),
          eq_iff (t.path_of c') (t.path_of c),
        ),
      )
