-- ===== src/Exporter/Planner/Trial.antt =====
-- One round of the loop of PlanShippedTopK: the state of the search, and what a round keeps of it.
use diffah.Base.{
  String, true, false, none, some, List, ◌≡◌, ◌≢◌, ◌⊎◌, refl, sym, ap, ◌∙◌, All-In, inl, inr, All,
  In, arith, Bool-cases, ◌==◌, if◌then◌else◌,
}
use diffah.Base.Int.{◌<ℤ◌}
use diffah.Base.Map.{lookup, insert, remove, lookup-insert, lookup-remove}
use diffah.Base.Disk.{Bytes, Disk, byte_size}
use diffah.Diff.Errors.{ok, Result-cases}
use diffah.Exporter.Types.{BaselineLayerMeta}
use diffah.Exporter.Codec.{patch_bytes, encode_stream}
use diffah.Exporter.Planner.{Best, Task, start, improves, settle, patch_entry, try_candidate}

module _ (t : Task) (d0 : Disk) (target : Bytes) where
  -- The patch for the target against the layer `c`, from the files at the start.
  pub record IsPatch (c : BaselineLayerMeta) (p : Bytes) : Type 0 where
    pub ref_path : String
    pub read : t.read_blob_path c.digest ≡ ok ref_path
    pub encoded : patch_bytes t.zstd t.opts (lookup ref_path d0) target ≡ ok p

  abbrev pub patch_best : BaselineLayerMeta → Bytes → Best
  patch_best c p = record {
    entry = patch_entry t.shipped c (byte_size p);
    path = t.path_of c;
    size = byte_size p;
  }

  -- The best so far is a patch from `done` that is on disk.
  pub record IsChosen (done : List BaselineLayerMeta) (best : Best) (d : Disk) : Type 0 where
    pub layer : BaselineLayerMeta
    pub patch : Bytes
    pub tried : In layer done
    pub is_patch : IsPatch layer patch
    pub is_best : best ≡ patch_best layer patch
    pub below_full : byte_size patch <ℤ t.full_size
    pub below_raw : byte_size patch <ℤ t.shipped.size
    pub on_disk : lookup (t.path_of layer) d ≡ some patch

  -- The state after the layers `done`.
  pub record Holds (done : List BaselineLayerMeta) (best : Best) (d : Disk) : Type 0 where
    pub frame : (x : String) → All (λ c. t.path_of c ≢ x) done → lookup x d ≡ lookup x d0
    pub chosen : (best ≡ start t) ⊎ IsChosen done best d
    pub minimal : All (λ c. (p : Bytes) → IsPatch c p → improves t (byte_size p) best ≡ false) done
    pub clean : All (λ c. t.path_of c ≢ best.path → lookup (t.path_of c) d ≡ none) done

  -- The files that the round reads are no candidate's, and `c` has a file of its own.
  pub record IsApart (done : List BaselineLayerMeta) (c : BaselineLayerMeta) : Type 0 where
    pub target_done : All (λ e. t.path_of e ≢ t.target_path) done
    pub target_new : t.path_of c ≢ t.target_path
    pub read_done :
        (ref : String) → t.read_blob_path c.digest ≡ ok ref → All (λ e. t.path_of e ≢ ref) done
    pub own : All (λ e. t.path_of e ≢ t.path_of c) done

  -- What a round makes of a patch `p`.
  abbrev pub settled : BaselineLayerMeta → Bytes → Best → Disk → Best × Disk
  settled c p best d = settle t c (byte_size p) best (insert (t.path_of c) p d)

  -- A round that returns has made the patch, put it on disk and compared it.
  pub round :
      (c : BaselineLayerMeta) (best best' : Best) (d d' : Disk)
      → lookup t.target_path d ≡ some target
      → try_candidate t c best d ≡ (ok best', d')
      → (ref : String) × (p : Bytes) × (t.read_blob_path c.digest ≡ ok ref)
        × (patch_bytes t.zstd t.opts (lookup ref d) target ≡ ok p)
        × (settled c p best d ≡ (best', d'))
  unfolding try_candidate encode_stream
  round c best best' d d' e h = elim (Result-cases (t.read_blob_path c.digest)) [
    | inr (x, r) ↦ absurd (ground arith)
    | inl (ref, r) ↦ elim (Result-cases (patch_bytes t.zstd t.opts (lookup ref d) target)) [
      | inl (p, q) ↦ (ref, p, r, q, ground arith)
      | inr (x, q) ↦ absurd (ground arith)
    ]
  ]

  -- What the comparison decides, and the files after it.
  pub data Settled (c : BaselineLayerMeta) (p : Bytes) (best : Best) (d : Disk) (best' : Best)
      (d' : Disk) : Type 0 where
    win :
        improves t (byte_size p) best ≡ true
        → best' ≡ patch_best c p
        → ((x : String)
            → lookup x d' ≡ (
                if best.path == t.target_path
                then (if t.path_of c == x then some p else lookup x d)
                else if best.path == x
                then none
                else if t.path_of c == x
                then some p
                else lookup x d))
        → Settled c p best d best' d'
    lose :
        improves t (byte_size p) best ≡ false
        → best' ≡ best
        → ((x : String) → lookup x d' ≡ (if t.path_of c == x then none else lookup x d))
        → Settled c p best d best' d'

  wins :
      (c : BaselineLayerMeta) (p : Bytes) (best : Best) (d : Disk) (x : String)
      → lookup x (
          if best.path == t.target_path
          then insert (t.path_of c) p d
          else remove best.path (insert (t.path_of c) p d))
        ≡ (if best.path == t.target_path
            then (if t.path_of c == x then some p else lookup x d)
            else if best.path == x
            then none
            else if t.path_of c == x
            then some p
            else lookup x d)
  wins c p best d x = ground (
    arith,
    lookup-insert (t.path_of c) x p d,
    lookup-remove best.path x (insert (t.path_of c) p d),
  )

  loses :
      (c : BaselineLayerMeta) (p : Bytes) (d : Disk) (x : String)
      → lookup x (remove (t.path_of c) (insert (t.path_of c) p d))
        ≡ (if t.path_of c == x then none else lookup x d)
  loses c p d x = ground (
    arith,
    lookup-insert (t.path_of c) x p d,
    lookup-remove (t.path_of c) x (insert (t.path_of c) p d),
  )

  pub settle-Settled :
      (c : BaselineLayerMeta) (p : Bytes) (best : Best) (d : Disk)
      → Settled c p best d (settled c p best d).0 (settled c p best d).1
  unfolding settle
  settle-Settled c p best d = elim (Bool-cases (improves t (byte_size p) best)) [
    | inl w ↦ rw w (win w refl (wins c p best d))
    | inr l ↦ rw l (lose l refl (loses c p d))
  ]

  -- The path of the best so far is the target's or that of a layer in `done`, hence not that of `c`.
  pub best_apart :
      (done : List BaselineLayerMeta) (c : BaselineLayerMeta) (best : Best) (d : Disk)
      → IsApart done c
      → Holds done best d
      → t.path_of c ≢ best.path
  best_apart done c best d apart h e = go h.chosen
    where
      go : (best ≡ start t) ⊎ IsChosen done best d → ⊥
      go (inl s) = apart.target_new (e ∙ ap (λ (b : Best). b.path) s ∙ unfold start in refl)
      go (inr k) =
          All-In (λ e'. t.path_of e' ≢ t.path_of c) k.layer done apart.own k.tried
            (sym (e ∙ ap (λ (b : Best). b.path) k.is_best))
