-- ===== src/Exporter/Encode/Layer.antt =====
-- What encodeOneShipped makes of a layer.
use diffah.Base.{
  ℕ, String, true, false, ◌||◌, none, some, List, [], ◌≡◌, ◌≢◌, ◌⊎◌, refl, sym, ap, subst, ◌∙◌, inl,
  inr, arith, All, All-In, All_of_In, Bool-cases, ltb, ◌==◌, if◌then◌else◌,
}
use diffah.Base.Int.{ℤ, ◌<ℤ◌}
use diffah.Base.Map.{lookup, has}
use diffah.Base.Disk.{Bytes, Disk, byte_size, join}
use diffah.Diff.Types.{BlobRef, BlobEntry, patch}
use diffah.Diff.Errors.{Result, ok}
use diffah.Exporter.Types.{BaselineLayerMeta}
use diffah.Exporter.Codec.{unpatch}
use diffah.Exporter.Codec.RoundTrip.{IsZstd, unpatch-patch_bytes, patch_bytes_not_nil}
use diffah.Exporter.Mode.{mode_off}
use diffah.Exporter.Planner.{
  Planner, Task, Best, task, start, full_entry, patch_entry, codec_zstd_patch, ensure_baseline_fp,
  pick_top_k, plan_shipped_top_k,
}
use diffah.Exporter.Planner.Trial.{IsChosen}
use diffah.Exporter.Planner.Winner.{IsUsable, IsDistinct}
use diffah.Exporter.Planner.Choice.{measured_size, plan_shipped_top_k-Answers}
use diffah.Exporter.Pool.{BlobPool, add_entry_from_path, ref_count}
use diffah.Exporter.Pool.View.{IsGoodPool}
use diffah.Exporter.Spool.{Read, all_bytes, read_error, spool_blob}
use diffah.Exporter.Spool.Atomic.{IsFaulty, spool_reader-cases}
use diffah.Exporter.Encode.{
  Encoder, full_blob_entry, blob_entry_from_planner, adopt_planned, encode_one_shipped,
}
use diffah.Exporter.Encode.Adopt.{Keeps, Fills, IsHeld, adopt-Fills, Fills-remove}

-- What the entry says of the payload: it is the layer, or a smaller patch that gives the layer back
-- against a file that the planner reads for the entry's source.
abbrev pub IsEncoding : Encoder → Planner → BlobRef → Disk → Bytes → Bytes × BlobEntry → Type 0
IsEncoding env planner s disk target (payload, e) =
    ((payload ≡ target) × (e ≡ full_blob_entry s))
    ⊎ ((payload ≢ [])
        × (byte_size payload <ℤ s.size)
        × ((ref : String) × (planner.read_blob_path e.patch_from_digest ≡ ok ref)
            × (unpatch env.zstd (lookup ref disk) payload ≡ ok target))
        × (e ≡ record {
          size = s.size;
          media_type = s.media_type;
          encoding = patch;
          codec = codec_zstd_patch;
          patch_from_digest = e.patch_from_digest;
          archive_size = byte_size payload;
        }))

module _ (env : Encoder) (planner : Planner) (pool : BlobPool) (s : BlobRef) (target : Bytes)
    (disk : Disk) where
  abbrev pub target_path : String
  target_path = join env.targets_dir (env.dig.encoded s.digest)

  abbrev pub planner' : Planner
  planner' = ensure_baseline_fp env.fingerprint_of planner

  abbrev full_size : ℤ
  full_size = measured_size planner' env.zstd s target

  abbrev pub the_task : Task
  the_task = task planner' env.zstd env.dig s target_path env.blobs_dir full_size

  abbrev pub the_candidates : List BaselineLayerMeta
  the_candidates = pick_top_k planner' (env.fingerprint_of target_path) s.size env.candidates

  -- The target's file, the pool's, the candidates' and those that are read have different paths.
  pub record IsApartLayer : Type 0 where
    pub tmp_target : env.tmp_of target_path ≢ target_path
    pub pool_tmp :
        (j : String)
        → IsHeld pool s.digest j
        → join pool.dir (env.dig.encoded j) ≢ env.tmp_of target_path
    pub pool_target :
        (j : String) → IsHeld pool s.digest j → join pool.dir (env.dig.encoded j) ≢ target_path
    pub pool_cands :
        (j : String)
        → IsHeld pool s.digest j
        → All (λ c. the_task.path_of c ≢ join pool.dir (env.dig.encoded j)) the_candidates
    pub own :
        (j : String)
        → has j pool.spills ≡ true
        → has s.digest pool.spills ≡ false
        → join pool.dir (env.dig.encoded j) ≢ join pool.dir (env.dig.encoded s.digest)
    pub distinct : IsDistinct the_task the_candidates
    pub target_cands : All (λ c. the_task.path_of c ≢ target_path) the_candidates
    pub reads :
        All
          (λ c.
            (ref : String)
            → planner.read_blob_path c.digest ≡ ok ref
            → (ref ≢ env.tmp_of target_path)
              × (ref ≢ target_path)
              × All (λ e. the_task.path_of e ≢ ref) the_candidates)
          the_candidates

  module _ (good : IsGoodPool env.dig pool disk) (apart : IsApartLayer) where
    at :
        (j path : String)
        → lookup j pool.spills ≡ some path
        → path ≡ join pool.dir (env.dig.encoded j)
    at = good.at_path

    -- A pool file is none of the files that the layer takes.
    away :
        (x : String)
        → ((j : String) → IsHeld pool s.digest j → join pool.dir (env.dig.encoded j) ≢ x)
        → (j path : String) → lookup j pool.spills ≡ some path
        → path ≢ x
    away x ne j path h q = ne j (inl (ground arith)) (sym (at j path h) ∙ q)

    own_file :
        has s.digest pool.spills ≡ false
        → (j path : String) → lookup j pool.spills ≡ some path
        → path ≢ join pool.dir (env.dig.encoded s.digest)
    own_file new j path h q = apart.own j (ground arith) new (sym (at j path h) ∙ q)

    -- The target has been spooled: its file is there, and the files other than the two are the same.
    record IsSpooled (disk1 : Disk) : Type 0 where
      there : lookup target_path disk1 ≡ some target
      rest :
          (x : String)
          → x ≢ env.tmp_of target_path
          → x ≢ target_path
          → lookup x disk1 ≡ lookup x disk

    abbrev spool : Result (List Read) → Result ℤ × List ℕ × Disk
    spool r = spool_blob env.os r (env.tmp_of target_path) target_path disk

    spooled :
        (source : String → Result (List Read)) (reads : List Read)
        → source s.digest ≡ ok reads
        → read_error reads ≡ none
        → all_bytes reads ≡ target
        → ¬ IsFaulty env.os (env.tmp_of target_path) target_path disk
        → ((spool (source s.digest)).0 ≡ ok (byte_size target))
          × IsSpooled (spool (source s.digest)).2
    unfolding spool_blob
    spooled source reads opened whole same spools =
        let ((gone, rest), outcome) =
          spool_reader-cases env.os (env.tmp_of target_path) target_path disk reads
            apart.tmp_target in
        subst (λ r. ((spool r).0 ≡ ok (byte_size target)) × IsSpooled (spool r).2) (sym opened)
          (elim outcome [
            | inl (_, returned, _, there) ↦ (
              returned ∙ ap (λ b. ok (byte_size b)) same,
              record { there = there ∙ ap some same; rest = rest },
            )
            | inr (_, inl stops, _) ↦ absurd (stops whole)
            | inr (_, inr fault, _) ↦ absurd (spools fault)
          ])

    Keeps-pool : (disk1 : Disk) → IsSpooled disk1 → Keeps pool disk disk1
    Keeps-pool disk1 sp j path h =
        sp.rest path (away (env.tmp_of target_path) apart.pool_tmp j path h)
          (away target_path apart.pool_target j path h)

    adopt_target :
        (disk2 : Disk)
        → Keeps pool disk disk2
        → lookup target_path disk2 ≡ some target
        → env.os.rename_error (join pool.dir (env.dig.encoded s.digest)) ≡ none
        → Fills env.dig pool disk s.digest
            (target, full_blob_entry s)
            (add_entry_from_path env.os env.dig pool s.digest target_path (full_blob_entry s) disk2)
    adopt_target disk2 keeps there lets =
        adopt-Fills env.os env.dig pool s.digest (full_blob_entry s) disk disk2 target_path target
          good keeps own_file (away target_path apart.pool_target) there lets

    after_spool :
        (source : String → Result (List Read)) (n : ℤ)
        → (spool (source s.digest)).0 ≡ ok n
        → let disk1 = (spool (source s.digest)).2 in
          encode_one_shipped env source planner pool s disk ≡ (
            if ltb 1 (ref_count pool s.digest) || env.mode == mode_off
            then add_entry_from_path env.os env.dig pool s.digest target_path
                (full_blob_entry s)
                disk1
            else adopt_planned env pool s target_path (
                plan_shipped_top_k planner env.zstd env.dig env.fingerprint_of s target_path
                  env.blobs_dir env.candidates disk1))
    unfolding encode_one_shipped
    after_spool source n returned = rw (encode_one_shipped, returned) refl

    usable : (disk1 : Disk) → IsSpooled disk1 → IsUsable the_task disk1 target the_candidates
    unfolding ensure_baseline_fp
    usable disk1 sp = record {
      there = sp.there;
      distinct = apart.distinct;
      target_apart = apart.target_cands;
      reads_apart =
          All_of_In _ the_candidates
            (λ c m ref r. (All-In _ c the_candidates apart.reads m ref r).2);
    }

    adopt_best :
        (entry : BlobRef) (path : String) (payload : Bytes) (d : Disk)
        → Keeps pool disk d
        → lookup path d ≡ some payload
        → ((j : String) → IsHeld pool s.digest j → join pool.dir (env.dig.encoded j) ≢ path)
        → env.os.rename_error (join pool.dir (env.dig.encoded s.digest)) ≡ none
        → Fills env.dig pool disk s.digest
            (payload, blob_entry_from_planner entry)
            (adopt_planned env pool s target_path (ok (entry, path), d))
    unfolding adopt_planned
    adopt_best entry path payload d keeps there apart_path lets =
        let x =
          add_entry_from_path env.os env.dig pool s.digest path (blob_entry_from_planner entry) d in
        let (returns, dir, good', fills) =
          adopt-Fills env.os env.dig pool s.digest (blob_entry_from_planner entry) disk d path
            payload good keeps own_file (away path apart_path) there lets in
        let kept : Fills env.dig pool disk s.digest (payload, blob_entry_from_planner entry)
            (ok tt, x.1, x.2) =
          (refl, dir, good', fills) in
        rw (adopt_planned, returns)
          (elim (Bool-cases (path == target_path)) [
            | inl q ↦ rw q kept
            | inr q ↦ rw q (
                Fills-remove env.dig pool disk s.digest (payload, blob_entry_from_planner entry) x.1
                  x.2 target_path apart.pool_target kept)
          ])

    -- Files of the pool are no candidate's.
    Keeps-frame :
        (disk1 d : Disk)
        → IsSpooled disk1
        → ((x : String)
            → All (λ c. the_task.path_of c ≢ x) the_candidates
            → lookup x d ≡ lookup x disk1)
        → Keeps pool disk d
    Keeps-frame disk1 d sp frame j path h =
        frame path (
          subst (λ x. All (λ c. the_task.path_of c ≢ x) the_candidates) (sym (at j path h))
            (apart.pool_cands j (inl (ground arith))))
        ∙ Keeps-pool disk1 sp j path h

    -- A patch that was chosen gives the layer back.
    patch_encodes :
        (disk1 : Disk) (best : Best) (d : Disk)
        → IsZstd env.zstd
        → IsSpooled disk1
        → (k : IsChosen the_task disk1 target the_candidates best d)
        → IsEncoding env planner s disk target (k.patch, blob_entry_from_planner best.entry)
    unfolding blob_entry_from_planner patch_entry ensure_baseline_fp
    patch_encodes disk1 best d z sp k =
        let (fresh_tmp, fresh_target, _) =
          All-In _ k.layer the_candidates apart.reads k.tried k.is_patch.ref_path k.is_patch.read in
        let same = sp.rest k.is_patch.ref_path fresh_tmp fresh_target in
        let back =
          unpatch-patch_bytes env.zstd z the_task.opts (lookup k.is_patch.ref_path disk1) target
            k.patch k.is_patch.encoded in
        subst
          (λ (b : Best).
            IsEncoding env planner s disk target (k.patch, blob_entry_from_planner b.entry))
          (sym k.is_best)
          (inr (
            patch_bytes_not_nil env.zstd z the_task.opts (lookup k.is_patch.ref_path disk1) target
                k.patch k.is_patch.encoded,
            k.below_raw,
            (
              k.is_patch.ref_path,
              k.is_patch.read,
              ap (λ r. unpatch env.zstd r k.patch) (sym same) ∙ back,
            ),
            refl,
          ))

    start_encodes :
        (disk1 : Disk) (best : Best) (d : Disk)
        → IsSpooled disk1
        → Keeps pool disk d
        → lookup target_path d ≡ some target
        → env.os.rename_error (join pool.dir (env.dig.encoded s.digest)) ≡ none
        → best ≡ start the_task
        → Fills env.dig pool disk s.digest
            (target, full_blob_entry s)
            (adopt_planned env pool s target_path (ok (best.entry, best.path), d))
    unfolding start full_entry full_blob_entry blob_entry_from_planner
    start_encodes disk1 best d sp keeps there lets e =
        subst
          (λ (b : Best).
            Fills env.dig pool disk s.digest (target, full_blob_entry s)
              (adopt_planned env pool s target_path (ok (b.entry, b.path), d)))
          (sym e)
          (adopt_best (full_entry s) target_path target d keeps there apart.pool_target lets)

    planned :
        (disk1 : Disk)
        → IsZstd env.zstd
        → IsSpooled disk1
        → env.os.rename_error (join pool.dir (env.dig.encoded s.digest)) ≡ none
        → (v : Bytes × BlobEntry) × IsEncoding env planner s disk target v
          × Fills env.dig pool disk s.digest v (
              adopt_planned env pool s target_path (
                plan_shipped_top_k planner env.zstd env.dig env.fingerprint_of s target_path
                  env.blobs_dir env.candidates disk1))
    unfolding adopt_planned
    planned disk1 z sp lets =
        elim (plan_shipped_top_k-Answers planner env.zstd env.dig env.fingerprint_of s target_path
          env.blobs_dir env.candidates disk1 target (usable disk1 sp)) [
            | inr (e, d, runs, why, frame) ↦ (
              (target, full_blob_entry s),
              inl (refl, refl),
              rw runs (
                  adopt_target d (Keeps-frame disk1 d sp frame)
                    (frame target_path apart.target_cands ∙ sp.there) lets),
            )
            | inl (best, d, runs, holds) ↦ elim holds.chosen [
              | inl e ↦ (
                (target, full_blob_entry s),
                inl (refl, refl),
                rw runs (
                    start_encodes disk1 best d sp (Keeps-frame disk1 d sp holds.frame)
                      (holds.frame target_path apart.target_cands ∙ sp.there) lets e),
              )
              | inr k ↦ (
                (k.patch, blob_entry_from_planner best.entry),
                patch_encodes disk1 best d z sp k,
                rw runs (
                    adopt_best best.entry best.path k.patch d (Keeps-frame disk1 d sp holds.frame)
                      (ap (λ x. lookup x d) (ap (λ (b : Best). b.path) k.is_best) ∙ k.on_disk)
                      (λ j held q.
                        All-In _ k.layer the_candidates (apart.pool_cands j held) k.tried
                          (sym (q ∙ ap (λ (b : Best). b.path) k.is_best)))
                      lets),
              )
            ]
          ]

    -- encodeOneShipped, where the pool is good, the files involved have different paths (also those of
    -- two candidates), the layer can be read in full and spooled, and the rename into the pool succeeds:
    -- the call returns, and the pool has a payload and an entry for the layer, unless it had them before.
    -- The payload is the layer itself, or a patch, not empty and smaller than the layer's size, that
    -- zstd turns back into the layer against the file of its baseline layer; the entry says which.
    -- This holds in any mode, and also when the full encoding cannot be measured or a candidate cannot
    -- be encoded.
    pub encode_one_shipped-Fills :
        (source : String → Result (List Read)) (reads : List Read)
        → IsZstd env.zstd
        → source s.digest ≡ ok reads
        → read_error reads ≡ none
        → all_bytes reads ≡ target
        → ¬ IsFaulty env.os (env.tmp_of target_path) target_path disk
        → env.os.rename_error (join pool.dir (env.dig.encoded s.digest)) ≡ none
        → (v : Bytes × BlobEntry) × IsEncoding env planner s disk target v
          × Fills env.dig pool disk s.digest v (encode_one_shipped env source planner pool s disk)
    encode_one_shipped-Fills source reads z opened whole same spools lets =
        let (returned, sp) = spooled source reads opened whole same spools in
        let disk1 = (spool (source s.digest)).2 in
        let runs = after_spool source (byte_size target) returned in
        elim (Bool-cases (ltb 1 (ref_count pool s.digest) || env.mode == mode_off)) [
          | inl q ↦ (
            (target, full_blob_entry s),
            inl (refl, refl),
            rw (runs, q) (adopt_target disk1 (Keeps-pool disk1 sp) sp.there lets),
          )
          | inr q ↦
              let (v, encodes, fills) = planned disk1 z sp lets in (v, encodes, rw (runs, q) fills)
        ]
