-- ===== src/Exporter/Planner/Winner.antt =====
-- PlanShippedTopK as a whole: what the loop over the candidates ends with.
use diffah.Base.{
  String, some, List, [], ◌∷◌, ◌≡◌, ◌≢◌, ◌⊎◌, refl, sym, subst, ◌∙◌, inl, inr, All, In, All-In,
  All_of_In, arith,
}
use diffah.Base.Map.{lookup}
use diffah.Base.Disk.{Bytes, Disk}
use diffah.Diff.Errors.{Error, Result, ok, err}
use diffah.Exporter.Types.{BaselineLayerMeta}
use diffah.Exporter.Planner.{Best, Task, start, try_candidates}
use diffah.Exporter.Planner.Trial.{IsChosen, Holds, IsApart, settled}
use diffah.Exporter.Planner.Round.{IsHopeless, round-Holds, round_fails, next_round, failing}

module _ (t : Task) where
  -- No two of the layers have a file in common.
  abbrev pub IsDistinct : List BaselineLayerMeta → Type 0
  IsDistinct [] = Unit
  IsDistinct (c ∷ cs) = All (λ e. t.path_of c ≢ t.path_of e) cs × IsDistinct cs

module _ (t : Task) (d0 : Disk) (target : Bytes) where
  -- Each layer of `todo` is apart from those before it.
  Ready : List BaselineLayerMeta → List BaselineLayerMeta → Type 0
  Ready done [] = Unit
  Ready done (c ∷ todo) = IsApart t d0 target done c × Ready (c ∷ done) todo

  -- The list that the loop has gone through.
  onto : List BaselineLayerMeta → List BaselineLayerMeta → List BaselineLayerMeta
  onto [] done = done
  onto (c ∷ todo) done = onto todo (c ∷ done)

  In-onto :
      (x : BaselineLayerMeta) (todo done : List BaselineLayerMeta)
      → In x todo ⊎ In x done
      → In x (onto todo done)
  unfolding onto
  In-onto x [] done (inl m) = absurd m
  In-onto x [] done (inr m) = m
  In-onto x (c ∷ todo) done (inl (inl e)) = In-onto x todo (c ∷ done) (inr (inl e))
  In-onto x (c ∷ todo) done (inl (inr m)) = In-onto x todo (c ∷ done) (inl m)
  In-onto x (c ∷ todo) done (inr m) = In-onto x todo (c ∷ done) (inr (inr m))

  -- The loop has ended, with a best or with an error.
  abbrev pub Ends : List BaselineLayerMeta → List BaselineLayerMeta → Result Best × Disk → Type 0
  Ends tried all r =
      ((best : Best) × (d : Disk) × (r ≡ (ok best, d)) × Holds t d0 target all best d)
      ⊎ ((e : Error) × (d : Disk) × (r ≡ (err e, d))
          × ((c : BaselineLayerMeta) × In c tried × IsHopeless t d0 target c)
          × ((x : String) → All (λ c. t.path_of c ≢ x) all → lookup x d ≡ lookup x d0))

  loop :
      (todo done : List BaselineLayerMeta) (best : Best) (d : Disk)
      → lookup t.target_path d0 ≡ some target
      → Ready done todo
      → Holds t d0 target done best d
      → Ends todo (onto todo done) (try_candidates t todo best d)
  unfolding onto try_candidates Ready
  loop [] done best d there ready holds = inl (best, d, refl, holds)
  loop (c ∷ todo) done best d there (apart, ready) holds =
      elim (round_fails t d0 target done c best d there apart holds) [
        | inr (e, d', runs, lost, frame) ↦ inr (
          e,
          d',
          failing t d0 target c todo best d e d' runs,
          (c, inl refl, lost),
          λ x nes. frame x (
              All_of_In _ (c ∷ done)
                (λ e m. All-In _ e (onto todo (c ∷ done)) nes (In-onto e todo (c ∷ done) (inr m)))),
        )
        | inl (p, h) ↦
            let (returns, next) = round-Holds t d0 target done c p best d there apart h holds in
            let s = settled t d0 target c p best d in
            elim (loop todo (c ∷ done) s.0 s.1 there ready next) [
              | inl (best', d', runs, end) ↦
                  inl (best', d', next_round t d0 target c todo best s.0 d s.1 returns ∙ runs, end)
              | inr (e, d', runs, (c', m, lost), frame) ↦ inr (
                e,
                d',
                next_round t d0 target c todo best s.0 d s.1 returns ∙ runs,
                (c', inr m, lost),
                frame,
              )
            ]
      ]

  onto-In :
      (x : BaselineLayerMeta) (todo done : List BaselineLayerMeta)
      → In x (onto todo done)
      → In x todo ⊎ In x done
  unfolding onto
  onto-In x [] done m = inr m
  onto-In x (c ∷ todo) done m = ground (arith, onto-In x todo (c ∷ done) m)

  -- The state speaks of the layers and not of their order.
  Holds-of_In :
      (done all : List BaselineLayerMeta) (best : Best) (d : Disk)
      → ((x : BaselineLayerMeta) → In x done → In x all)
      → ((x : BaselineLayerMeta) → In x all → In x done)
      → Holds t d0 target done best d
      → Holds t d0 target all best d
  Holds-of_In done all best d to from holds = record {
    frame = λ x nes. holds.frame x (All_of_In _ done (λ c m. All-In _ c all nes (to c m)));
    chosen = chosen_of holds.chosen;
    minimal = All_of_In _ all (λ c m. All-In _ c done holds.minimal (from c m));
    clean = All_of_In _ all (λ c m. All-In _ c done holds.clean (from c m));
  }
    where
      chosen_of :
          (best ≡ start t) ⊎ IsChosen t d0 target done best d
          → (best ≡ start t) ⊎ IsChosen t d0 target all best d
      chosen_of (inl e) = inl e
      chosen_of (inr k) = inr (record {
        layer = k.layer;
        patch = k.patch;
        tried = to k.layer k.tried;
        is_patch = k.is_patch;
        is_best = k.is_best;
        below_full = k.below_full;
        below_raw = k.below_raw;
        on_disk = k.on_disk;
      })

  -- The target is on disk, no two candidates share a file, and the files that are read are no
  -- candidate's.
  pub record IsUsable (cands : List BaselineLayerMeta) : Type 0 where
    pub there : lookup t.target_path d0 ≡ some target
    pub distinct : IsDistinct t cands
    pub target_apart : All (λ c. t.path_of c ≢ t.target_path) cands
    pub reads_apart :
        All
          (λ c.
            (ref : String)
            → t.read_blob_path c.digest ≡ ok ref
            → All (λ e. t.path_of e ≢ ref) cands)
          cands

  ready :
      (todo done all : List BaselineLayerMeta)
      → ((x : BaselineLayerMeta) → In x todo → In x all)
      → ((x : BaselineLayerMeta) → In x done → In x all)
      → IsUsable all
      → IsDistinct t todo
      → ((e c : BaselineLayerMeta) → In e done → In c todo → t.path_of e ≢ t.path_of c)
      → Ready done todo
  unfolding Ready
  ready [] done all to from usable distinct apart = tt
  ready (c ∷ todo) done all to from usable (own, distinct) apart = (
    record {
      target_done =
          All_of_In _ done
            (λ e m. All-In (λ e. t.path_of e ≢ t.target_path) e all usable.target_apart (from e m));
      target_new =
          All-In (λ e. t.path_of e ≢ t.target_path) c all usable.target_apart (to c (inl refl));
      read_done = λ ref r. All_of_In _ done (λ e m.
          All-In (λ e. t.path_of e ≢ ref) e all
            (All-In _ c all usable.reads_apart (to c (inl refl)) ref r) (from e m));
      own = All_of_In _ done (λ e m. apart e c m (inl refl));
    },
    ready todo (c ∷ done) all (λ x m. to x (inr m)) (new_done c done all from (to c (inl refl)))
        usable distinct (next_apart c todo done own apart),
  )
    where
      new_done :
          (c : BaselineLayerMeta) (done all : List BaselineLayerMeta)
          → ((x : BaselineLayerMeta) → In x done → In x all)
          → In c all
          → (x : BaselineLayerMeta) → In x (c ∷ done)
          → In x all
      new_done c done all from m x (inl e) = subst (λ y. In y all) (sym e) m
      new_done c done all from m x (inr k) = from x k

      next_apart :
          (c : BaselineLayerMeta) (todo done : List BaselineLayerMeta)
          → All (λ e. t.path_of c ≢ t.path_of e) todo
          → ((e c' : BaselineLayerMeta) → In e done → In c' (c ∷ todo) → t.path_of e ≢ t.path_of c')
          → (e c' : BaselineLayerMeta) → In e (c ∷ done)
          → In c' todo
          → t.path_of e ≢ t.path_of c'
      next_apart c todo done own apart e c' (inl q) m =
          subst (λ y. t.path_of y ≢ t.path_of c') (sym q)
            (All-In (λ y. t.path_of c ≢ t.path_of y) c' todo own m)
      next_apart c todo done own apart e c' (inr k) m = apart e c' k (inr m)

  -- The loop over the candidates: it ends with the state of all of them, or it fails, since there is
  -- a candidate that no patch can be made against, and the files of no candidate are as before.
  pub try_candidates-Ends :
      (cands : List BaselineLayerMeta)
      → IsUsable cands
      → Ends cands cands (try_candidates t cands (start t) d0)
  try_candidates-Ends cands usable =
      elim (loop cands [] (start t) d0 usable.there
        (ready cands [] cands (λ x m. m) (λ x m. absurd m) usable usable.distinct
          (λ e c m k. absurd m))
        (record { frame = λ x h. refl; chosen = inl refl; minimal = tt; clean = tt })) [
          | inl (best, d, runs, holds) ↦
              inl (best, d, runs, Holds-of_In (onto cands []) cands best d from to holds)
          | inr (e, d, runs, lost, frame) ↦ inr (
            e,
            d,
            runs,
            lost,
            λ x nes. frame x (All_of_In _ (onto cands []) (λ c m. All-In _ c cands nes (from c m))),
          )
        ]
    where
      from : (x : BaselineLayerMeta) → In x (onto cands []) → In x cands
      from x m = ground (arith, onto-In x cands [] m)

      to : (x : BaselineLayerMeta) → In x cands → In x (onto cands [])
      to x m = In-onto x cands [] (inl m)
