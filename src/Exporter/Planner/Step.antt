-- ===== src/Exporter/Planner/Step.antt =====
-- A round of the loop of PlanShippedTopK keeps the state of the search, one lemma for each part.
use diffah.Base.{
  String, true, false, none, List, ◌∷◌, ◌≡◌, ◌≢◌, ◌⊎◌, refl, sym, ap, subst, ◌∙◌, inl, inr, All,
  All-In, All_of_In, arith, eq_iff, eq_refl,
}
use diffah.Base.Int.{ℤ, ◌<ℤ◌}
use diffah.Base.Map.{lookup}
use diffah.Base.Disk.{Bytes, Disk, byte_size}
use diffah.Exporter.Types.{BaselineLayerMeta}
use diffah.Exporter.Planner.{Best, Task, start, improves}
use diffah.Exporter.Planner.Trial.{
  IsPatch, IsChosen, Holds, IsApart, Settled, win, lose, patch_best, best_apart,
}

module _ (t : Task) (d0 : Disk) (target : Bytes) (done : List BaselineLayerMeta)
    (c : BaselineLayerMeta) (p : Bytes) (best best' : Best) (d d' : Disk)
    (apart : IsApart t d0 target done c) (holds : Holds t d0 target done best d)
    (made : IsPatch t d0 target c p) where
  same_patch : (q : Bytes) → IsPatch t d0 target c q → q ≡ p
  same_patch q other = same (cc (other.read, made.read))
    where
      same : other.ref_path ≡ made.ref_path → q ≡ p
      same e = cc (other.encoded, made.encoded, e)

  -- Another file than the best so far: the comparison leaves it as it was.
  kept :
      Settled t d0 target c p best d best' d'
      → (x : String) → t.path_of c ≢ x
      → ((best.path ≡ t.target_path) ⊎ (best.path ≢ x))
      → lookup x d' ≡ lookup x d
  kept (lose l e at) x ne other = ground (arith, at x, eq_iff (t.path_of c) x)
  kept (win w e at) x ne other =
      ground
        (arith, at x, eq_iff (t.path_of c) x, eq_iff best.path x, eq_iff best.path t.target_path)

  -- The best so far stands at the target's path or at that of a layer in `done`.
  best_path :
      (x : String) → All (λ e. t.path_of e ≢ x) done → (best.path ≡ t.target_path) ⊎ (best.path ≢ x)
  best_path x nes = go holds.chosen
    where
      go :
          (best ≡ start t) ⊎ IsChosen t d0 target done best d
          → (best.path ≡ t.target_path) ⊎ (best.path ≢ x)
      go (inl s) = inl (ap (λ (b : Best). b.path) s ∙ unfold start in refl)
      go (inr k) = inr (λ e.
          All-In (λ e'. t.path_of e' ≢ x) k.layer done nes k.tried
            (sym (ap (λ (b : Best). b.path) k.is_best) ∙ e))

  pub frame_step :
      Settled t d0 target c p best d best' d'
      → (x : String) → All (λ e. t.path_of e ≢ x) (c ∷ done)
      → lookup x d' ≡ lookup x d0
  frame_step s x (ne, nes) = kept s x ne (best_path x nes) ∙ holds.frame x nes

  below :
      improves t (byte_size p) best ≡ true
      → (byte_size p <ℤ t.full_size) × (byte_size p <ℤ t.shipped.size)
  unfolding improves
  below w = ground arith

  -- The best after the round is the new patch, which is on disk, or the one before.
  pub IsChosen-step :
      Settled t d0 target c p best d best' d'
      → (best' ≡ start t) ⊎ IsChosen t d0 target (c ∷ done) best' d'
  IsChosen-step (win w e at) = inr (record {
    layer = c;
    patch = p;
    tried = inl refl;
    is_patch = made;
    is_best = e;
    below_full = (below w).0;
    below_raw = (below w).1;
    on_disk = ground (
      arith,
      at (t.path_of c),
      eq_refl (t.path_of c),
      eq_iff best.path (t.path_of c),
      best_apart t d0 target done c best d apart holds,
    );
  })
  IsChosen-step (lose l e at) = go holds.chosen
    where
      go :
          (best ≡ start t) ⊎ IsChosen t d0 target done best d
          → (best' ≡ start t) ⊎ IsChosen t d0 target (c ∷ done) best' d'
      go (inl s) = inl (e ∙ s)
      go (inr k) = inr (record {
        layer = k.layer;
        patch = k.patch;
        tried = inr k.tried;
        is_patch = k.is_patch;
        is_best = e ∙ k.is_best;
        below_full = k.below_full;
        below_raw = k.below_raw;
        on_disk = ground (
          arith,
          at (t.path_of k.layer),
          eq_iff (t.path_of c) (t.path_of k.layer),
          k.on_disk,
          All-In (λ e'. t.path_of e' ≢ t.path_of c) k.layer done apart.own k.tried,
        );
      })

  -- What does not improve on the best before does not improve on the patch that beats it.
  still :
      (n : ℤ)
      → improves t (byte_size p) best ≡ true
      → improves t n best ≡ false
      → improves t n (patch_best t d0 target c p) ≡ false
  unfolding improves
  still n w l = ground arith

  own_beaten : improves t (byte_size p) (patch_best t d0 target c p) ≡ false
  unfolding improves
  own_beaten = ground arith

  pub minimal_step :
      Settled t d0 target c p best d best' d'
      → All
          (λ e. (q : Bytes) → IsPatch t d0 target e q → improves t (byte_size q) best' ≡ false)
          (c ∷ done)
  minimal_step (lose l e at) = (
    (λ q h. rw (e, same_patch q h) l),
    subst
        (λ (b : Best).
          All (λ e'. (q : Bytes) → IsPatch t d0 target e' q → improves t (byte_size q) b ≡ false)
            done)
        (sym e) holds.minimal,
  )
  minimal_step (win w e at) =
      subst
        (λ (b : Best).
          All (λ e'. (q : Bytes) → IsPatch t d0 target e' q → improves t (byte_size q) b ≡ false)
            (c ∷ done))
        (sym e)
        (
          (λ q h. rw (same_patch q h) own_beaten),
          All_of_In _ done
              (λ e' m q h. still (byte_size q) w (All-In _ e' done holds.minimal m q h)),
        )

  pub clean_step :
      Settled t d0 target c p best d best' d'
      → All (λ e. t.path_of e ≢ best'.path → lookup (t.path_of e) d' ≡ none) (c ∷ done)
  clean_step (lose l e at) = (
    (λ ne. ground (arith, at (t.path_of c), eq_refl (t.path_of c))),
    All_of_In _ done (λ e' m ne. ground (
      arith,
      at (t.path_of e'),
      All-In (λ e''. t.path_of e'' ≢ best.path → lookup (t.path_of e'') d ≡ none) e' done
          holds.clean m (λ q. ne (q ∙ ap (λ (b : Best). b.path) (sym e))),
    )),
  )
  clean_step (win w e at) = (
    (λ ne. absurd (ne (ap (λ (b : Best). b.path) (sym e)))),
    All_of_In _ done (λ e' m ne. ground (
      arith,
      at (t.path_of e'),
      eq_iff (t.path_of c) (t.path_of e'),
      eq_iff best.path t.target_path,
      eq_iff best.path (t.path_of e'),
      All-In (λ e''. t.path_of e'' ≢ t.path_of c) e' done apart.own m,
      All-In (λ e''. t.path_of e'' ≢ t.target_path) e' done apart.target_done m,
      All-In (λ e''. t.path_of e'' ≢ best.path → lookup (t.path_of e'') d ≡ none) e' done
          holds.clean m,
    )),
  )
