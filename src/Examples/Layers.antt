-- ===== src/Examples/Layers.antt =====
-- The planner and the encoder on one layer.
use diffah.Base.{
  String, false, none, List, [], ◌∷◌, ◌≡◌, ◌≢◌, refl, sym, arith, Bool-cases, inl, inr, eq_iff,
  ◌==◌,
}
use diffah.Base.Int.{pos}
use diffah.Base.Disk.{Disk, Bytes, join}
use diffah.Base.Sort.{sort}
use diffah.Diff.Types.{BlobEntry}
use diffah.Diff.Errors.{Result, ok}
use diffah.Exporter.Planner.{
  Task, task, ensure_baseline_fp, pick_top_k, cand_path, plan_shipped_top_k,
}
use diffah.Exporter.Planner.Winner.{IsUsable}
use diffah.Exporter.Planner.Choice.{Answers, plan_shipped_top_k-Answers}
use diffah.Exporter.Pool.View.{IsGoodPool}
use diffah.Exporter.Encode.{encode_one_shipped}
use diffah.Exporter.Encode.Adopt.{Fills}
use diffah.Exporter.Encode.Layer.{IsApartLayer, IsEncoding, encode_one_shipped-Fills}
use diffah.Exporter.Spool.{chunk, Read}
use diffah.Exporter.Spool.Atomic.{IsFaulty}
use diffah.Examples.Fixtures.{
  calm_os, encoder, planner_b, empty_pool, disk, layer_a, hex, baseline_b, tiny_zstd, two_digests,
  no_fingerprint, tiny_zstd-IsZstd,
}

apart : (x y : String) → (x == y) ≡ false → x ≢ y
apart x y h q = ground (arith, h, eq_iff x y)

-- A path that a read gives is not another one.
read_apart :
    (x y ref : String) → (x == y) ≡ false → ◌≡◌ {A = Result String} (ok y) (ok ref) → x ≢ ref
read_apart x y ref h r q = ground (arith, h, eq_iff x y)

abbrev with_target : Disk
with_target = ("t/aa", 5 ∷ []) ∷ disk

abbrev cand_task : Task
cand_task = task planner_b tiny_zstd two_digests layer_a "t/aa" "b" (pos 50)

usable : IsUsable cand_task with_target (5 ∷ []) (baseline_b ∷ [])
unfolding cand_path
usable = record {
  there = refl;
  distinct = (tt, tt);
  target_apart = (apart "b/aa.cand-bb" "t/aa" refl, tt);
  reads_apart = ((λ ref h. (read_apart "b/aa.cand-bb" "l/bb" ref refl h, tt)), tt);
}

plan_shipped_top_k_example :
    let p' = ensure_baseline_fp no_fingerprint planner_b in
    Answers p' tiny_zstd two_digests layer_a "t/aa" "b" with_target
      (5 ∷ [])
      (pos 50)
      (plan_shipped_top_k planner_b tiny_zstd two_digests no_fingerprint layer_a "t/aa" "b"
        (pos 1)
        with_target)
      (pick_top_k p' none (pos 100) (pos 1))
unfolding pick_top_k ensure_baseline_fp sort
plan_shipped_top_k_example =
    plan_shipped_top_k-Answers planner_b tiny_zstd two_digests no_fingerprint layer_a "t/aa" "b"
      (pos 1) with_target (5 ∷ []) usable

hex_apart :
    (path : String)
    → (join "b" "bb" == path) ≡ false
    → (join "b" "aa" == path) ≡ false
    → (j : String) → join "b" (hex j) ≢ path
hex_apart path b a j = elim (Bool-cases (j == "bb")) [
  | inl h ↦ rw h (apart (join "b" "bb") path b)
  | inr h ↦ rw h (apart (join "b" "aa") path a)
]

layer_apart : IsApartLayer encoder planner_b empty_pool layer_a (5 ∷ []) disk
unfolding cand_path pick_top_k ensure_baseline_fp sort
layer_apart = record {
  tmp_target = apart "t/aa.tmp" "t/aa" refl;
  pool_tmp = λ j held. hex_apart "t/aa.tmp" refl refl j;
  pool_target = λ j held. hex_apart "t/aa" refl refl j;
  pool_cands = λ j held. ((λ q. hex_apart "b/aa.cand-bb" refl refl j (sym q)), tt);
  own = λ j h. ground arith;
  distinct = (tt, tt);
  target_cands = (apart "b/aa.cand-bb" "t/aa" refl, tt);
  reads = (
    (λ ref h. (
      (λ q. read_apart "t/aa.tmp" "l/bb" ref refl h (sym q)),
      (λ q. read_apart "t/aa" "l/bb" ref refl h (sym q)),
      (read_apart "b/aa.cand-bb" "l/bb" ref refl h, tt),
    )),
    tt,
  );
}

empty-IsGoodPool : IsGoodPool two_digests empty_pool disk
empty-IsGoodPool = record {
  at_path = λ d path h. ground arith;
  on_disk = λ d path h. ground arith;
  same_keys = λ d. refl;
}

abbrev source : String → Result (List Read)
source d = ok (chunk (5 ∷ []) ∷ [])

calm : ¬ IsFaulty calm_os "t/aa.tmp" "t/aa" disk
calm (inl h) = h refl
calm (inr (inl h)) = h refl
calm (inr (inr (inl h))) = h refl
calm (inr (inr (inr h))) = h refl

encode_one_shipped_example :
    (v : Bytes × BlobEntry) × IsEncoding encoder planner_b layer_a disk (5 ∷ []) v
    × Fills two_digests empty_pool disk "aa" v
        (encode_one_shipped encoder source planner_b empty_pool layer_a disk)
encode_one_shipped_example =
    encode_one_shipped-Fills encoder planner_b empty_pool layer_a (5 ∷ []) disk empty-IsGoodPool
      layer_apart source (chunk (5 ∷ []) ∷ []) tiny_zstd-IsZstd refl refl refl calm refl
