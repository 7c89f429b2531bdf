-- ===== src/Diff/Specs/Accepted.antt =====
-- Which bundle specifications are accepted, and what they become.
use diffah.Base.{
  String, true, List, [], ◌∷◌, map, ◌≡◌, ◌≢◌, ◌↔◌, refl, sym, ap, ◌∙◌, arith, All, In, contains_iff,
  eq_iff, inl, inr,
}
use diffah.Base.Disk.{Bytes}
use diffah.Diff.Errors.{Error, Result, ok, err, Result-cases, >>_iff}
use diffah.Diff.Sidecar.{matches_name}
use diffah.Diff.Specs.Resolved.{
  HasTransport, validate_transport_ref_iff, IsResolved, resolve_transport_prefixed_path_iff,
}
use diffah.Diff.Specs.{
  BundlePairSpec, SpecLib, validate_transport_ref, has_transport, check_pair, check_pairs,
  resolved_pair, dir_of, some_pairs, parse_bundle_spec,
}

cons_iff :
    (x y : BundlePairSpec) (xs ys : List BundlePairSpec)
    → ((x ∷ xs) ≡ (y ∷ ys)) ↔ ((x ≡ y) × (xs ≡ ys))
cons_iff x y xs ys = ((λ e. (cc, cc)), λ (e, es). cc)

module _ (lib : SpecLib) (path : String) where
  -- The name is a valid one, and both references are there and have a transport.
  abbrev pub IsGoodSpec : BundlePairSpec → Type 0
  IsGoodSpec p =
      (matches_name p.name ≡ true)
      × (p.baseline ≢ "")
      × (p.target ≢ "")
      × HasTransport lib p.baseline
      × HasTransport lib p.target

  abbrev pub AreFresh : List String → List BundlePairSpec → Type 0
  AreFresh seen [] = Unit
  AreFresh seen (p ∷ pairs) = (¬ In p.name seen) × AreFresh (p.name ∷ seen) pairs

  has_transport_iff :
      (field ref : String) → (has_transport lib field ref ≡ ok tt) ↔ HasTransport lib ref
  unfolding has_transport
  has_transport_iff field ref = elim (Result-cases (validate_transport_ref lib ref)) [
    | inl (_, q) ↦ rw (has_transport, q) (ground (arith, q, validate_transport_ref_iff lib ref))
    | inr (e, q) ↦ rw (has_transport, q) (ground (arith, q, validate_transport_ref_iff lib ref))
  ]

  check_pair_iff :
      (seen : List String) (p : BundlePairSpec)
      → (check_pair lib path seen p ≡ ok tt) ↔ ((¬ In p.name seen) × IsGoodSpec p)
  unfolding check_pair
  check_pair_iff seen p = ground (
    arith,
    contains_iff p.name seen,
    eq_iff p.baseline "",
    eq_iff p.target "",
    >>_iff (has_transport lib "baseline" p.baseline) (has_transport lib "target" p.target) tt,
    has_transport_iff "baseline" p.baseline,
    has_transport_iff "target" p.target,
  )

  check_pairs-accepts :
      (base : String) (seen : List String) (pairs : List BundlePairSpec)
      → AreFresh seen pairs
      → All IsGoodSpec pairs
      → check_pairs lib path base seen pairs ≡ ok (map (resolved_pair lib base) pairs)
  unfolding check_pairs
  check_pairs-accepts base seen [] fresh good = refl
  check_pairs-accepts base seen (p ∷ pairs) fresh good =
      rw
        (
          check_pairs,
          (check_pair_iff seen p).1 (fresh.0, good.0),
          check_pairs-accepts base (p.name ∷ seen) pairs fresh.1 good.1,
        )
        refl

  check_pairs-accepted :
      (base : String) (seen : List String) (pairs out : List BundlePairSpec)
      → check_pairs lib path base seen pairs ≡ ok out
      → AreFresh seen pairs × All IsGoodSpec pairs
  unfolding check_pairs
  check_pairs-accepted base seen [] out h = (tt, tt)
  check_pairs-accepted base seen (p ∷ pairs) out h =
      elim (Result-cases (check_pair lib path seen p)) [
        | inr (e, q) ↦ absurd (failing (rw (check_pairs, q) at h))
        | inl (_, q) ↦ elim (Result-cases (check_pairs lib path base (p.name ∷ seen) pairs)) [
          | inr (e, k) ↦ absurd (failing (rw (check_pairs, q, k) at h))
          | inl (rest, k) ↦
              let (new, good) = (check_pair_iff seen p).0 q in
              let (fresh, all) = check_pairs-accepted base (p.name ∷ seen) pairs rest k in
              ((new, fresh), (good, all))
        ]
      ]
    where
      failing : {e : Error} → ◌≡◌ {A = Result (List BundlePairSpec)} (err e) (ok out) → ⊥
      failing k = cc

  -- The pairs with their references resolved against the directory, in the same order.
  abbrev pub AreResolved : String → List BundlePairSpec → List BundlePairSpec → Type 0
  AreResolved base [] [] = Unit
  AreResolved base [] (q ∷ out) = ⊥
  AreResolved base (p ∷ pairs) [] = ⊥
  AreResolved base (p ∷ pairs) (q ∷ out) =
      (q.name ≡ p.name)
      × IsResolved base p.baseline q.baseline
      × IsResolved base p.target q.target
      × AreResolved base pairs out

  same_spec :
      (p q : BundlePairSpec)
      → p.name ≡ q.name
      → p.baseline ≡ q.baseline
      → p.target ≡ q.target
      → p ≡ q
  same_spec p q n b t =
      ap (λ x. record { name = x; baseline = p.baseline; target = p.target }) n
      ∙ ap (λ x. record { name = q.name; baseline = x; target = p.target }) b
      ∙ ap (λ x. record { name = q.name; baseline = q.baseline; target = x }) t

  resolved_pair_iff :
      (base : String) (p q : BundlePairSpec)
      → IsGoodSpec p
      → (resolved_pair lib base p ≡ q) ↔ (
          (q.name ≡ p.name)
          × IsResolved base p.baseline q.baseline
          × IsResolved base p.target q.target)
  resolved_pair_iff base p q (_, _, _, b, t) =
      let ib = resolve_transport_prefixed_path_iff base lib p.baseline q.baseline b in
      let it = resolve_transport_prefixed_path_iff base lib p.target q.target t in
      (
        λ e. (
          sym (ap (λ (x : BundlePairSpec). x.name) e),
          ib.0 (ap (λ (x : BundlePairSpec). x.baseline) e),
          it.0 (ap (λ (x : BundlePairSpec). x.target) e),
        ),
        λ (n, rb, rt). same_spec (resolved_pair lib base p) q (sym n) (ib.1 rb) (it.1 rt),
      )

  map-AreResolved :
      (base : String) (pairs out : List BundlePairSpec)
      → All IsGoodSpec pairs
      → (map (resolved_pair lib base) pairs ≡ out) ↔ AreResolved base pairs out
  map-AreResolved base [] [] good = ((λ e. tt), λ h. refl)
  map-AreResolved base [] (q ∷ out) good = ((λ e. ground arith), λ h. absurd h)
  map-AreResolved base (p ∷ pairs) [] good = ((λ e. ground arith), λ h. absurd h)
  map-AreResolved base (p ∷ pairs) (q ∷ out) good =
      let one = resolved_pair_iff base p q good.0 in
      let rest = map-AreResolved base pairs out good.1 in
      let both = cons_iff (resolved_pair lib base p) q (map (resolved_pair lib base) pairs) out in
      (
        λ e. let (h, hs) = both.0 e in let (n, b, t) = one.0 h in (n, b, t, rest.0 hs),
        λ (n, b, t, more). both.1 (one.1 (n, b, t), rest.1 more),
      )

  -- For a file that can be read and decoded, ParseBundleSpec succeeds exactly if the specification
  -- lists pairs, no name is given twice and every pair is good: a valid name, and two references that
  -- are there, have a transport before their first colon and can be parsed by the image library. It
  -- then returns the pairs in order: for the transports docker-archive, oci-archive, oci and dir, a
  -- reference's path, up to its next colon, is joined to the directory of the file unless it is
  -- absolute; any other reference is kept.
  pub parse_bundle_spec_iff :
      (raw : Bytes) (pairs out : List BundlePairSpec)
      → lib.read_file path ≡ ok raw
      → lib.unmarshal_pairs raw ≡ ok pairs
      → (parse_bundle_spec lib path ≡ ok out) ↔ (
          (pairs ≢ [])
          × AreFresh [] pairs
          × All IsGoodSpec pairs
          × AreResolved (dir_of path) pairs out)
  unfolding parse_bundle_spec some_pairs
  parse_bundle_spec_iff raw [] out read decoded =
      rw (parse_bundle_spec, read, decoded) (ground arith)
  parse_bundle_spec_iff raw (p ∷ pairs) out read decoded =
      rw (parse_bundle_spec, read, decoded) (forth, back)
    where
      forth :
          check_pairs lib path (dir_of path) [] (p ∷ pairs) ≡ ok out
          → ((p ∷ pairs) ≢ [])
            × AreFresh [] (p ∷ pairs)
            × All IsGoodSpec (p ∷ pairs)
            × AreResolved (dir_of path) (p ∷ pairs) out
      forth h =
          let (fresh, good) = check_pairs-accepted (dir_of path) [] (p ∷ pairs) out h in
          (
            (λ e. ground arith),
            fresh,
            good,
            (map-AreResolved (dir_of path) (p ∷ pairs) out good).0
                (same (sym (check_pairs-accepts (dir_of path) [] (p ∷ pairs) fresh good) ∙ h)),
          )
        where
          same :
              {xs : List BundlePairSpec}
              → ◌≡◌ {A = Result (List BundlePairSpec)} (ok xs) (ok out)
              → xs ≡ out
          same k = cc

      back :
          ((p ∷ pairs) ≢ [])
            × AreFresh [] (p ∷ pairs)
            × All IsGoodSpec (p ∷ pairs)
            × AreResolved (dir_of path) (p ∷ pairs) out
          → check_pairs lib path (dir_of path) [] (p ∷ pairs) ≡ ok out
      back (some, fresh, good, e) =
          check_pairs-accepts (dir_of path) [] (p ∷ pairs) fresh good
          ∙ ap ok ((map-AreResolved (dir_of path) (p ∷ pairs) out good).1 e)
