-- ===== src/Diff/Specs/Resolved.antt =====
-- What becomes of the references of a bundle specification, told apart by their transports.
use Prim.Native.String.{◌++◌}
use diffah.Base.{
  String, true, false, none, some, ◌≡◌, ◌≢◌, ◌↔◌, ◌⊎◌, refl, sym, ap, subst, ◌∙◌, inl, inr, arith,
  eq_iff, cut_colon, Option-cases, Bool-cases,
}
use diffah.Archive.Clean.{is_abs}
use diffah.Diff.Errors.{Error, Result, ok, err}
use diffah.Diff.Specs.{
  SpecLib, is_file_transport, join_clean, resolved_path, resolved_rest,
  resolve_transport_prefixed_path, validate_transport_ref,
}

-- The transport before the first colon is not empty, and the image library can parse the reference.
abbrev pub HasTransport : SpecLib → String → Type 0
HasTransport lib ref =
    (transport : String) × (rest : String) × (cut_colon ref ≡ some (transport, rest))
    × (transport ≢ "")
    × (lib.parse_image_name ref ≡ none)

refuses : {e : Error} → ◌≡◌ {A = Result (Unit {0})} (err e) (ok tt) → ⊥
refuses k = cc

pub validate_transport_ref_iff :
    (lib : SpecLib) (ref : String) → (validate_transport_ref lib ref ≡ ok tt) ↔ HasTransport lib ref
unfolding validate_transport_ref
validate_transport_ref_iff lib ref = (forth, back)
  where
    forth : validate_transport_ref lib ref ≡ ok tt → HasTransport lib ref
    forth h = elim (Option-cases (cut_colon ref)) [
      | inl c ↦ absurd (refuses (rw (validate_transport_ref, c) at h))
      | inr ((transport, rest), c) ↦
          let cut = rw (validate_transport_ref, c) at h in
          (transport, rest, c, ground (arith, cut, eq_iff transport ""), ground (arith, cut))
    ]

    back : HasTransport lib ref → validate_transport_ref lib ref ≡ ok tt
    back (transport, rest, c, some_transport, parses) =
        rw (validate_transport_ref, c) (ground (arith, eq_iff transport ""))

abbrev pub IsFileTransport : String → Type 0
IsFileTransport t = (t ≡ "docker-archive") ⊎ (t ≡ "oci-archive") ⊎ (t ≡ "oci") ⊎ (t ≡ "dir")

is_file_transport_iff : (t : String) → (is_file_transport t ≡ true) ↔ IsFileTransport t
unfolding is_file_transport
is_file_transport_iff t =
    ground
      (arith, eq_iff t "docker-archive", eq_iff t "oci-archive", eq_iff t "oci", eq_iff t "dir")

-- An absolute path is kept, and a relative one is joined to the directory.
abbrev pub IsResolvedPath : String → String → String → Type 0
IsResolvedPath base path out =
    ((is_abs path ≡ true) × (out ≡ path)) ⊎ ((is_abs path ≡ false) × (out ≡ join_clean base path))

-- What follows the transport: a path, or a path before the next colon and a tail that is kept.
abbrev pub IsResolvedRest : String → String → String → Type 0
IsResolvedRest base rest out =
    ((cut_colon rest ≡ none) × IsResolvedPath base rest out)
    ⊎ ((path : String) × (tail : String) × (p : String) × (cut_colon rest ≡ some (path, tail))
        × IsResolvedPath base path p
        × (out ≡ (p ++ (":" ++ tail))))

-- A reference of a transport that names files has its path resolved, and any other is kept.
abbrev pub IsResolved : String → String → String → Type 0
IsResolved base ref out =
    (transport : String) × (rest : String) × (cut_colon ref ≡ some (transport, rest))
    × (((¬ IsFileTransport transport) × (out ≡ ref))
        ⊎ (IsFileTransport transport
            × (r : String) × IsResolvedRest base rest r
            × (out ≡ (transport ++ (":" ++ r)))))

module _ (base : String) where
  resolved_path-IsResolvedPath :
      (path : String) → IsResolvedPath base path (resolved_path base path)
  unfolding resolved_path
  resolved_path-IsResolvedPath path = elim (Bool-cases (is_abs path)) [
    | inl h ↦ inl (h, rw (resolved_path, h) refl)
    | inr h ↦ inr (h, rw (resolved_path, h) refl)
  ]

  resolved_path_unique :
      (path out : String) → IsResolvedPath base path out → resolved_path base path ≡ out
  unfolding resolved_path
  resolved_path_unique path out (inl (h, e)) = rw (resolved_path, h) (sym e)
  resolved_path_unique path out (inr (h, e)) = rw (resolved_path, h) (sym e)

  resolved_rest-IsResolvedRest :
      (rest : String) → IsResolvedRest base rest (resolved_rest base rest)
  unfolding resolved_rest
  resolved_rest-IsResolvedRest rest = elim (Option-cases (cut_colon rest)) [
    | inl c ↦
        let runs : resolved_rest base rest ≡ resolved_path base rest = rw (resolved_rest, c) refl in
        inl (c, subst (IsResolvedPath base rest) (sym runs) (resolved_path-IsResolvedPath rest))
    | inr ((path, tail), c) ↦ inr (
      path,
      tail,
      resolved_path base path,
      c,
      resolved_path-IsResolvedPath path,
      rw (resolved_rest, c) refl,
    )
  ]

  resolved_rest_unique :
      (rest out : String) → IsResolvedRest base rest out → resolved_rest base rest ≡ out
  unfolding resolved_rest
  resolved_rest_unique rest out (inl (c, r)) =
      rw (resolved_rest, c) (resolved_path_unique rest out r)
  resolved_rest_unique rest out (inr (path, tail, p, c, r, e)) =
      rw (resolved_rest, c) (ap (λ x. x ++ (":" ++ tail)) (resolved_path_unique path p r) ∙ sym e)

  resolve-IsResolved :
      (lib : SpecLib) (ref : String)
      → HasTransport lib ref
      → IsResolved base ref (resolve_transport_prefixed_path base ref)
  unfolding resolve_transport_prefixed_path
  resolve-IsResolved lib ref (transport, rest, c, _, _) =
      elim (Bool-cases (is_file_transport transport)) [
        | inl h ↦ (
          transport,
          rest,
          c,
          inr (
            (is_file_transport_iff transport).0 h,
            resolved_rest base rest,
            resolved_rest-IsResolvedRest rest,
            rw (resolve_transport_prefixed_path, c, h) refl,
          ),
        )
        | inr h ↦ (
          transport,
          rest,
          c,
          inl (
            ground (arith, is_file_transport_iff transport),
            rw (resolve_transport_prefixed_path, c, h) refl,
          ),
        )
      ]

  resolve_unique :
      (ref out : String) → IsResolved base ref out → resolve_transport_prefixed_path base ref ≡ out
  unfolding resolve_transport_prefixed_path
  resolve_unique ref out (transport, rest, c, inl (other, e)) =
      let h : is_file_transport transport ≡ false =
        ground (arith, is_file_transport_iff transport) in
      rw (resolve_transport_prefixed_path, c, h) (sym e)
  resolve_unique ref out (transport, rest, c, inr (file, r, h, e)) =
      rw (resolve_transport_prefixed_path, c, (is_file_transport_iff transport).1 file)
        (ap (λ x. transport ++ (":" ++ x)) (resolved_rest_unique rest r h) ∙ sym e)

  -- For a reference with a transport, the resolved reference is the one that the relation gives.
  pub resolve_transport_prefixed_path_iff :
      (lib : SpecLib) (ref out : String)
      → HasTransport lib ref
      → (resolve_transport_prefixed_path base ref ≡ out) ↔ IsResolved base ref out
  resolve_transport_prefixed_path_iff lib ref out h =
      (λ e. subst (IsResolved base ref) e (resolve-IsResolved lib ref h), resolve_unique ref out)
