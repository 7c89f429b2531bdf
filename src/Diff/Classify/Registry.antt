-- ===== src/Diff/Classify/Registry.antt =====
-- pkg/diff/classify_registry.go, and isBlobNotFound of pkg/importer/errors.go.
use diffah.Base.{
  String, Bool, false, ◌||◌, Option, none, some, List, [], ◌∷◌, ◌≡◌, refl, arith, if◌then◌else◌,
  Option-cases, inl, inr,
}
use diffah.Diff.Errors.{
  External, Error, registry_auth, registry_network, registry_manifest_missing,
  registry_manifest_invalid,
}
use diffah.Diff.Classify.{Texts, contains_any, cause_of, is_some, exit_code, classify}

unfoldable pub registry_auth_needles : List String
registry_auth_needles = "unauthorized" ∷ "authentication required" ∷ "denied" ∷ []

pub registry_missing_needles : List String
registry_missing_needles = "manifest unknown" ∷ "name unknown" ∷ "not found" ∷ []

pub registry_invalid_needles : List String
registry_invalid_needles = "schema version" ∷ "unsupported media type" ∷ "invalid manifest" ∷ []

registry_retryable_needles : List String
registry_retryable_needles =
    "too many requests" ∷ "service unavailable" ∷ "bad gateway" ∷ "gateway timeout"
    ∷ "internal server error" ∷ "eof" ∷ "connection reset" ∷ "connection refused" ∷ []

unfoldable pub says : Texts → Error → List String → Bool
says t e needles = contains_any (t.lower (t.text e)) needles

as_network : Error → Option External → Error
as_network e none = e
as_network e (some x) = elim (x.url_op) [
  | some op ↦ registry_network op e
  | none ↦ elim (x.net_op) [ some op ↦ registry_network op e | none ↦ e ]
]

-- ClassifyRegistryErr of an error that is not nil.
unfoldable pub classify_registry_err : Texts → Error → String → Error
unfolding says as_network registry_auth_needles registry_missing_needles registry_invalid_needles
classify_registry_err t e ref =
    if says t e registry_auth_needles
    then registry_auth ref
    else if says t e registry_missing_needles
    then registry_manifest_missing ref
    else if says t e registry_invalid_needles
    then registry_manifest_invalid ref (t.text e)
    else as_network e (cause_of e)

unfoldable pub is_network : Option External → Bool
is_network none = false
is_network (some x) = is_some x.url_op || is_some x.net_op

-- IsRetryableRegistryErr of an error that is not nil.
unfoldable pub is_retryable_registry_err : Texts → Error → Bool
unfolding says is_network registry_retryable_needles
is_retryable_registry_err t e = says t e registry_retryable_needles || is_network (cause_of e)

not_exist : Option External → Bool
not_exist none = false
not_exist (some x) = x.is_not_exist

-- isBlobNotFound (pkg/importer/errors.go) of an error that is not nil.
unfoldable pub is_blob_not_found : Texts → Error → Bool
unfolding not_exist says
is_blob_not_found t e =
    not_exist (cause_of e) || says t e ("unknown blob" ∷ []) || says t e ("blob unknown" ∷ [])

registry_exit_codes :
    (t : Texts) (ref reason op : String) (e : Error)
    → (exit_code (classify t (registry_auth ref)).0 ≡ 2)
      × (exit_code (classify t (registry_manifest_missing ref)).0 ≡ 4)
      × (exit_code (classify t (registry_manifest_invalid ref reason)).0 ≡ 4)
      × (exit_code (classify t (registry_network op e)).0 ≡ 3)
unfolding classify exit_code
registry_exit_codes t ref reason op e = (refl, refl, refl, refl)

as_network_code :
    (t : Texts) (e : Error) (cause : Option External)
    → exit_code (classify t (as_network e cause)).0
      ≡ (if is_network cause then 3 else exit_code (classify t e).0)
unfolding as_network is_network is_some
as_network_code t e none = refl
as_network_code t e (some x) = elim (Option-cases (x.url_op)) [
  | inr (op, q) ↦ rw (is_network, is_some, q) (registry_exit_codes t "" "" op e).3
  | inl q ↦ elim (Option-cases (x.net_op)) [
    | inr (op, r) ↦ rw (q, r) (registry_exit_codes t "" "" op e).3
    | inl r ↦ rw (q, r) refl
  ]
]

-- The exit code of a registry failure: 2 if its text speaks of authorisation, else 4 if it speaks of a
-- missing or an invalid manifest, else 3 if it comes from the network, else what the error itself has.
pub exit_code-classify_registry_err :
    (t : Texts) (e : Error) (ref : String)
    → exit_code (classify t (classify_registry_err t e ref)).0 ≡ (
        if says t e registry_auth_needles
        then 2
        else if says t e registry_missing_needles || says t e registry_invalid_needles
        then 4
        else if is_network (cause_of e)
        then 3
        else exit_code (classify t e).0)
unfolding classify_registry_err
exit_code-classify_registry_err t e ref =
    ground (arith, registry_exit_codes t ref (t.text e) "" e, as_network_code t e (cause_of e))
