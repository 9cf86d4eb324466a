-- ===== src/Wac/Target/Meaning.antt =====
-- The meaning of `path_matches`: an exact match, a direct child, or a descendant.
use solid_pod_rs.Prelude.{
  ◌≡◌, refl, ap, ◌∙◌, ◌≢◌, ◌↔◌, ◌⊎◌, inl, inr, Bool, true, false, Option, none, some, [], ◌∷◌, ◌++◌,
  arith, if◌then◌else◌, Bool-cases,
}
use solid_pod_rs.Text.{Str, str_eq, strip_prefix, starts_with, has}
use solid_pod_rs.Text.Laws.{str_eq_iff}
use solid_pod_rs.Text.Affix.{strip_prefix_iff, starts_with_iff}
use solid_pod_rs.Wac.Target.{
  slash, normalize_path, is_child_name, child_prefix, covers, path_matches,
}

-- `acl:accessTo`: the target itself, or one more path segment.
abbrev pub IsSelfOrChild : Str → Str → Type 0
IsSelfOrChild rule resource =
    (resource ≡ rule)
    ⊎ ((name : Str) × (resource ≡ child_prefix rule ++ name)
        × (name ≢ [])
        × (has b'/' name ≡ false))

-- `acl:default`: the target itself, or anything under it.
abbrev pub IsSelfOrBelow : Str → Str → Type 0
IsSelfOrBelow rule resource =
    (resource ≡ rule) ⊎ ((rest : Str) × (resource ≡ child_prefix rule ++ rest))

is_child_name_iff :
    (o : Option Str)
    → (is_child_name o ≡ true)
      ↔ ((name : Str) × (o ≡ some name) × (name ≢ []) × (has b'/' name ≡ false))
unfolding is_child_name
is_child_name_iff none = (λ h. cc, λ (n, e, ne, clean). cc)
is_child_name_iff (some []) = (λ h. cc, λ (n, e, ne, clean). absurd (ne (cc)))
is_child_name_iff (some (c ∷ s)) = (
  λ h. (c ∷ s, refl, cc, ground arith),
  λ (n, e, ne, clean).
      let same : has b'/' (c ∷ s) ≡ has b'/' n = let tail : c ∷ s ≡ n = cc in ap (has b'/') tail in
      ground (arith, same ∙ clean),
)

child_iff :
    (p resource : Str)
    → (is_child_name (strip_prefix p resource) ≡ true)
      ↔ ((name : Str) × (resource ≡ p ++ name) × (name ≢ []) × (has b'/' name ≡ false))
child_iff p resource = (
  λ h.
      let (n, e, ne, clean) = (is_child_name_iff _).0 h in
      (n, (strip_prefix_iff p resource n).0 e, ne, clean),
  λ (n, e, ne, clean). (is_child_name_iff _).1 (n, (strip_prefix_iff p resource n).1 e, ne, clean),
)

covers-child :
    (rule resource : Str) → (covers rule resource false ≡ true) ↔ IsSelfOrChild rule resource
unfolding covers
covers-child rule resource = elim (Bool-cases (str_eq resource rule)) [
  | inl e ↦ rw e (λ _. inl ((str_eq_iff resource rule).0 e), λ _. refl)
  | inr e ↦ rw e (
    λ h. inr ((child_iff (child_prefix rule) resource).0 h),
    elim [
      | inl same ↦ cc (e, (str_eq_iff resource rule).1 same)
      | inr child ↦ (child_iff (child_prefix rule) resource).1 child
    ],
  )
]

below_test : Str → Str → Bool
below_test rule resource =
    if str_eq rule slash then starts_with slash resource else starts_with (rule ++ slash) resource

below_test_iff :
    (rule resource : Str)
    → (below_test rule resource ≡ true) ↔ ((rest : Str) × (resource ≡ child_prefix rule ++ rest))
unfolding below_test child_prefix
below_test_iff rule resource = elim (Bool-cases (str_eq rule slash)) [
  | inl e ↦ rw e (starts_with_iff slash resource)
  | inr e ↦ rw e (starts_with_iff (rule ++ slash) resource)
]

covers-below :
    (rule resource : Str) → (covers rule resource true ≡ true) ↔ IsSelfOrBelow rule resource
unfolding covers below_test
covers-below rule resource = elim (Bool-cases (str_eq resource rule)) [
  | inl e ↦ rw e (λ _. inl ((str_eq_iff resource rule).0 e), λ _. refl)
  | inr e ↦ rw e (
    λ h. inr ((below_test_iff rule resource).0 h),
    elim [
      | inl same ↦ cc (e, (str_eq_iff resource rule).1 same)
      | inr below ↦ (below_test_iff rule resource).1 below
    ],
  )
]

-- `path_matches` with `is_default` false accepts exactly the normalised target and its direct
-- children: one further non-empty segment with no slash. With `is_default` true it accepts
-- exactly the normalised target and every path under it.
pub path_matches_iff :
    (rule resource : Str)
    → ((path_matches rule resource false ≡ true)
        ↔ IsSelfOrChild (normalize_path rule) (normalize_path resource))
      × ((path_matches rule resource true ≡ true)
          ↔ IsSelfOrBelow (normalize_path rule) (normalize_path resource))
unfolding path_matches
path_matches_iff rule resource = (
  covers-child (normalize_path rule) (normalize_path resource),
  covers-below (normalize_path rule) (normalize_path resource),
)

-- What `acl:accessTo` covers, `acl:default` covers too.
pub default_of_access_to :
    (rule resource : Str)
    → path_matches rule resource false ≡ true
    → path_matches rule resource true ≡ true
default_of_access_to rule resource h =
    let (child, below) = path_matches_iff rule resource in below.1 (widen (child.0 h))
  where
    widen :
        IsSelfOrChild (normalize_path rule) (normalize_path resource)
        → IsSelfOrBelow (normalize_path rule) (normalize_path resource)
    widen (inl e) = inl e
    widen (inr (name, e, ne, clean)) = inr (name, e)
