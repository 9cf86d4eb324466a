-- ===== src/Text/Affix.antt =====
-- Prefixes and suffixes: the tests decide that a text begins or ends as they say.
use mathlib.Core.List.{reverse-append, reverse-reverse}
use solid_pod_rs.Prelude.{
  ◌≡◌, refl, ap, sym, ◌∙◌, ◌↔◌, true, Option, none, some, [], ◌∷◌, ◌++◌, reverse, arith,
  Option-cases, inl, inr,
}
use solid_pod_rs.Text.{Str, reverse_opt, strip_prefix, strip_suffix, starts_with, ends_with}

pub strip_prefix-append : (p s : Str) → strip_prefix p (p ++ s) ≡ some s
unfolding strip_prefix
strip_prefix-append [] s = refl
strip_prefix-append (x ∷ p) s = ground (arith, strip_prefix-append p s)

pub eq_of_strip_prefix : (p s r : Str) → strip_prefix p s ≡ some r → s ≡ p ++ r
unfolding strip_prefix
eq_of_strip_prefix [] s r h = ground arith
eq_of_strip_prefix (x ∷ p) [] r h = cc
eq_of_strip_prefix (x ∷ p) (y ∷ s) r h = ground (arith, eq_of_strip_prefix p s r)

pub strip_prefix_iff : (p s r : Str) → (strip_prefix p s ≡ some r) ↔ (s ≡ p ++ r)
strip_prefix_iff p s r = (eq_of_strip_prefix p s r, λ e. rw e (strip_prefix-append p r))

pub starts_with_iff : (p s : Str) → (starts_with p s ≡ true) ↔ ((r : Str) × (s ≡ p ++ r))
unfolding starts_with
starts_with_iff p s = (
  λ h. elim (Option-cases (strip_prefix p s)) [
    | inl e ↦ cc
    | inr (r, e) ↦ (r, eq_of_strip_prefix p s r e)
  ],
  λ (r, e). rw (e, strip_prefix-append p r),
)

pub ends_with_iff : (p s : Str) → (ends_with p s ≡ true) ↔ ((r : Str) × (s ≡ r ++ p))
unfolding ends_with
ends_with_iff p s = (
  λ h.
      let (r, e) = (starts_with_iff (reverse p) (reverse s)).0 h in
      (reverse r, sym (reverse-reverse s) ∙ ap reverse e ∙ simp (reverse-append, reverse-reverse)),
  λ (r, e).
      (starts_with_iff (reverse p) (reverse s)).1 (reverse r, ap reverse e ∙ reverse-append r p),
)

reverse_opt-some : (o : Option Str) (r : Str) → reverse_opt o ≡ some r → o ≡ some (reverse r)
reverse_opt-some none r h = cc
reverse_opt-some (some t) r h =
    let e : reverse t ≡ r = ground arith in ap some (sym (reverse-reverse t) ∙ ap reverse e)

pub eq_of_strip_suffix : (p s r : Str) → strip_suffix p s ≡ some r → s ≡ r ++ p
unfolding strip_suffix
eq_of_strip_suffix p s r h =
    let e =
      eq_of_strip_prefix (reverse p) (reverse s) (reverse r)
        (reverse_opt-some (strip_prefix (reverse p) (reverse s)) r h) in
    sym (reverse-reverse s) ∙ ap reverse e ∙ simp (reverse-append, reverse-reverse)
