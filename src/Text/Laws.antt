-- ===== src/Text/Laws.antt =====
-- Equality of texts, trimming and membership.
use solid_pod_rs.Prelude.{
  ℕ, ◌≡◌, refl, ap, ◌⊎◌, inl, inr, Bool-cases, ◌↔◌, Bool, true, false, Option, none, some, List, [],
  ◌∷◌, ◌++◌, arith, any, Memᴰ, any-elim, any-intro,
}
use solid_pod_rs.Text.{
  break_at, Str, str_eq, elem, opt_str_eq, trim_end_by, trim_start_by, trim, trim_start, trim_end,
  is_whitespace, has, split_once,
}

str_eq_sound : (a b : Str) → str_eq a b ≡ true → a ≡ b
unfolding str_eq
str_eq_sound [] [] h = refl
str_eq_sound [] (y ∷ ys) h = cc
str_eq_sound (x ∷ xs) [] h = cc
str_eq_sound (x ∷ xs) (y ∷ ys) h = ground (arith, str_eq_sound xs ys)

pub str_eq_refl : (a : Str) → str_eq a a ≡ true
unfolding str_eq
str_eq_refl [] = refl
str_eq_refl (x ∷ xs) = ground (arith, str_eq_refl xs)

pub str_eq_iff : (a b : Str) → (str_eq a b ≡ true) ↔ (a ≡ b)
str_eq_iff a b = (str_eq_sound a b, λ e. rw e (str_eq_refl b))

pub opt_str_eq_iff : (a b : Option Str) → (opt_str_eq a b ≡ true) ↔ (a ≡ b)
opt_str_eq_iff none none = ground arith
opt_str_eq_iff none (some b) = ground arith
opt_str_eq_iff (some a) none = ground arith
opt_str_eq_iff (some a) (some b) = ground (arith, str_eq_iff a b)

pub elem_iff : (s : Str) (xs : List Str) → (elem s xs ≡ true) ↔ Memᴰ s xs
elem_iff s xs = (
  λ h. let (x, m, e) = any-elim (str_eq s) xs h in rw ((str_eq_iff s x).0 e) m,
  λ m. any-intro (str_eq s) m (str_eq_refl s),
)

-- A text with no character to trim stays as it is.
pub trim_end_by-none : (p : ℕ → Bool) (s : Str) → any p s ≡ false → trim_end_by p s ≡ s
unfolding trim_end_by
trim_end_by-none p [] h = refl
trim_end_by-none p (x ∷ xs) h = ground (arith, trim_end_by-none p xs)

pub trim_start_by-none : (p : ℕ → Bool) (s : Str) → any p s ≡ false → trim_start_by p s ≡ s
unfolding trim_start_by
trim_start_by-none p [] h = refl
trim_start_by-none p (x ∷ xs) h = ground arith

pub trim-none : (s : Str) → any is_whitespace s ≡ false → trim s ≡ s
unfolding trim trim_start trim_end
trim-none s h = rw (trim_end_by-none is_whitespace s h) (trim_start_by-none is_whitespace s h)

-- Splitting at the first occurrence of a separator of one character.
pub split_once-append :
    (c : ℕ) (p q : Str) → has c p ≡ false → split_once (c ∷ []) (p ++ c ∷ q) ≡ some (p, q)
unfolding split_once
split_once-append c [] q h = ground arith
split_once-append c (x ∷ p) q h = ground (arith, split_once-append c p q)

-- Breaking a text at the first character that passes a test.
pub break_at-append :
    (p : ℕ → Bool) (s : Str) (c : ℕ) (r : Str)
    → any p s ≡ false
    → p c ≡ true
    → break_at p (s ++ c ∷ r) ≡ (s, c ∷ r)
unfolding break_at
break_at-append p [] c r h k = rw k
break_at-append p (x ∷ s) c r h k = ground (arith, break_at-append p s c r)

pub break_at-cases :
    (p : ℕ → Bool) (s : Str)
    → (any p s ≡ false)
      ⊎ ((n : Str) × (c : ℕ) × (r : Str) × (any p n ≡ false) × (p c ≡ true) × (s ≡ n ++ c ∷ r))
break_at-cases p [] = inl refl
break_at-cases p (x ∷ s) = elim (Bool-cases (p x)) [
  | inl e ↦ inr ([], x, s, refl, e, refl)
  | inr e ↦ elim (break_at-cases p s) [
    | inl none_passes ↦ inl (rw (e, none_passes) refl)
    | inr (n, c, r, before, at, whole) ↦
        inr (x ∷ n, c, r, rw (e, before) refl, at, ap (λ t. x ∷ t) whole)
  ]
]

pub break_at-none : (p : ℕ → Bool) (s : Str) → any p s ≡ false → break_at p s ≡ (s, [])
unfolding break_at
break_at-none p [] h = refl
break_at-none p (x ∷ s) h = ground (arith, break_at-none p s)
