-- ===== src/Wac/Resolver/Walk.antt =====
-- The fuel of the walk, and the levels that it visits.
use solid_pod_rs.Prelude.{
  ℕ, zero, suc, ◌+◌, ◌≤◌, ◌<◌, ◌≡◌, refl, sym, ◌∙◌, ◌⊎◌, true, Bool, false, Option, none, some,
  List, [], ◌∷◌, ◌==◌, if◌then◌else◌, length, arith, Bool-cases, Option-cases, inl, inr,
}
use solid_pod_rs.Error.{PodError, Result, ok, err}
use solid_pod_rs.Text.{Str, str_eq, trim_end_by, trim_end_matches}
use solid_pod_rs.Wac.Document.{AclDocument}
use solid_pod_rs.Wac.Resolver.{
  before_last, container_of, parent, is_top, Visit, answer, fail, go_on, walk,
}

length-before_last : (c : ℕ) (s t : Str) → before_last c s ≡ some t → length t < length s
unfolding before_last
length-before_last c [] t h = cc
length-before_last c (x ∷ xs) t h = elim (Option-cases (before_last c xs)) [
  | inl e ↦ ground (arith, e)
  | inr (u, e) ↦
      let ih = length-before_last c xs u e in
      let same : x ∷ u ≡ t = ground (arith, e) in rw (← same) (omega arith)
]

length-trim_end_by : (p : ℕ → Bool) (s : Str) → length (trim_end_by p s) ≤ length s
unfolding trim_end_by
length-trim_end_by p [] = omega arith
length-trim_end_by p (x ∷ xs) = ground (arith, length-trim_end_by p xs)

-- What is left of the walk: nothing at the top, else one more than the path's length.
unfoldable pub weight : Str → ℕ
weight path = if is_top path then 0 else length path + 1

container_of-weight :
    (o : Option Str) (n : ℕ) → ((t : Str) → o ≡ some t → length t < n) → weight (container_of o) ≤ n
unfolding container_of weight str_eq
container_of-weight none n h = ground arith
container_of-weight (some []) n h = ground arith
container_of-weight (some (c ∷ s)) n h = ground (arith, h (c ∷ s) refl)

pub weight-parent : (path : Str) → is_top path ≡ false → weight (parent path) < weight path
unfolding parent trim_end_matches weight
weight-parent path h =
    let trimmed = trim_end_by (λ x. x == b'/') path in
    let short = length-trim_end_by (λ x. x == b'/') path in
    let lower =
      container_of-weight (before_last b'/' trimmed) (length trimmed)
        (length-before_last b'/' trimmed) in
    ground (arith, lower, short)

-- The paths that the walk visits until it reaches the top, whatever is stored.
pub levels : ℕ → Str → List Str
levels zero path = []
levels (suc fuel) path =
    let above = levels fuel (parent path) in if is_top path then path ∷ [] else path ∷ above

abbrev pub settle : Visit → Result (Option AclDocument) → Result (Option AclDocument)
settle (answer doc) later = ok (some doc)
settle (fail e) later = err e
settle go_on later = later

-- The answer of the first level that has one; `none` where no level has.
pub first_decisive : (Str → Visit) → List Str → Result (Option AclDocument)
first_decisive at [] = ok none
first_decisive at (path ∷ paths) = settle (at path) (first_decisive at paths)

pub walk-levels :
    (at : Str → Visit) (fuel : ℕ) (path : Str)
    → weight path < fuel
    → walk at fuel path ≡ some (first_decisive at (levels fuel path))
unfolding walk levels first_decisive
walk-levels at zero path h = elim h [ ]
walk-levels at (suc fuel) path h = elim (Bool-cases (is_top path)) [
  | inl e ↦ rw e (ground arith)
  | inr e ↦
      let lower = weight-parent path e in
      rw e (ground (arith, walk-levels at fuel (parent path) (omega arith)))
]

pub Visit-cases :
    (v : Visit)
    → ((acl : AclDocument) × (v ≡ answer acl)) ⊎ ((e : PodError) × (v ≡ fail e)) ⊎ (v ≡ go_on)
Visit-cases (answer acl) = inl (acl, refl)
Visit-cases (fail e) = inr (inl (e, refl))
Visit-cases go_on = inr (inr refl)

-- One round of the walk.
module _ (at : Str → Visit) (fuel : ℕ) (path : Str) where
  pub walk-answer :
      (acl : AclDocument) → at path ≡ answer acl → walk at (suc fuel) path ≡ some (ok (some acl))
  unfolding walk
  walk-answer acl e = rw (walk, e) refl

  pub walk-fail : (x : PodError) → at path ≡ fail x → walk at (suc fuel) path ≡ some (err x)
  unfolding walk
  walk-fail x e = rw (walk, e) refl

  pub walk-top : at path ≡ go_on → is_top path ≡ true → walk at (suc fuel) path ≡ some (ok none)
  unfolding walk
  walk-top e top = rw (walk, e, top) refl

  pub walk-up :
      at path ≡ go_on → is_top path ≡ false → walk at (suc fuel) path ≡ walk at fuel (parent path)
  unfolding walk
  walk-up e low = rw (walk, e, low) refl

-- More fuel than the weight makes no difference.
pub walk-fuel :
    (at : Str → Visit) (m n : ℕ) (path : Str)
    → weight path < m
    → weight path < n
    → walk at m path ≡ walk at n path
walk-fuel at zero n path h k = absurd (omega arith)
walk-fuel at (suc m) zero path h k = absurd (omega arith)
walk-fuel at (suc m) (suc n) path h k = elim (Visit-cases (at path)) [
  | inl (acl, e) ↦ walk-answer at m path acl e ∙ sym (walk-answer at n path acl e)
  | inr (inl (x, e)) ↦ walk-fail at m path x e ∙ sym (walk-fail at n path x e)
  | inr (inr e) ↦ elim (Bool-cases (is_top path)) [
    | inl top ↦ walk-top at m path e top ∙ sym (walk-top at n path e top)
    | inr low ↦
        let lower = weight-parent path low in
        walk-up at m path e low
        ∙ walk-fuel at m n (parent path) (omega (arith, lower)) (omega (arith, lower))
        ∙ sym (walk-up at n path e low)
  ]
]
