-- ===== src/Wac/Turtle/Conditions/Fuel.antt =====
-- The fuel of the loop over conditions is enough.
use solid_pod_rs.Prelude.{
  ℕ, zero, suc, ◌==◌, ◌≤◌, ◌<◌, ◌≡◌, refl, ap, Bool, false, not, ◌&&◌, Option, none, some, List, [],
  ◌∷◌, ◌++◌, length, arith, Bool-cases, inl, inr,
}
use solid_pod_rs.Text.{Str, is_empty, strip_prefix, trim_start}
use solid_pod_rs.Text.Map.{Map}
use solid_pod_rs.Wac.Document.{Condition}
use solid_pod_rs.Wac.Turtle.{turtle_pop_term}
use solid_pod_rs.Wac.Turtle.Fuel.{length-trim_start, length-strip, pop-shorter, none_below}
use solid_pod_rs.Wac.Turtle.Conditions.{
  cons_first, matching_close, behind_comma, bracketed, named, condition_at, next_condition,
  conditions_from,
}

cons_first-rest :
    (c : ℕ) (o : Option (Str × Str)) (body rest : Str)
    → cons_first c o ≡ some (body, rest)
    → (inner : Str) × (o ≡ some (inner, rest))
cons_first-rest c none body rest h = cc
cons_first-rest c (some (inner, r)) body rest h =
    let same : r ≡ rest = cc in (inner, ap (λ s. some (inner, s)) same)

matching_close-shorter :
    (s : Str) (depth : ℕ) (in_str : Bool) (body rest : Str)
    → matching_close s depth in_str ≡ some (body, rest)
    → length rest ≤ length s
unfolding matching_close
matching_close-shorter [] depth in_str body rest h = cc
matching_close-shorter (c ∷ cs) depth in_str body rest h =
    elim (Bool-cases (c == b']' && (not in_str && depth == 1))) [
      | inl closes ↦
          let same : some ([], cs) ≡ some (body, rest) = rw closes at h in
          let tail_of : cs ≡ rest = cc in omega (arith, ap length tail_of)
      | inr further ↦
          let (inner, e) = cons_first-rest c _ body rest (rw further at h) in
          omega (arith, matching_close-shorter cs _ _ inner rest e)
    ]

module _ (prefixes : Map Str) where
  behind_comma-shorter :
      (rest more : Str) → behind_comma prefixes rest ≡ some more → length more < length rest
  behind_comma-shorter rest more h =
      omega (arith, length-strip b',' (trim_start rest) more h, length-trim_start rest)

  bracketed-shorter :
      (o : Option (Str × Str)) (r : Str) (conds : List Condition) (more : Str)
      → matching_close r 1 false ≡ o
      → bracketed prefixes o ≡ some (conds, some more)
      → length more < length r
  unfolding bracketed
  bracketed-shorter none r conds more e h = cc
  bracketed-shorter (some (body, rest)) r conds more e h =
      let behind : behind_comma prefixes rest ≡ some more = cc in
      omega
        (arith, behind_comma-shorter rest more behind, matching_close-shorter r 1 false body rest e)

  named-shorter :
      (o : Option (Str × Str)) (r : Str) (conds : List Condition) (more : Str)
      → turtle_pop_term r ≡ o
      → named prefixes o ≡ some (conds, some more)
      → length more < length r
  unfolding named
  named-shorter none r conds more e h = cc
  named-shorter (some (tok, rest)) r conds more e h =
      let behind : behind_comma prefixes rest ≡ some more = cc in
      omega (arith, behind_comma-shorter rest more behind, pop-shorter r tok rest e)

  condition_at-shorter :
      (r : Str) (o : Option Str) (conds : List Condition) (more : Str)
      → strip_prefix (b'[' ∷ []) r ≡ o
      → condition_at prefixes r o ≡ some (conds, some more)
      → length more < length r
  unfolding condition_at
  condition_at-shorter r none conds more e h = named-shorter (turtle_pop_term r) r conds more refl h
  condition_at-shorter r (some after) conds more e h = omega (
    arith,
    bracketed-shorter (matching_close after 1 false) after conds more refl h,
    length-strip b'[' r after e,
  )

  next_condition-shorter :
      (t : Str) (conds : List Condition) (more : Str)
      → next_condition prefixes t ≡ some (conds, some more)
      → length more < length t
  unfolding next_condition
  next_condition-shorter t conds more h = elim (Bool-cases (is_empty (trim_start t))) [
    | inl e ↦ let bad = rw e at h in cc
    | inr e ↦ omega (
      arith,
      condition_at-shorter (trim_start t) (strip_prefix (b'[' ∷ []) (trim_start t)) conds more refl
          (rw e at h),
      length-trim_start t,
    )
  ]

  -- One round, with two amounts of fuel for the rounds behind it.
  same_round :
      (m n : ℕ) (t : Str) (o : Option (List Condition × Option Str))
      → next_condition prefixes t ≡ o
      → ((conds : List Condition) (more : Str)
          → o ≡ some (conds, some more)
          → conditions_from prefixes m more ≡ conditions_from prefixes n more)
      → conditions_from prefixes (suc m) t ≡ conditions_from prefixes (suc n) t
  unfolding conditions_from
  same_round m n t none e k = rw (conditions_from, e) refl
  same_round m n t (some (conds, none)) e k = rw (conditions_from, e) refl
  same_round m n t (some (conds, some more)) e k =
      rw (conditions_from, e) (ap (λ cs. conds ++ cs) (k conds more refl))

  -- Any two amounts of fuel above the length of the text give the same conditions.
  pub conditions_from-enough :
      (m n : ℕ) (t : Str)
      → length t < m
      → length t < n
      → conditions_from prefixes m t ≡ conditions_from prefixes n t
  conditions_from-enough (suc m) (suc n) t h k =
      same_round m n t (next_condition prefixes t) refl (λ conds more e.
        conditions_from-enough m n more (omega (arith, next_condition-shorter t conds more e))
          (omega (arith, next_condition-shorter t conds more e)))
  conditions_from-enough zero n t h k = elim (none_below (length t) h) [ ]
  conditions_from-enough (suc m) zero t h k = elim (none_below (length t) k) [ ]
