-- ===== src/Wac/Turtle/Fuel.antt =====
-- The fuel of the loop over objects is enough.
use solid_pod_rs.Prelude.{
  ℕ, zero, suc, ◌≤◌, ◌<◌, ◌≡◌, refl, ap, Bool, Option, none, some, [], ◌∷◌, ◌==◌, length, arith,
  Bool-cases, inl, inr,
}
use solid_pod_rs.Text.{
  Str, is_empty, is_whitespace, starts_with, strip_prefix, trim_start, trim_start_by, break_at,
}
use solid_pod_rs.Text.Affix.{eq_of_strip_prefix}
use solid_pod_rs.Text.Map.{Map}
use solid_pod_rs.Wac.Turtle.{
  ends_token, closed_iri, pop_bare, pop_trimmed, turtle_pop_term, popped_object, next_object,
  objects_from,
}

length-trim_start_by : (p : ℕ → Bool) (s : Str) → length (trim_start_by p s) ≤ length s
unfolding trim_start_by
length-trim_start_by p [] = omega arith
length-trim_start_by p (c ∷ s) = ground (arith, length-trim_start_by p s)

pub length-trim_start : (s : Str) → length (trim_start s) ≤ length s
unfolding trim_start
length-trim_start s = length-trim_start_by is_whitespace s

length-break_at : (p : ℕ → Bool) (s : Str) → length (break_at p s).1 ≤ length s
unfolding break_at
length-break_at p [] = omega arith
length-break_at p (c ∷ s) = ground (arith, length-break_at p s)

pub length-strip : (c : ℕ) (s r : Str) → strip_prefix (c ∷ []) s ≡ some r → length r < length s
length-strip c s r h = omega (arith, ap length (eq_of_strip_prefix (c ∷ []) s r h))

closed_iri-shorter :
    (q : Str × Str) (tok rest : Str) → closed_iri q ≡ some (tok, rest) → length rest ≤ length q.1
unfolding closed_iri
closed_iri-shorter (iri, []) tok rest h = cc
closed_iri-shorter (iri, c ∷ r) tok rest h =
    let same : r ≡ rest = cc in omega (arith, ap length same)

rest_of : (q : Str × Str) (tok rest : Str) → some q ≡ some (tok, rest) → q.1 ≡ rest
rest_of q tok rest h = ap snd_or (h)
  where
    snd_or : Option (Str × Str) → Str
    snd_or none = []
    snd_or (some p) = p.1

pop_trimmed-shorter :
    (input : Str) (o : Option Str) (tok rest : Str)
    → strip_prefix (b'<' ∷ []) input ≡ o
    → pop_trimmed input o ≡ some (tok, rest)
    → length rest ≤ length input
unfolding pop_trimmed pop_bare
pop_trimmed-shorter input none tok rest e h = elim (Bool-cases (starts_with (b'"' ∷ []) input)) [
  | inl quoted ↦ let bad = rw quoted at h in cc
  | inr bare ↦
      let same : some (break_at ends_token input) ≡ some (tok, rest) = rw bare at h in
      omega (arith, ap length (rest_of _ tok rest same), length-break_at ends_token input)
]
pop_trimmed-shorter input (some r) tok rest e h = omega (
  arith,
  closed_iri-shorter (break_at (λ c. c == b'>') r) tok rest h,
  length-break_at (λ c. c == b'>') r,
  length-strip b'<' input r e,
)

pub pop-shorter :
    (input tok rest : Str) → turtle_pop_term input ≡ some (tok, rest) → length rest ≤ length input
unfolding turtle_pop_term
pop-shorter input tok rest h = omega (
  arith,
  pop_trimmed-shorter (trim_start input) (strip_prefix (b'<' ∷ []) (trim_start input)) tok rest refl
      h,
  length-trim_start input,
)

pub none_below : (n : ℕ) → n < 0 → ⊥
none_below n h = omega arith

module _ (prefixes : Map Str) where
  popped-shorter :
      (o : Option (Str × Str)) (r object more : Str)
      → turtle_pop_term r ≡ o
      → popped_object prefixes o ≡ some (object, some more)
      → length more < length r
  unfolding popped_object
  popped-shorter none r object more e h = cc
  popped-shorter (some (tok, rest)) r object more e h =
      let behind : strip_prefix (b',' ∷ []) (trim_start rest) ≡ some more = cc in
      omega (
        arith,
        length-strip b',' (trim_start rest) more behind,
        length-trim_start rest,
        pop-shorter r tok rest e,
      )

  next_object-shorter :
      (t object more : Str)
      → next_object prefixes t ≡ some (object, some more)
      → length more < length t
  unfolding next_object
  next_object-shorter t object more h = elim (Bool-cases (is_empty (trim_start t))) [
    | inl e ↦ let bad = rw e at h in cc
    | inr e ↦ omega (
      arith,
      popped-shorter (turtle_pop_term (trim_start t)) (trim_start t) object more refl (rw e at h),
      length-trim_start t,
    )
  ]

  -- One round, with two amounts of fuel for the rounds behind it.
  same_round :
      (m n : ℕ) (t : Str) (o : Option (Str × Option Str))
      → next_object prefixes t ≡ o
      → ((object more : Str)
          → o ≡ some (object, some more)
          → objects_from prefixes m more ≡ objects_from prefixes n more)
      → objects_from prefixes (suc m) t ≡ objects_from prefixes (suc n) t
  unfolding objects_from
  same_round m n t none e k = rw (objects_from, e) refl
  same_round m n t (some (object, none)) e k = rw (objects_from, e) refl
  same_round m n t (some (object, some more)) e k =
      rw (objects_from, e) (ap (λ os. object ∷ os) (k object more refl))

  -- Any two amounts of fuel above the length of the text give the same objects.
  pub objects_from-enough :
      (m n : ℕ) (t : Str)
      → length t < m
      → length t < n
      → objects_from prefixes m t ≡ objects_from prefixes n t
  objects_from-enough (suc m) (suc n) t h k =
      same_round m n t (next_object prefixes t) refl (λ object more e.
        objects_from-enough m n more (omega (arith, next_object-shorter t object more e))
          (omega (arith, next_object-shorter t object more e)))
  objects_from-enough zero n t h k = elim (none_below (length t) h) [ ]
  objects_from-enough (suc m) zero t h k = elim (none_below (length t) k) [ ]
