-- ===== src/Ldp/Graph/Order.antt =====
-- The derived orders answer `eq` exactly for equal values.
use Prim.Native.Nat.{compare, Ordering}
use solid_pod_rs.Prelude.{ℕ, ◌≡◌, ◌↔◌, refl, ap, true, Option, none, some, [], ◌∷◌, arith}
use solid_pod_rs.Text.{Str}
use solid_pod_rs.Ldp.Graph.{
  Term, iri, blank_node, literal, Triple, lex, str_cmp, opt_cmp, term_cmp, triple_cmp, is_eq,
  triple_eq,
}

lex_eq : (a b : Ordering) → is_eq (lex a b) ≡ true → (is_eq a ≡ true) × (is_eq b ≡ true)
lex_eq a b h = ground arith

compare_eq : (x y : ℕ) → is_eq (compare x y) ≡ true → x ≡ y
compare_eq x y h = ground arith

pub str_cmp_sound : (a b : Str) → is_eq (str_cmp a b) ≡ true → a ≡ b
unfolding str_cmp
str_cmp_sound [] [] h = refl
str_cmp_sound [] (y ∷ ys) h = cc
str_cmp_sound (x ∷ xs) [] h = cc
str_cmp_sound (x ∷ xs) (y ∷ ys) h =
    let (p, q) = lex_eq (compare x y) (str_cmp xs ys) h in
    cc (compare_eq x y p, str_cmp_sound xs ys q)

str_cmp_refl : (a : Str) → str_cmp a a ≡ Ordering.eq
unfolding str_cmp
str_cmp_refl [] = refl
str_cmp_refl (x ∷ xs) = ground (arith, str_cmp_refl xs)

opt_cmp_sound : (a b : Option Str) → is_eq (opt_cmp a b) ≡ true → a ≡ b
opt_cmp_sound none none h = refl
opt_cmp_sound none (some b) h = cc
opt_cmp_sound (some a) none h = cc
opt_cmp_sound (some a) (some b) h = ap some (str_cmp_sound a b h)

opt_cmp_refl : (a : Option Str) → opt_cmp a a ≡ Ordering.eq
opt_cmp_refl none = refl
opt_cmp_refl (some a) = str_cmp_refl a

term_cmp_sound : (a b : Term) → is_eq (term_cmp a b) ≡ true → a ≡ b
unfolding term_cmp
term_cmp_sound (iri a) (iri b) h = ap iri (str_cmp_sound a b h)
term_cmp_sound (blank_node a) (blank_node b) h = ap blank_node (str_cmp_sound a b h)
term_cmp_sound (literal v d l) (literal w e m) h =
    let (p, q) = lex_eq (str_cmp v w) (lex (opt_cmp d e) (opt_cmp l m)) h in
    let (r, s) = lex_eq (opt_cmp d e) (opt_cmp l m) q in
    cc (str_cmp_sound v w p, opt_cmp_sound d e r, opt_cmp_sound l m s)
term_cmp_sound (iri a) (blank_node b) h = cc
term_cmp_sound (iri a) (literal v d l) h = cc
term_cmp_sound (blank_node a) (iri b) h = cc
term_cmp_sound (blank_node a) (literal v d l) h = cc
term_cmp_sound (literal v d l) (iri b) h = cc
term_cmp_sound (literal v d l) (blank_node b) h = cc

term_cmp_refl : (a : Term) → term_cmp a a ≡ Ordering.eq
unfolding term_cmp
term_cmp_refl (iri a) = str_cmp_refl a
term_cmp_refl (blank_node a) = str_cmp_refl a
term_cmp_refl (literal v d l) = rw (str_cmp_refl v, opt_cmp_refl d) (opt_cmp_refl l)

triple_eq_sound : (a b : Triple) → triple_eq a b ≡ true → a ≡ b
unfolding triple_eq triple_cmp
triple_eq_sound a b h =
    let (p, q) =
      lex_eq (term_cmp a.subject b.subject)
        (lex (term_cmp a.predicate b.predicate) (term_cmp a.object b.object)) h in
    let (r, s) = lex_eq (term_cmp a.predicate b.predicate) (term_cmp a.object b.object) q in
    cc (
      term_cmp_sound a.subject b.subject p,
      term_cmp_sound a.predicate b.predicate r,
      term_cmp_sound a.object b.object s,
    )

triple_cmp_refl : (a : Triple) → triple_cmp a a ≡ Ordering.eq
unfolding triple_cmp
triple_cmp_refl a = rw (term_cmp_refl a.subject, term_cmp_refl a.predicate) (term_cmp_refl a.object)

pub triple_eq_refl : (a : Triple) → triple_eq a a ≡ true
unfolding triple_eq
triple_eq_refl a = rw (triple_cmp_refl a)

pub triple_eq_iff : (a b : Triple) → (triple_eq a b ≡ true) ↔ (a ≡ b)
triple_eq_iff a b = (triple_eq_sound a b, λ e. rw e (triple_eq_refl b))
