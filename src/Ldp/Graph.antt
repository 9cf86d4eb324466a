-- ===== src/Ldp/Graph.antt =====
-- The RDF model: terms, triples and graphs (crates/solid-pod-rs/src/ldp.rs). A `BTreeSet` is the list of
-- its elements in the derived order; texts are compared by code points, as UTF-8 bytes would be.
pub mod Order
pub mod Sets
use Prim.Native.Nat.{compare, Ordering}
use solid_pod_rs.Prelude.{
  ℕ, suc, ◌+◌, ◌≡◌, Bool, true, false, ◌&&◌, ◌||◌, Option, none, some, List, [], ◌∷◌, ◌++◌,
  if◌then◌else◌, length,
}
use solid_pod_rs.Text.{Str, text, is_empty}

pub data Term : Type 0 where
  iri : Str → Term
  blank_node : Str → Term
  literal : (value : Str) (datatype language : Option Str) → Term

abbrev pub plain_literal : Str → Term
plain_literal v = literal v none none

abbrev pub typed_literal : Str → Str → Term
typed_literal v dt = literal v (some dt) none

pub record Triple : Type 0 where
  pub subject : Term
  pub predicate : Term
  pub object : Term

abbrev pub lex : Ordering → Ordering → Ordering
lex Ordering.lt o = Ordering.lt
lex Ordering.gt o = Ordering.gt
lex Ordering.eq o = o

unfoldable pub str_cmp : Str → Str → Ordering
str_cmp [] [] = Ordering.eq
str_cmp [] (y ∷ ys) = Ordering.lt
str_cmp (x ∷ xs) [] = Ordering.gt
str_cmp (x ∷ xs) (y ∷ ys) = lex (compare x y) (str_cmp xs ys)

abbrev pub opt_cmp : Option Str → Option Str → Ordering
opt_cmp none none = Ordering.eq
opt_cmp none (some b) = Ordering.lt
opt_cmp (some a) none = Ordering.gt
opt_cmp (some a) (some b) = str_cmp a b

unfoldable pub term_cmp : Term → Term → Ordering
unfolding str_cmp
term_cmp (iri a) (iri b) = str_cmp a b
term_cmp (iri a) (blank_node b) = Ordering.lt
term_cmp (iri a) (literal v d l) = Ordering.lt
term_cmp (blank_node a) (iri b) = Ordering.gt
term_cmp (blank_node a) (blank_node b) = str_cmp a b
term_cmp (blank_node a) (literal v d l) = Ordering.lt
term_cmp (literal v d l) (iri b) = Ordering.gt
term_cmp (literal v d l) (blank_node b) = Ordering.gt
term_cmp (literal v d l) (literal w e m) = lex (str_cmp v w) (lex (opt_cmp d e) (opt_cmp l m))

unfoldable pub triple_cmp : Triple → Triple → Ordering
unfolding term_cmp
triple_cmp a b =
    lex (term_cmp a.subject b.subject)
      (lex (term_cmp a.predicate b.predicate) (term_cmp a.object b.object))

abbrev pub is_eq : Ordering → Bool
is_eq Ordering.eq = true
is_eq Ordering.lt = false
is_eq Ordering.gt = false

unfoldable pub triple_eq : Triple → Triple → Bool
unfolding triple_cmp
triple_eq a b = is_eq (triple_cmp a b)

pub record Graph : Type 0 where
  pub triples : List Triple

abbrev pub new_graph : Graph
new_graph = record { triples = [] }

abbrev place : Ordering → Triple → Triple → List Triple → List Triple → List Triple
place Ordering.lt t u g later = t ∷ u ∷ g
place Ordering.eq t u g later = u ∷ g
place Ordering.gt t u g later = u ∷ later

pub insert_in : Triple → List Triple → List Triple
insert_in t [] = t ∷ []
insert_in t (u ∷ g) = place (triple_cmp t u) t u g (insert_in t g)

pub remove_in : Triple → List Triple → List Triple
remove_in t [] = []
remove_in t (u ∷ g) = let rest = remove_in t g in if triple_eq t u then rest else u ∷ rest

unfoldable pub contains_in : Triple → List Triple → Bool
contains_in t [] = false
contains_in t (u ∷ g) = triple_eq t u || contains_in t g

unfoldable pub insert : Graph → Triple → Graph
unfolding insert_in
insert g t = record { triples = insert_in t g.triples }

-- `BTreeSet::remove`, without the Boolean that it returns.
unfoldable pub remove : Graph → Triple → Graph
unfolding remove_in
remove g t = record { triples = remove_in t g.triples }

unfoldable pub contains : Graph → Triple → Bool
unfolding contains_in
contains g t = contains_in t g.triples

abbrev pub len : Graph → ℕ
len g = length g.triples

unfoldable pub insert_all : Graph → List Triple → Graph
insert_all g [] = g
insert_all g (t ∷ ts) = insert_all (insert g t) ts

pub remove_all : Graph → List Triple → Graph
remove_all g [] = g
remove_all g (t ∷ ts) = remove_all (remove g t) ts

unfoldable pub from_triples : List Triple → Graph
unfolding insert_all insert
from_triples ts = insert_all new_graph ts

unfoldable pub extend : Graph → Graph → Graph
unfolding insert_all insert
extend g other = insert_all g other.triples

unfoldable pub subtract : Graph → Graph → Graph
unfolding remove_all remove
subtract g other = remove_all g other.triples
