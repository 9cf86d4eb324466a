-- ===== src/Ldp/Graph/Sets.antt =====
-- The operations on graphs as operations on sets of triples.
use Prim.Native.Nat.{Ordering}
use solid_pod_rs.Prelude.{◌≡◌, refl, ap, true, not, ◌&&◌, ◌||◌, List, [], ◌∷◌, arith}
use solid_pod_rs.Ldp.Graph.{
  Triple, triple_cmp, triple_eq, is_eq, Graph, place, insert_in, remove_in, contains_in, insert,
  remove, contains, insert_all, remove_all, extend, subtract,
}
use solid_pod_rs.Ldp.Graph.Order.{triple_eq_iff}

contains-place :
    (x t u : Triple) (g later : List Triple) (o : Ordering)
    → (is_eq o ≡ true → triple_eq x t ≡ triple_eq x u)
    → contains_in x later ≡ (triple_eq x t || contains_in x g)
    → contains_in x (place o t u g later) ≡ (triple_eq x t || contains_in x (u ∷ g))
unfolding contains_in
contains-place x t u g later Ordering.lt same ih = refl
contains-place x t u g later Ordering.eq same ih = ground (arith, same refl)
contains-place x t u g later Ordering.gt same ih = ground arith

contains-insert_in :
    (x t : Triple) (g : List Triple)
    → contains_in x (insert_in t g) ≡ (triple_eq x t || contains_in x g)
unfolding contains_in insert_in triple_eq
contains-insert_in x t [] = refl
contains-insert_in x t (u ∷ g) =
    contains-place x t u g (insert_in t g) (triple_cmp t u)
      (λ e. ap (triple_eq x) ((triple_eq_iff t u).0 e)) (contains-insert_in x t g)

contains-remove_in :
    (x t : Triple) (g : List Triple)
    → contains_in x (remove_in t g) ≡ (contains_in x g && not (triple_eq x t))
unfolding contains_in remove_in
contains-remove_in x t [] = refl
contains-remove_in x t (u ∷ g) =
    ground
      (arith, contains-remove_in x t g, triple_eq_iff t u, triple_eq_iff x u, triple_eq_iff x t)

pub contains-insert :
    (g : Graph) (t x : Triple) → contains (insert g t) x ≡ (triple_eq x t || contains g x)
unfolding contains insert
contains-insert g t x = contains-insert_in x t g.triples

pub contains-remove :
    (g : Graph) (t x : Triple) → contains (remove g t) x ≡ (contains g x && not (triple_eq x t))
unfolding contains remove
contains-remove g t x = contains-remove_in x t g.triples

pub contains-insert_all :
    (g : Graph) (ts : List Triple) (x : Triple)
    → contains (insert_all g ts) x ≡ (contains g x || contains_in x ts)
unfolding insert_all contains_in
contains-insert_all g [] x = ground arith
contains-insert_all g (t ∷ ts) x =
    ground (arith, contains-insert_all (insert g t) ts x, contains-insert g t x)

contains-remove_all :
    (g : Graph) (ts : List Triple) (x : Triple)
    → contains (remove_all g ts) x ≡ (contains g x && not (contains_in x ts))
unfolding remove_all contains_in
contains-remove_all g [] x = ground arith
contains-remove_all g (t ∷ ts) x =
    ground (arith, contains-remove_all (remove g t) ts x, contains-remove g t x)

pub contains-extend :
    (g other : Graph) (x : Triple)
    → contains (extend g other) x ≡ (contains g x || contains other x)
unfolding extend contains
contains-extend g other x = contains-insert_all g other.triples x

pub contains-subtract :
    (g other : Graph) (x : Triple)
    → contains (subtract g other) x ≡ (contains g x && not (contains other x))
unfolding subtract contains
contains-subtract g other x = contains-remove_all g other.triples x
