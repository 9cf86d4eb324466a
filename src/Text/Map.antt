-- ===== src/Text/Map.antt =====
-- A `HashMap` with texts for keys, as an association list in which the first entry counts.
use solid_pod_rs.Prelude.{◌≡◌, Option, none, some, List, [], ◌∷◌, if◌then◌else◌, arith, map}
use solid_pod_rs.Text.{Str, str_eq}
use solid_pod_rs.Text.Laws.{str_eq_iff}

abbrev pub Map {ℓ} : Type ℓ → Type ℓ
Map V = List (Str × V)

unfoldable pub lookup {ℓ} : {V : Type ℓ} → Str → Map V → Option V
lookup k [] = none
lookup k (e ∷ m) = let rest = lookup k m in if str_eq k e.0 then some e.1 else rest

unfoldable pub remove_key {ℓ} : {V : Type ℓ} → Str → Map V → Map V
remove_key k [] = []
remove_key k (e ∷ m) = let rest = remove_key k m in if str_eq k e.0 then rest else e ∷ rest

abbrev pub insert_key {ℓ} : {V : Type ℓ} → Str → V → Map V → Map V
insert_key k v m = (k, v) ∷ remove_key k m

abbrev pub keys {ℓ} : {V : Type ℓ} → Map V → List Str
keys m = map (λ e. e.0) m

module _ {ℓ} {V : Type ℓ} where
  pub lookup-remove_key :
      (k j : Str) (m : Map V)
      → lookup j (remove_key k m) ≡ (if str_eq k j then none else lookup j m)
  unfolding lookup remove_key
  lookup-remove_key k j [] = ground arith
  lookup-remove_key k j (e ∷ m) =
      ground (arith, lookup-remove_key k j m, str_eq_iff k e.0, str_eq_iff j e.0, str_eq_iff k j)

  pub lookup-insert_key :
      (k j : Str) (v : V) (m : Map V)
      → lookup j (insert_key k v m) ≡ (if str_eq k j then some v else lookup j m)
  unfolding lookup
  lookup-insert_key k j v m =
      ground (arith, lookup-remove_key k j m, str_eq_iff j k, str_eq_iff k j)
