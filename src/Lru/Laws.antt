-- ===== src/Lru/Laws.antt =====
-- Entries near the front of a cache, when others are put before them.
use solid_pod_rs.Prelude.{
  ℕ, zero, suc, ◌≤◌, ◌<◌, ◌≡◌, refl, ap, false, none, some, [], ◌∷◌, arith, Bool-cases, inl, inr,
  ◌⊎◌,
}
use solid_pod_rs.Text.{Str, str_eq}
use solid_pod_rs.Text.Laws.{str_eq_iff, str_eq_refl}
use solid_pod_rs.Text.Map.{Map, lookup, remove_key, insert_key}
use solid_pod_rs.Lru.{take}

module _ {ℓ} {V : Type ℓ} where
  pub lookup-take_front :
      (k : Str) (v : V) (m : Map V) (n : ℕ) → 0 < n → lookup k (take n ((k, v) ∷ m)) ≡ some v
  unfolding take lookup
  lookup-take_front k v m zero h = absurd (omega arith)
  lookup-take_front k v m (suc n) h = rw (str_eq_refl k) refl

  pub take-take : (n k : ℕ) (m : Map V) → n ≤ k → take n (take k m) ≡ take n m
  unfolding take
  take-take zero k m h = refl
  take-take (suc n) zero m h = absurd (omega arith)
  take-take (suc n) (suc k) [] h = refl
  take-take (suc n) (suc k) (e ∷ m) h = ap (λ r. e ∷ r) (take-take n k m (omega arith))

  -- What stands among the first entries stands among one more.
  pub lookup-take-suc :
      (j : Str) (v : V) (n : ℕ) (m : Map V)
      → lookup j (take n m) ≡ some v
      → lookup j (take (suc n) m) ≡ some v
  unfolding take lookup
  lookup-take-suc j v zero m h = cc
  lookup-take-suc j v (suc n) [] h = h
  lookup-take-suc j v (suc n) (e ∷ m) h = ground (arith, lookup-take-suc j v n m)

  pub lookup-take-remove_key :
      (j k : Str) (v : V) (n : ℕ) (m : Map V)
      → str_eq k j ≡ false
      → lookup j (take n m) ≡ some v
      → lookup j (take n (remove_key k m)) ≡ some v
  unfolding take lookup remove_key
  lookup-take-remove_key j k v zero m d h = cc
  lookup-take-remove_key j k v (suc n) [] d h = h
  lookup-take-remove_key j k v (suc n) (e ∷ m) d h = elim (Bool-cases (str_eq k e.0)) [
    | inl same ↦ rw same (
        lookup-take-suc j v n (remove_key k m) (
          lookup-take-remove_key j k v n m d
            (ground (arith, str_eq_iff k e.0, str_eq_iff j e.0, str_eq_iff k j))))
    | inr other ↦ rw other (ground (arith, lookup-take-remove_key j k v n m d))
  ]

  -- A put of another key moves an entry back by at most one place.
  pub lookup-take-put :
      (j k : Str) (v w : V) (n cap : ℕ) (m : Map V)
      → str_eq k j ≡ false
      → n < cap
      → lookup j (take n m) ≡ some v
      → lookup j (take (suc n) (take cap (insert_key k w m))) ≡ some v
  unfolding take lookup
  lookup-take-put j k v w n cap m d h e =
      rw (take-take (suc n) cap (insert_key k w m) (omega arith))
        (ground (arith, lookup-take-remove_key j k v n m d e, str_eq_iff k j, str_eq_iff j k))

  pub lookup_of_take :
      (j : Str) (v : V) (n : ℕ) (m : Map V) → lookup j (take n m) ≡ some v → lookup j m ≡ some v
  unfolding take lookup
  lookup_of_take j v zero m h = cc
  lookup_of_take j v (suc n) [] h = h
  lookup_of_take j v (suc n) (e ∷ m) h = ground (arith, lookup_of_take j v n m)

  -- What is cut off is missing.
  pub lookup-take_or_none :
      (j : Str) (n : ℕ) (m : Map V)
      → (lookup j (take n m) ≡ lookup j m) ⊎ (lookup j (take n m) ≡ none)
  unfolding take lookup
  lookup-take_or_none j zero m = inr refl
  lookup-take_or_none j (suc n) [] = inl refl
  lookup-take_or_none j (suc n) (e ∷ m) = ground (arith, lookup-take_or_none j n m)
