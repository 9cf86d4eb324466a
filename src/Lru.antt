-- ===== src/Lru.antt =====
-- The interface of the `lru` crate that the library uses: a cache with texts for keys, known by its
-- entries from the most to the least recently used, as its documentation describes them.
pub mod Model
pub mod Laws
use solid_pod_rs.Prelude.{ℕ, zero, suc, ◌≡◌, List, [], ◌∷◌, Option, none, some}
use solid_pod_rs.Text.{Str}
use solid_pod_rs.Text.Map.{Map, lookup, remove_key, insert_key}

module _ {ℓ} {A : Type ℓ} where
  unfoldable pub take : ℕ → List A → List A
  take zero xs = []
  take (suc n) [] = []
  take (suc n) (x ∷ xs) = x ∷ take n xs

abbrev pub or_value {ℓ} : {A : Type ℓ} → A → Option A → A
or_value a none = a
or_value a (some b) = b

-- An operation gives the cache behind it. `get_or_insert_mut` takes what is done with the reference.
pub record LruCache (V : Type 0) : Type 1 where
  pub Cache : Type 0
  pub new : ℕ → Cache
  pub cap : Cache → ℕ
  pub entries : Cache → Map V
  pub put : Str → V → Cache → Cache
  pub pop : Str → Cache → Cache
  pub get_or_insert_mut : Str → V → (V → V) → Cache → Cache
  pub cap-new : (n : ℕ) → cap (new n) ≡ n
  pub entries-new : (n : ℕ) → entries (new n) ≡ []
  pub cap-put : (k : Str) (v : V) (c : Cache) → cap (put k v c) ≡ cap c
  pub entries-put :
      (k : Str) (v : V) (c : Cache)
      → entries (put k v c) ≡ take (cap c) (insert_key k v (entries c))
  pub cap-pop : (k : Str) (c : Cache) → cap (pop k c) ≡ cap c
  pub entries-pop : (k : Str) (c : Cache) → entries (pop k c) ≡ remove_key k (entries c)
  pub cap-get_or_insert_mut :
      (k : Str) (v : V) (f : V → V) (c : Cache) → cap (get_or_insert_mut k v f c) ≡ cap c
  pub entries-get_or_insert_mut :
      (k : Str) (v : V) (f : V → V) (c : Cache)
      → entries (get_or_insert_mut k v f c)
        ≡ take (cap c) (insert_key k (f (or_value v (lookup k (entries c)))) (entries c))
