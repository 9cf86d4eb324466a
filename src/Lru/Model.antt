-- ===== src/Lru/Model.antt =====
-- A list with a capacity meets the interface.
use solid_pod_rs.Prelude.{ℕ, refl, []}
use solid_pod_rs.Text.Map.{Map, lookup, remove_key, insert_key}
use solid_pod_rs.Lru.{LruCache, take, or_value}

pub record Listed (V : Type 0) : Type 0 where
  pub cap : ℕ
  pub entries : Map V

abbrev pub listed_lru : {V : Type 0} → LruCache V
listed_lru {V} = record {
  Cache = Listed V;
  new = λ n. record { cap = n; entries = [] };
  cap = λ c. c.cap;
  entries = λ c. c.entries;
  put = λ k v c. record c { entries = take c.cap (insert_key k v c.entries) };
  pop = λ k c. record c { entries = remove_key k c.entries };
  get_or_insert_mut = λ k v f c. record c {
    entries = take c.cap (insert_key k (f (or_value v (lookup k c.entries))) c.entries);
  };
  cap-new = λ n. refl;
  entries-new = λ n. refl;
  cap-put = λ k v c. refl;
  entries-put = λ k v c. refl;
  cap-pop = λ k c. refl;
  entries-pop = λ k c. refl;
  cap-get_or_insert_mut = λ k v f c. refl;
  entries-get_or_insert_mut = λ k v f c. refl;
}
