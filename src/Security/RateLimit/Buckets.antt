-- ===== src/Security/RateLimit/Buckets.antt =====
-- One check of the limiter, on the buckets of all keys.
use solid_pod_rs.Prelude.{ℕ, ◌<◌, ◌≡◌, refl, ap, ◌∙◌, false, List, [], ◌⊎◌, inl, inr}
use solid_pod_rs.Text.{Str, str_eq}
use solid_pod_rs.Text.Map.{Map, lookup, insert_key, lookup-insert_key}
use solid_pod_rs.Lru.{LruCache, take, or_value}
use solid_pod_rs.Lru.Laws.{lookup-take_front, lookup-take_or_none}
use solid_pod_rs.Security.Ssrf.{IpAddr}
use solid_pod_rs.Security.RateLimit.{
  RateLimitKey, policy_for, check_bucket, canonical, LruRateLimiter, check_sync,
}

other_bucket :
    (k other : Str) (v : List ℕ) (m : Map (List ℕ)) (n : ℕ)
    → str_eq k other ≡ false
    → (or_value [] (lookup other (take n (insert_key k v m))) ≡ or_value [] (lookup other m))
      ⊎ (or_value [] (lookup other (take n (insert_key k v m))) ≡ [])
other_bucket k other v m n d = elim (lookup-take_or_none other n (insert_key k v m)) [
  | inl e ↦
      let here : lookup other (take n (insert_key k v m)) ≡ lookup other m =
        e ∙ lookup-insert_key k other v m ∙ rw d refl in
      inl (ap (or_value []) here)
  | inr e ↦ inr (ap (or_value []) e)
]

module _ (show_ip : IpAddr → Str) (lru : LruCache (List ℕ)) where
  -- The bucket of a key; a missing one is empty.
  abbrev pub bucket_of : LruRateLimiter show_ip lru → Str → List ℕ
  bucket_of l k = or_value [] (lookup k (lru.entries l.buckets))

  -- With a cache of a capacity other than zero: a check gives the decision of the policy on the
  -- bucket of its key, leaves for that key the bucket that the policy leaves, and the bucket of any
  -- other key is as before or is empty, if the cache has dropped it.
  pub check_sync-bucket :
      (l : LruRateLimiter show_ip lru) (key : RateLimitKey) (now : ℕ)
      → 0 < lru.cap l.buckets
      → ((check_sync show_ip lru l key now).0
          ≡ (check_bucket
              (policy_for l.policies key.route)
              now
              (bucket_of l (canonical show_ip key))).0)
        × (bucket_of (check_sync show_ip lru l key now).1 (canonical show_ip key)
            ≡ (check_bucket
                (policy_for l.policies key.route)
                now
                (bucket_of l (canonical show_ip key))).1)
        × ((other : Str)
            → str_eq (canonical show_ip key) other ≡ false
            → (bucket_of (check_sync show_ip lru l key now).1 other ≡ bucket_of l other)
              ⊎ (bucket_of (check_sync show_ip lru l key now).1 other ≡ []))
  unfolding check_sync
  check_sync-bucket l key now h =
      let k = canonical show_ip key in
      let f = λ (hits : List ℕ). (check_bucket (policy_for l.policies key.route) now hits).1 in
      let law = lru.entries-get_or_insert_mut k [] f l.buckets in
      (
        refl,
        rw (law, lookup-take_front k (f (bucket_of l k)) _ (lru.cap l.buckets) h) refl,
        λ other d. rw law (
            other_bucket k other (f (bucket_of l k)) (lru.entries l.buckets) (lru.cap l.buckets) d),
      )
