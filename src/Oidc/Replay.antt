-- ===== src/Oidc/Replay.antt =====
-- The replay cache of DPoP proofs (crates/solid-pod-rs/src/oidc/replay.rs) over the cache of the `lru`
-- crate. An operation under the lock is one step; the time is an argument, and a difference of
-- times stops at zero. The variables of the environment are arguments.
pub mod Refused
use solid_pod_rs.Prelude.{
  ℕ, ◌-◌, Bool, true, false, Option, none, some, List, [], ◌∷◌, ltb, leb, if◌then◌else◌, length,
  max,
}
use solid_pod_rs.Text.{Str}
use solid_pod_rs.Text.Decimal.{parse_u64}
use solid_pod_rs.Text.Map.{Map, lookup}
use solid_pod_rs.Lru.{LruCache, or_value}

pub data Verdict : Type 0 where
  fresh replayed : Verdict

abbrev pub default_ttl_secs : ℕ
default_ttl_secs = 60

abbrev pub default_max_size : ℕ
default_max_size = 10000

abbrev pub is_live : (ttl now first_seen : ℕ) → Bool
is_live ttl now first_seen = ltb (now - first_seen) ttl

module _ (lru : LruCache ℕ) where
  pub record DpopReplayCache : Type 0 where
    pub entries : lru.Cache
    pub ttl : ℕ
    pub max_size : ℕ

  unfoldable pub with_config : (ttl max_size : ℕ) → DpopReplayCache
  with_config ttl max_size = record {
    entries = lru.new (max max_size 1);
    ttl = ttl;
    max_size = max max_size 1;
  }

  parsed : Option Str → Option ℕ
  parsed none = none
  parsed (some s) = parse_u64 s

  positive : Option ℕ → Option ℕ
  positive none = none
  positive (some n) = if ltb 0 n then some n else none

  -- `usize` has 64 bits.
  unfoldable pub from_env : (ttl_secs max_size : Option Str) → DpopReplayCache
  unfolding parsed positive with_config
  from_env ttl_secs max_size =
      with_config (or_value default_ttl_secs (parsed ttl_secs))
        (or_value default_max_size (positive (parsed max_size)))

  judged : DpopReplayCache → Str → (now : ℕ) → Option ℕ → Verdict × DpopReplayCache
  judged c jti now none = (fresh, record c { entries = lru.put jti now c.entries })
  judged c jti now (some first_seen) =
      if is_live c.ttl now first_seen
      then (replayed, c)
      else (fresh, record c { entries = lru.put jti now c.entries })

  unfoldable pub check_and_record : DpopReplayCache → Str → (now : ℕ) → Verdict × DpopReplayCache
  unfolding judged
  check_and_record c jti now = judged c jti now (lookup jti (lru.entries c.entries))

  expired_keys : (ttl now : ℕ) → Map ℕ → List Str
  expired_keys ttl now [] = []
  expired_keys ttl now (e ∷ m) =
      let rest = expired_keys ttl now m in if leb ttl (now - e.1) then e.0 ∷ rest else rest

  pop_all : List Str → lru.Cache → lru.Cache
  pop_all [] c = c
  pop_all (k ∷ ks) c = pop_all ks (lru.pop k c)

  -- The number of entries removed, and the cache behind it.
  unfoldable pub evict_expired : DpopReplayCache → (now : ℕ) → ℕ × DpopReplayCache
  unfolding expired_keys pop_all
  evict_expired c now =
      let expired = expired_keys c.ttl now (lru.entries c.entries) in
      (length expired, record c { entries = pop_all expired c.entries })
