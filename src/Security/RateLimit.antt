-- ===== src/Security/RateLimit.antt =====
-- The sliding-window rate limiter (crates/solid-pod-rs/src/security/rate_limit.rs) over the cache of
-- the `lru` crate. Instants and durations are nanoseconds, an instant since the earliest one that
-- the platform represents. The text of an IP address is an argument.
pub mod Window
pub mod Buckets
use solid_pod_rs.Prelude.{
  ℕ, suc, ◌+◌, ◌-◌, ◌*◌, ◌/◌, ◌%◌, ◌^◌, Bool, true, false, Option, none, some, List, [], ◌∷◌, ◌++◌,
  ltb, leb, ◌==◌, if◌then◌else◌, filter, length, max,
}
use solid_pod_rs.Text.{Str, text, str_eq}
use solid_pod_rs.Text.Map.{lookup}
use solid_pod_rs.Lru.{LruCache, or_value}
use solid_pod_rs.Security.Ssrf.{IpAddr}

pub data RateLimitSubject : Type 0 where
  ip : IpAddr → RateLimitSubject
  web_id custom : Str → RateLimitSubject

pub record RateLimitKey : Type 0 where
  pub route : Str
  pub subject : RateLimitSubject

pub data RateLimitDecision : Type 0 where
  allow : RateLimitDecision
  deny : (retry_after_secs limit window_secs : ℕ) → RateLimitDecision

pub record RoutePolicy : Type 0 where
  pub route : Str
  pub max_hits : ℕ
  pub window : ℕ

abbrev pub nanos : ℕ
nanos = 1000000000

abbrev pub default_policy : RoutePolicy
default_policy = record { route = []; max_hits = 60; window = 60 * nanos }

unfoldable pub policy_for : List RoutePolicy → Str → RoutePolicy
policy_for [] route = default_policy
policy_for (p ∷ ps) route =
    let rest = policy_for ps route in if str_eq p.route route then p else rest

-- `Instant::checked_sub`.
abbrev pub checked_sub : ℕ → ℕ → Option ℕ
checked_sub now window = if leb window now then some (now - window) else none

retained : List ℕ → Option ℕ → List ℕ
retained hits none = []
retained hits (some cutoff) = filter (λ t. ltb cutoff t) hits

unfoldable pub prune : (now window : ℕ) → List ℕ → List ℕ
unfolding retained
prune now window hits = retained hits (checked_sub now window)

unfoldable pub ceil_secs : ℕ → ℕ
ceil_secs d = if ltb 0 (d % nanos) then d / nanos + 1 else d / nanos

oldest_of : ℕ → List ℕ → ℕ
oldest_of now [] = now
oldest_of now (t ∷ ts) = t

refusal : RoutePolicy → ℕ → List ℕ → RateLimitDecision
unfolding oldest_of
refusal p now hits =
    deny (max (ceil_secs (p.window - (now - oldest_of now hits))) 1) p.max_hits
      (max (p.window / nanos) 1)

-- The part of `check_sync` that works on the bucket: the decision and the bucket behind it. The
-- length is cast to 32 bits.
unfoldable pub check_bucket : RoutePolicy → (now : ℕ) → List ℕ → RateLimitDecision × List ℕ
unfolding prune refusal
check_bucket p now hits =
    let kept = prune now p.window hits in
    if leb p.max_hits (length kept % 2 ^ 32)
    then (refusal p now kept, kept)
    else (allow, kept ++ now ∷ [])

module _ (show_ip : IpAddr → Str) where
  canonical_subject : RateLimitSubject → Str
  canonical_subject (ip a) = text "ip:" ++ show_ip a
  canonical_subject (web_id w) = text "webid:" ++ w
  canonical_subject (custom c) = text "custom:" ++ c

  unfoldable pub canonical : RateLimitKey → Str
  unfolding canonical_subject
  canonical key = key.route ++ (text "|" ++ canonical_subject key.subject)

  module _ (lru : LruCache (List ℕ)) where
    pub record LruRateLimiter : Type 0 where
      pub buckets : lru.Cache
      pub policies : List RoutePolicy

    abbrev pub default_lru_capacity : ℕ
    default_lru_capacity = 4096

    unfoldable pub with_capacity_and_policies : ℕ → List RoutePolicy → LruRateLimiter
    with_capacity_and_policies capacity policies = record {
      buckets = lru.new (max capacity 1);
      policies = policies;
    }

    unfoldable pub check_sync :
        LruRateLimiter → RateLimitKey → ℕ → RateLimitDecision × LruRateLimiter
    unfolding check_bucket
    check_sync l key now =
        let policy = policy_for l.policies key.route in
        let k = canonical key in
        let bucket = or_value [] (lookup k (lru.entries l.buckets)) in
        (
          (check_bucket policy now bucket).0,
          record l {
            buckets =
                lru.get_or_insert_mut k [] (λ hits. (check_bucket policy now hits).1) l.buckets;
          },
        )
