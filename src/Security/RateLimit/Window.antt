-- ===== src/Security/RateLimit/Window.antt =====
-- What one bucket lets through.
use solid_pod_rs.Prelude.{
  ℕ, ◌+◌, ◌-◌, ◌%◌, ◌^◌, ◌≤◌, ◌<◌, ◌≡◌, refl, List, [], ◌∷◌, ◌++◌, ltb, leb, if◌then◌else◌, filter,
  length, Bool-cases, inl, inr, arith,
}
use solid_pod_rs.Security.RateLimit.{
  RoutePolicy, RateLimitDecision, allow, deny, prune, check_bucket,
}

-- How many of the times lie less than a window before `now`.
abbrev pub recent : (now window : ℕ) → List ℕ → ℕ
recent now window [] = 0
recent now window (t ∷ ts) = (if ltb now (t + window) then 1 else 0) + recent now window ts

recent-append :
    (now window : ℕ) (xs ys : List ℕ)
    → recent now window (xs ++ ys) ≡ recent now window xs + recent now window ys
recent-append now window [] ys = omega arith
recent-append now window (x ∷ xs) ys = omega (arith, recent-append now window xs ys)

retained-length :
    (now window : ℕ) (hits : List ℕ)
    → window ≤ now
    → length (filter (λ t. ltb (now - window) t) hits) ≡ recent now window hits
retained-length now window [] h = refl
retained-length now window (t ∷ ts) h = ground (arith, retained-length now window ts h)

retained-recent :
    (now later window : ℕ) (hits : List ℕ)
    → window ≤ now
    → now ≤ later
    → recent later window (filter (λ t. ltb (now - window) t) hits) ≡ recent later window hits
retained-recent now later window [] h k = refl
retained-recent now later window (t ∷ ts) h k =
    ground (arith, retained-recent now later window ts h k)

pub length-prune :
    (now window : ℕ) (hits : List ℕ)
    → window ≤ now
    → length (prune now window hits) ≡ recent now window hits
unfolding prune
length-prune now window hits h = ground (arith, retained-length now window hits h)

pub recent-prune :
    (now later window : ℕ) (hits : List ℕ)
    → window ≤ now
    → now ≤ later
    → recent later window (prune now window hits) ≡ recent later window hits
unfolding prune
recent-prune now later window hits h k = ground (arith, retained-recent now later window hits h k)

-- A run of checks on one bucket: the bucket behind them, and the times that were let through, the
-- last one first.
abbrev granted : RateLimitDecision → ℕ → List ℕ → List ℕ
granted allow now log = now ∷ log
granted (deny r l w) now log = log

unfoldable pub run_bucket : RoutePolicy → List ℕ → List ℕ → List ℕ → List ℕ × List ℕ
run_bucket p [] hits log = (hits, log)
run_bucket p (now ∷ times) hits log =
    let step = check_bucket p now hits in run_bucket p times step.1 (granted step.0 now log)

-- The times do not fall, and none is before `start`.
abbrev pub RisesFrom : ℕ → List ℕ → Type 0
RisesFrom start [] = Unit
RisesFrom start (t ∷ ts) = (start ≤ t) × RisesFrom t ts

-- At each time that was let through, at most `limit` of the times up to it, itself included, lie
-- less than a window before it.
abbrev pub IsLimited : (limit window : ℕ) → List ℕ → Type 0
IsLimited limit window [] = Unit
IsLimited limit window (t ∷ older) =
    (recent t window (t ∷ older) ≤ limit) × IsLimited limit window older

-- From `now` on the bucket counts what was let through, and it is short.
record Tracks (p : RoutePolicy) (now : ℕ) (hits log : List ℕ) : Type 0 where
  counts : (later : ℕ) → now ≤ later → recent later p.window hits ≡ recent later p.window log
  limited : IsLimited p.max_hits p.window log
  short : recent now p.window log ≤ p.max_hits

recent_antitone :
    (now later window : ℕ) (xs : List ℕ)
    → now ≤ later
    → recent later window xs ≤ recent now window xs
recent_antitone now later window [] h = omega arith
recent_antitone now later window (x ∷ xs) h = ground (arith, recent_antitone now later window xs h)

module _ (p : RoutePolicy) (start now : ℕ) (hits log : List ℕ) (small : p.max_hits < 2 ^ 32)
    (wide : 0 < p.window) (late : p.window ≤ now) (k : start ≤ now)
    (t : Tracks p start hits log) where
  -- The kept hits are as many as the recent ones of the log.
  kept-recent : length (prune now p.window hits) ≡ recent now p.window log
  kept-recent = omega (arith, length-prune now p.window hits late, t.counts now k)

  kept-le : length (prune now p.window hits) ≤ p.max_hits
  kept-le = omega (arith, kept-recent, recent_antitone start now p.window log k, t.short)

  kept_counts :
      (later : ℕ)
      → now ≤ later
      → recent later p.window (prune now p.window hits) ≡ recent later p.window log
  kept_counts later m =
      omega (arith, recent-prune now later p.window hits late m, t.counts later (omega arith))

  allowed_counts :
      (later : ℕ)
      → now ≤ later
      → recent later p.window (prune now p.window hits ++ now ∷ [])
        ≡ recent later p.window (now ∷ log)
  allowed_counts later m = omega (
    arith,
    recent-append later p.window (prune now p.window hits) (now ∷ []),
    kept_counts later m,
  )

  now_recent : recent now p.window (now ∷ log) ≡ 1 + recent now p.window log
  now_recent = ground arith

  step-Tracks :
      Tracks p now (check_bucket p now hits).1 (granted (check_bucket p now hits).0 now log)
  unfolding check_bucket
  step-Tracks = elim (Bool-cases (leb p.max_hits (length (prune now p.window hits) % 2 ^ 32))) [
    | inl full ↦ rw full (record {
      counts = kept_counts;
      limited = t.limited;
      short = omega (arith, kept-recent, kept-le);
    })
    | inr room ↦
        let below : recent now p.window log < p.max_hits = ground (arith, kept-recent, kept-le) in
        rw room (record {
          counts = allowed_counts;
          limited = (omega (arith, now_recent), t.limited);
          short = omega (arith, now_recent);
        })
  ]

run-Tracks :
    (p : RoutePolicy) (times : List ℕ) (start : ℕ) (hits log : List ℕ)
    → p.max_hits < 2 ^ 32
    → 0 < p.window
    → p.window ≤ start
    → RisesFrom start times
    → Tracks p start hits log
    → IsLimited p.max_hits p.window (run_bucket p times hits log).1
unfolding run_bucket
run-Tracks p [] start hits log small wide late rises t = t.limited
run-Tracks p (now ∷ times) start hits log small wide late (k, rises) t =
    run-Tracks p times now (check_bucket p now hits).1 (granted (check_bucket p now hits).0 now log)
      small wide (omega arith) rises (step-Tracks p start now hits log small wide (omega arith) k t)

-- For a policy whose limit fits 32 bits and whose window is not zero, and checks of one bucket at
-- times that do not fall and are not before one window after the earliest time of the platform:
-- at each time that is let through, the times let through less than a window before it, itself
-- included, are at most the limit.
pub run_bucket-IsLimited :
    (p : RoutePolicy) (start : ℕ) (times : List ℕ)
    → p.max_hits < 2 ^ 32
    → 0 < p.window
    → p.window ≤ start
    → RisesFrom start times
    → IsLimited p.max_hits p.window (run_bucket p times [] []).1
run_bucket-IsLimited p start times small wide late rises =
    run-Tracks p times start [] [] small wide late rises
      (record { counts = λ later m. refl; limited = tt; short = omega arith })
