-- ===== src/Tests/Security.antt =====
-- The checks of addresses, the rate limiter and the replay cache at concrete inputs.
use solid_pod_rs.Text.Map.{lookup}
use solid_pod_rs.Prelude.{
  ℕ, ◌≡◌, ◌⊎◌, refl, true, false, none, some, Option, List, [], ◌∷◌, if◌then◌else◌, inl, arith,
}
use solid_pod_rs.Text.{Str, text, str_eq, to_ascii_lowercase, split}
use solid_pod_rs.Lru.Model.{listed_lru}
use solid_pod_rs.Security.Ssrf.{
  Ipv4Addr, IpAddr, v4, v6, loopback, reserved, safe, classify_v4, classify,
  is_known_metadata_hostname, resolve_and_check, to_ipv4_mapped,
}
use solid_pod_rs.Security.Ssrf.Blocks.{address, blocks, first_class, classify_v4-first_class}
use solid_pod_rs.Security.Ssrf.Policy.{SsrfPolicy, new_policy, IsPublicFirst, resolve_and_check_iff}
use solid_pod_rs.Security.RateLimit.{
  web_id, RateLimitKey, RoutePolicy, LruRateLimiter, nanos, policy_for, check_bucket, canonical,
  with_capacity_and_policies, check_sync,
}
use solid_pod_rs.Security.RateLimit.Window.{IsLimited, run_bucket, run_bucket-IsLimited}
use solid_pod_rs.Security.RateLimit.Buckets.{bucket_of, check_sync-bucket}
use solid_pod_rs.Oidc.Replay.{DpopReplayCache, fresh, replayed, with_config, check_and_record}
use solid_pod_rs.Oidc.Replay.Refused.{run, check_and_record-replayed}
use solid_pod_rs.Text.Map.{lookup}
use solid_pod_rs.Security.Cors.{
  CorsPolicy, exact, new_cors, allow_credentials_header, response_headers, preflight_headers,
  echo_origin,
}
use solid_pod_rs.Security.Cors.Echo.{IsEchoed, credentials-IsEchoed}

abbrev v4_at : (a b c d : ℕ) → Ipv4Addr
v4_at a b c d = record { o0 = a; o1 = b; o2 = c; o3 = d }

classify_v4-first_class_example :
    classify_v4 (v4_at 100 64 0 1) ≡ first_class blocks (address (v4_at 100 64 0 1))
classify_v4-first_class_example =
    classify_v4-first_class (v4_at 100 64 0 1)
      (record { b0 = omega arith; b1 = omega arith; b2 = omega arith; b3 = omega arith })

carrier_grade-classify : classify_v4 (v4_at 100 64 0 1) ≡ reserved
unfolding classify_v4
carrier_grade-classify = refl

mapped-classify :
    classify
      (v6 (record { s0 = 0; s1 = 0; s2 = 0; s3 = 0; s4 = 0; s5 = 0xffff; s6 = 0x7f00; s7 = 1 }))
    ≡ loopback
unfolding classify to_ipv4_mapped
mapped-classify = refl

abbrev pod_lookup : Str → Option (List IpAddr)
pod_lookup host = if str_eq host (text "pod.example") then some (v4 (v4_at 8 8 8 8) ∷ []) else none

pod_lookup-resolve : resolve_and_check pod_lookup (text "pod.example") ≡ safe (v4 (v4_at 8 8 8 8))
unfolding resolve_and_check is_known_metadata_hostname str_eq to_ascii_lowercase split text classify
pod_lookup-resolve = refl

resolve_and_check_iff_example :
    (is_known_metadata_hostname (text "pod.example") ≡ false)
    × IsPublicFirst (v4 (v4_at 8 8 8 8)) (pod_lookup (text "pod.example"))
resolve_and_check_iff_example =
    (resolve_and_check_iff pod_lookup (text "pod.example") (v4 (v4_at 8 8 8 8))).0
      pod_lookup-resolve

abbrev lan_policy : SsrfPolicy
lan_policy = record new_policy { allow_private = true }

abbrev lan_lookup : Str → ℕ → Option (List IpAddr)
lan_lookup host port = some (v4 (v4_at 10 0 0 1) ∷ v4 (v4_at 169 254 169 254) ∷ [])

abbrev two_a_second : RoutePolicy
two_a_second = record { route = text "login"; max_hits = 2; window = nanos }

abbrev attempts : List ℕ
attempts = 1000000000 ∷ 1100000000 ∷ 1200000000 ∷ 2050000000 ∷ []

run_bucket_some :
    (run_bucket two_a_second attempts [] []).1 ≡ 2050000000 ∷ 1100000000 ∷ 1000000000 ∷ []
unfolding run_bucket check_bucket
run_bucket_some = refl

run_bucket-IsLimited_example : IsLimited 2 1000000000 (run_bucket two_a_second attempts [] []).1
run_bucket-IsLimited_example =
    run_bucket-IsLimited two_a_second 1000000000 attempts (omega arith) (omega arith) (omega arith)
      (omega arith, (omega arith, (omega arith, (omega arith, tt))))

abbrev show_none : IpAddr → Str
show_none a = []

abbrev limiter : LruRateLimiter show_none listed_lru
limiter = with_capacity_and_policies show_none listed_lru 8 (two_a_second ∷ [])

abbrev alice_login : RateLimitKey
alice_login = record { route = text "login"; subject = web_id (text "alice") }

check_sync-bucket_example :
    ((check_sync show_none listed_lru limiter alice_login 5).0
      ≡ (check_bucket
          (policy_for limiter.policies alice_login.route)
          5
          (bucket_of show_none listed_lru limiter (canonical show_none alice_login))).0)
    × (bucket_of show_none listed_lru
          (check_sync show_none listed_lru limiter alice_login 5).1
          (canonical show_none alice_login)
        ≡ (check_bucket
            (policy_for limiter.policies alice_login.route)
            5
            (bucket_of show_none listed_lru limiter (canonical show_none alice_login))).1)
    × ((other : Str)
        → str_eq (canonical show_none alice_login) other ≡ false
        → (bucket_of show_none listed_lru
              (check_sync show_none listed_lru limiter alice_login 5).1
              other
            ≡ bucket_of show_none listed_lru limiter other)
          ⊎ (bucket_of show_none listed_lru
                (check_sync show_none listed_lru limiter alice_login 5).1
                other
              ≡ []))
check_sync-bucket_example =
    check_sync-bucket show_none listed_lru limiter alice_login 5
      (unfold with_capacity_and_policies in omega arith)

abbrev seen : DpopReplayCache listed_lru
seen = with_config listed_lru 60 4

accepted : (check_and_record listed_lru seen (text "p") 100).0 ≡ fresh
unfolding check_and_record lookup with_config
accepted = refl

other_differs : str_eq (text "q") (text "p") ≡ false
unfolding str_eq text
other_differs = refl

check_and_record-replayed_example :
    (check_and_record listed_lru
      (run listed_lru ((text "q", 110) ∷ []) (check_and_record listed_lru seen (text "p") 100).1)
      (text "p")
      130).0
    ≡ replayed
check_and_record-replayed_example =
    check_and_record-replayed listed_lru seen (text "p") 100 130 ((text "q", 110) ∷ []) accepted
      (unfold with_config in omega arith) (inl other_differs, tt)
      (unfold with_config in omega arith)

abbrev app_cors : CorsPolicy
app_cors = record new_cors {
  allowed_origins = exact (text "https://app" ∷ []);
  allow_credentials = true;
}

app_cors-credentials :
    lookup allow_credentials_header (response_headers app_cors (some (text "https://app")))
    ≡ some (text "true")
unfolding lookup response_headers echo_origin str_eq text
app_cors-credentials = refl

stranger-preflight : preflight_headers app_cors (some (text "https://other")) (text "PUT") [] ≡ none
unfolding preflight_headers echo_origin str_eq text
stranger-preflight = refl

credentials-IsEchoed_example :
    IsEchoed app_cors
      (some (text "https://app"))
      (response_headers app_cors (some (text "https://app")))
credentials-IsEchoed_example =
    (credentials-IsEchoed app_cors (some (text "https://app")) (text "true")).0 app_cors-credentials
