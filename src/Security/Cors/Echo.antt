-- ===== src/Security/Cors/Echo.antt =====
-- When the CORS headers let a page read an answer with credentials.
use solid_pod_rs.Prelude.{
  ◌≡◌, refl, sym, ap, ◌∙◌, Bool, true, false, Option, none, some, List, [], ◌∷◌, ◌++◌, arith,
}
use solid_pod_rs.Text.{Str, text, str_eq, elem}
use solid_pod_rs.Text.Map.{Map, lookup}
use solid_pod_rs.Security.Cors.{
  AllowedOrigins, wildcard, exact, CorsPolicy, in_set, echo_of, echo_origin, allow_origin,
  allow_credentials_header, credentials_pair, preflight_headers, preflight_pairs, expose_pair,
  origin_pairs, response_headers,
}

-- The policy names the origin, or names none.
abbrev pub admits : AllowedOrigins → Str → Bool
admits wildcard o = true
admits (exact set) o = elem o set

-- The headers allow the origin `o` by its own name, and the request came from there.
abbrev pub IsEchoed : CorsPolicy → Option Str → Map Str → Type 0
IsEchoed p origin headers =
    (o : Str) × (origin ≡ some o)
    × (admits p.allowed_origins o ≡ true)
    × (lookup allow_origin headers ≡ some o)

echo_of-credentials :
    (a : AllowedOrigins) (origin : Option Str) (o : Str)
    → echo_of a true origin ≡ some o
    → (origin ≡ some o) × (admits a o ≡ true)
unfolding echo_of in_set
echo_of-credentials wildcard origin o h = (h, refl)
echo_of-credentials (exact set) none o h = cc
echo_of-credentials (exact set) (some x) o h = ground arith

expose-silent : (hs : List Str) → lookup allow_credentials_header (expose_pair hs) ≡ none
unfolding expose_pair lookup str_eq text
expose-silent [] = refl
expose-silent (h ∷ hs) = refl

origin_pairs-IsEchoed :
    (a : AllowedOrigins) (b : Bool) (origin echoed : Option Str) (hs : List Str) (v : Str)
    → echo_of a b origin ≡ echoed
    → lookup allow_credentials_header (origin_pairs b echoed ++ expose_pair hs) ≡ some v
    → (o : Str) × (origin ≡ some o)
      × (admits a o ≡ true)
      × (lookup allow_origin (origin_pairs b echoed ++ expose_pair hs) ≡ some o)
unfolding origin_pairs credentials_pair
origin_pairs-IsEchoed a b origin none hs v e h = let bad = sym (expose-silent hs) ∙ h in cc
origin_pairs-IsEchoed a true origin (some o) hs v e h =
    let (same, admitted) = echo_of-credentials a origin o e in
    (o, same, admitted, unfold lookup str_eq text in refl)
origin_pairs-IsEchoed a false origin (some o) hs v e h =
    let bad : lookup allow_credentials_header (expose_pair hs) ≡ some v =
      unfold lookup str_eq text in h in
    let worse = sym (expose-silent hs) ∙ bad in cc

response-IsEchoed :
    (p : CorsPolicy) (origin : Option Str) (v : Str)
    → lookup allow_credentials_header (response_headers p origin) ≡ some v
    → IsEchoed p origin (response_headers p origin)
unfolding response_headers echo_origin
response-IsEchoed p origin v h =
    origin_pairs-IsEchoed p.allowed_origins p.allow_credentials origin
      (echo_of p.allowed_origins p.allow_credentials origin) p.expose_headers v refl h

lookup_in : Str → Option (Map Str) → Option Str
lookup_in name none = none
lookup_in name (some headers) = lookup name headers

preflight_pairs-IsEchoed :
    (a : AllowedOrigins) (b : Bool) (origin echoed : Option Str) (methods requested age : Str)
    (headers : Map Str) (v : Str)
    → echo_of a b origin ≡ echoed
    → preflight_pairs b methods requested age echoed ≡ some headers
    → lookup allow_credentials_header headers ≡ some v
    → (o : Str) × (origin ≡ some o) × (admits a o ≡ true) × (lookup allow_origin headers ≡ some o)
unfolding preflight_pairs credentials_pair lookup lookup_in
preflight_pairs-IsEchoed a b origin none methods requested age headers v e f h = cc
preflight_pairs-IsEchoed a true origin (some o) methods requested age headers v e f h =
    let (same, admitted) = echo_of-credentials a origin o e in
    (
      o,
      same,
      admitted,
      ap (lookup_in allow_origin) (sym f) ∙ (unfold lookup_in lookup str_eq text in refl),
    )
preflight_pairs-IsEchoed a false origin (some o) methods requested age headers v e f h =
    let bad : none ≡ some v =
      unfold lookup_in lookup str_eq text in (ap (lookup_in allow_credentials_header) f ∙ h) in
    cc

preflight-IsEchoed :
    (p : CorsPolicy) (origin : Option Str) (method requested : Str) (headers : Map Str) (v : Str)
    → preflight_headers p origin method requested ≡ some headers
    → lookup allow_credentials_header headers ≡ some v
    → IsEchoed p origin headers
unfolding preflight_headers echo_origin
preflight-IsEchoed p origin method requested headers v e h =
    preflight_pairs-IsEchoed p.allowed_origins p.allow_credentials origin
      (echo_of p.allowed_origins p.allow_credentials origin) _ _ _ headers v refl e h

-- If the headers of an answer, or of a preflight that is given any, allow credentials, then the
-- request names an origin, the policy admits it (a wildcard admits all, a set its members), and
-- the allowed origin of the headers is that very origin.
pub credentials-IsEchoed :
    (p : CorsPolicy) (origin : Option Str) (v : Str)
    → (lookup allow_credentials_header (response_headers p origin) ≡ some v
        → IsEchoed p origin (response_headers p origin))
      × ((method requested : Str) (headers : Map Str)
          → preflight_headers p origin method requested ≡ some headers
          → lookup allow_credentials_header headers ≡ some v
          → IsEchoed p origin headers)
credentials-IsEchoed p origin v = (
  response-IsEchoed p origin v,
  λ method requested headers e h. preflight-IsEchoed p origin method requested headers v e h,
)
