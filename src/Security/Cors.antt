-- ===== src/Security/Cors.antt =====
-- The CORS policy (crates/solid-pod-rs/src/security/cors.rs). A set of origins is a list of its
-- members, the headers are pairs of a name and a value, and a duration is in seconds. The variables
-- of the environment are arguments.
pub mod Echo
use solid_pod_rs.Prelude.{
  ℕ, Bool, true, false, Option, none, some, List, [], ◌∷◌, ◌++◌, map, if◌then◌else◌,
}
use solid_pod_rs.Text.{
  Str, text, str_eq, elem, is_empty, trim, split, drop_empty, join, to_ascii_uppercase,
}
use solid_pod_rs.Text.Decimal.{decimal, parse_u64}
use solid_pod_rs.Text.Map.{Map}
use solid_pod_rs.Security.Ssrf.Policy.{env_bool, env_csv}

pub data AllowedOrigins : Type 0 where
  wildcard : AllowedOrigins
  exact : List Str → AllowedOrigins

pub record CorsPolicy : Type 0 where
  pub allowed_origins : AllowedOrigins
  pub allow_credentials : Bool
  pub expose_headers : List Str
  pub max_age : ℕ

abbrev pub default_expose_headers : List Str
default_expose_headers =
    text "WAC-Allow"
    ∷ text "Link"
    ∷ text "ETag"
    ∷ text "Accept-Patch"
    ∷ text "Accept-Post"
    ∷ text "Updates-Via"
    ∷ []

abbrev pub default_max_age_secs : ℕ
default_max_age_secs = 3600

abbrev pub new_cors : CorsPolicy
new_cors = record {
  allowed_origins = wildcard;
  allow_credentials = false;
  expose_headers = default_expose_headers;
  max_age = default_max_age_secs;
}

non_empty_set : List Str → AllowedOrigins
non_empty_set [] = wildcard
non_empty_set (o ∷ set) = exact (o ∷ set)

unfoldable pub trimmed_parts : Str → List Str
trimmed_parts raw = drop_empty (map trim (split b',' raw))

unfoldable pub parse_origins : Str → AllowedOrigins
unfolding non_empty_set trimmed_parts
parse_origins raw =
    let trimmed = trim raw in
    if str_eq trimmed (b'*' ∷ []) then wildcard else non_empty_set (trimmed_parts trimmed)

origins_or : Option Str → AllowedOrigins
unfolding parse_origins
origins_or none = wildcard
origins_or (some raw) = parse_origins raw

parsed_age : Option ℕ → ℕ
parsed_age none = default_max_age_secs
parsed_age (some n) = n

age_or : Option Str → ℕ
unfolding parsed_age
age_or none = default_max_age_secs
age_or (some v) = parsed_age (parse_u64 (trim v))

unfoldable pub cors_from_env : (origins credentials age : Option Str) → CorsPolicy
unfolding origins_or age_or
cors_from_env origins credentials age = record {
  allowed_origins = origins_or origins;
  allow_credentials = env_bool credentials;
  expose_headers = default_expose_headers;
  max_age = age_or age;
}

abbrev pub star_or : Option Str → Str
star_or none = b'*' ∷ []
star_or (some o) = o

in_set : List Str → Option Str → Option Str
in_set set none = none
in_set set (some o) = if elem o set then some o else none

echo_of : AllowedOrigins → (credentials : Bool) → Option Str → Option Str
unfolding in_set
echo_of wildcard credentials origin = if credentials then origin else some (star_or origin)
echo_of (exact set) credentials origin = in_set set origin

unfoldable pub echo_origin : CorsPolicy → Option Str → Option Str
unfolding echo_of
echo_origin p origin = echo_of p.allowed_origins p.allow_credentials origin

unfoldable pub normalise_header_list : Str → Str
unfolding trimmed_parts
normalise_header_list raw = join (text ", ") (trimmed_parts raw)

abbrev pub default_methods : Str
default_methods = text "GET, HEAD, POST, PUT, PATCH, DELETE, OPTIONS"

abbrev pub allow_origin : Str
allow_origin = text "Access-Control-Allow-Origin"

abbrev pub allow_credentials_header : Str
allow_credentials_header = text "Access-Control-Allow-Credentials"

credentials_pair : Bool → Map Str
credentials_pair b = if b then (allow_credentials_header, text "true") ∷ [] else []

preflight_pairs : (credentials : Bool) → (methods headers age : Str) → Option Str → Option (Map Str)
unfolding credentials_pair
preflight_pairs credentials methods headers age none = none
preflight_pairs credentials methods headers age (some echoed) = some (
    (allow_origin, echoed)
    ∷ (text "Vary", text "Origin")
    ∷ (credentials_pair credentials
        ++ (text "Access-Control-Allow-Methods", methods)
          ∷ (text "Access-Control-Allow-Headers", headers)
          ∷ (text "Access-Control-Max-Age", age)
          ∷ []))

unfoldable pub preflight_headers :
    CorsPolicy → Option Str → (req_method req_headers : Str) → Option (Map Str)
unfolding preflight_pairs
preflight_headers p origin req_method req_headers =
    preflight_pairs p.allow_credentials
      (if is_empty (trim req_method) then default_methods else to_ascii_uppercase (trim req_method))
      (normalise_header_list req_headers) (decimal p.max_age) (echo_origin p origin)

expose_pair : List Str → Map Str
expose_pair [] = []
expose_pair (h ∷ hs) = (text "Access-Control-Expose-Headers", join (text ", ") (h ∷ hs)) ∷ []

origin_pairs : (credentials : Bool) → Option Str → Map Str
unfolding credentials_pair
origin_pairs credentials none = []
origin_pairs credentials (some echoed) =
    (allow_origin, echoed) ∷ (text "Vary", text "Origin") ∷ credentials_pair credentials

unfoldable pub response_headers : CorsPolicy → Option Str → Map Str
unfolding origin_pairs expose_pair
response_headers p origin =
    origin_pairs p.allow_credentials (echo_origin p origin) ++ expose_pair p.expose_headers
