-- ===== src/Multitenant.antt =====
-- The pod that a request is about (crates/solid-pod-rs/src/multitenant.rs).
pub mod Labels
use solid_pod_rs.Prelude.{
  ℕ, zero, suc, Bool, true, false, not, ◌&&◌, Option, none, some, List, [], ◌∷◌, ◌++◌, ◌==◌,
  if◌then◌else◌, any, length,
}
use solid_pod_rs.Text.{
  Str, text, str_eq, is_empty, trim, to_ascii_lowercase, has, contains, ends_with, strip_suffix,
}
use solid_pod_rs.Wac.Resolver.{before_last}

pub record ResolvedPath : Type 0 where
  pub pod : Option Str
  pub storage_path : Str

-- `PathResolver`.
unfoldable pub resolve_path : (host url_path : Str) → ResolvedPath
resolve_path host url_path = record { pod = none; storage_path = url_path }

abbrev pub file_extensions : List Str
file_extensions =
    text ".ttl"
    ∷ text ".html"
    ∷ text ".ico"
    ∷ text ".svg"
    ∷ text ".json"
    ∷ text ".jsonld"
    ∷ text ".png"
    ∷ text ".jpg"
    ∷ text ".jpeg"
    ∷ text ".gif"
    ∷ text ".css"
    ∷ text ".js"
    ∷ text ".woff"
    ∷ text ".woff2"
    ∷ text ".txt"
    ∷ []

unfoldable pub is_file_like_label : Str → Bool
is_file_like_label label =
    let lower = to_ascii_lowercase label in
    if not (has b'.' lower) then false else any (λ ext. ends_with ext lower) file_extensions

whole_or : Str → Option Str → Str
whole_or host none = host
whole_or host (some before) = before

unfoldable pub strip_port : Str → Str
unfolding whole_or
strip_port host = whole_or host (before_last b':' host)

-- `replace("..", "")`: one pass from the left.
unfoldable pub remove_dotdot : Str → Str
remove_dotdot [] = []
remove_dotdot (c ∷ []) = c ∷ []
remove_dotdot (c ∷ d ∷ s) = elim (c == b'.' && d == b'.') [
  | true ↦ remove_dotdot s
  | false ↦ c ∷ remove_dotdot (d ∷ s)
]

scrub_from : (fuel : ℕ) → Str → Str
scrub_from zero cur = cur
scrub_from (suc n) cur = elim (str_eq (remove_dotdot cur) cur) [
  | true ↦ cur
  | false ↦ scrub_from n (remove_dotdot cur)
]

-- Each round but the last makes the text shorter.
unfoldable pub scrub_dotdot : Str → Str
unfolding scrub_from
scrub_dotdot s = scrub_from (suc (length s)) s

abbrev pub is_pod_label : Str → Bool
is_pod_label safe =
    not (is_empty safe)
    && (not (has b'.' safe) && (not (has b'/' safe) && not (contains (text "..") safe)))

label_pod : Option Str → Option Str
label_pod none = none
label_pod (some stripped) =
    if is_file_like_label stripped
    then none
    else (let safe = scrub_dotdot stripped in if is_pod_label safe then some safe else none)

abbrev pub base_of : (base_domain : Str) → Str
base_of base_domain = to_ascii_lowercase (trim base_domain)

-- `SubdomainResolver`, with its base domain.
unfoldable pub resolve_subdomain : (base_domain host url_path : Str) → ResolvedPath
unfolding label_pod
resolve_subdomain base_domain host url_path =
    let host_lc = to_ascii_lowercase (strip_port host) in
    record {
      pod =
          if str_eq host_lc (base_of base_domain)
          then none
          else label_pod (strip_suffix (b'.' ∷ base_of base_domain) host_lc);
      storage_path = url_path;
    }
