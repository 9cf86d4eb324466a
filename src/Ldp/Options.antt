-- ===== src/Ldp/Options.antt =====
-- The headers of OPTIONS and of a missing resource (crates/solid-pod-rs/src/ldp.rs), and
-- `handle_options` of the server (crates/solid-pod-rs-server/src/lib.rs).
use solid_pod_rs.Prelude.{Bool, Option, none, some, List, [], ◌∷◌, ◌++◌, if◌then◌else◌}
use solid_pod_rs.Text.{
  Str, text, elem, join, split, trim, trim_end_matches, to_ascii_lowercase, ends_with, is_empty,
}
use solid_pod_rs.Text.Map.{Map}
use solid_pod_rs.Security.Ssrf.{first_part}
use solid_pod_rs.Ldp.Path.{is_container}

pub record OptionsResponse : Type 0 where
  pub allow : List Str
  pub accept_post : Option Str
  pub accept_patch : Str
  pub accept_ranges : Str
  pub cache_control : Str

abbrev pub accept_post_types : Str
accept_post_types = text "text/turtle, application/ld+json, application/n-triples"

abbrev pub accept_patch_types : Str
accept_patch_types = text "text/n3, application/sparql-update, application/json-patch+json"

abbrev pub cache_control_rdf : Str
cache_control_rdf = text "private, no-cache, must-revalidate"

unfoldable pub options_for : Str → OptionsResponse
options_for path =
    let container = is_container path in
    record {
      allow =
          (text "GET" ∷ text "HEAD" ∷ text "OPTIONS" ∷ [])
          ++ ((if container then text "POST" ∷ [] else text "PUT" ∷ text "PATCH" ∷ [])
              ++ text "DELETE" ∷ []);
      accept_post = if container then some accept_post_types else none;
      accept_patch = accept_patch_types;
      accept_ranges = if container then text "none" else text "bytes";
      cache_control = cache_control_rdf;
    }

unfoldable pub vary_header : Bool → Str
vary_header conneg_enabled =
    if conneg_enabled then text "Accept, Authorization, Origin" else text "Authorization, Origin"

unfoldable pub not_found_headers : (path : Str) → (conneg_enabled : Bool) → Map Str
unfolding vary_header
not_found_headers path conneg_enabled =
    (text "Allow", text "GET, HEAD, OPTIONS, PUT, PATCH")
    ∷ (text "Accept-Put", text "*/*")
    ∷ (text "Accept-Patch", accept_patch_types)
    ∷ (text "Link", text "<" ++ (trim_end_matches b'/' path ++ text ".acl>; rel=\"acl\""))
    ∷ (text "Vary", vary_header conneg_enabled)
    ∷ ((if conneg_enabled then (text "Cache-Control", cache_control_rdf) ∷ [] else [])
        ++ (if is_container path then (text "Accept-Post", accept_post_types) ∷ [] else []))

unfoldable pub is_rdf_content_type : Str → Bool
is_rdf_content_type content_type =
    elem (to_ascii_lowercase (trim (first_part (split b';' content_type)))) (
      text "text/turtle"
      ∷ text "application/turtle"
      ∷ text "application/x-turtle"
      ∷ text "application/ld+json"
      ∷ text "application/json+ld"
      ∷ text "application/n-triples"
      ∷ text "text/plain+ntriples"
      ∷ text "text/n3"
      ∷ text "application/trig"
      ∷ [])

unfoldable pub cache_control_for : Str → Option Str
unfolding is_rdf_content_type
cache_control_for content_type =
    if is_rdf_content_type content_type then some cache_control_rdf else none

-- The last part of a text that is not empty.
last_part : List Str → Str
last_part [] = []
last_part (s ∷ []) = s
last_part (s ∷ t ∷ ss) = last_part (t ∷ ss)

unfoldable pub infer_dotfile_content_type : Str → Option Str
unfolding last_part
infer_dotfile_content_type path =
    let basename = last_part (split b'/' (trim_end_matches b'/' path)) in
    if is_empty basename
    then none
    else if ends_with (text ".acl") basename
    then some (text "application/ld+json")
    else if ends_with (text ".meta") basename
    then some (text "application/ld+json")
    else none

-- The headers of the answer, which has the status 204; a value that is no header value is left out.
module _ (header_ok : Str → Bool) where
  header_pair : Str → Option Str → Map Str
  header_pair name none = []
  header_pair name (some v) = if header_ok v then (name, v) ∷ [] else []

  unfoldable pub handle_options : (path : Str) → Map Str
  unfolding options_for header_pair
  handle_options path =
      let o = options_for path in
      header_pair (text "allow") (some (join (text ", ") o.allow))
      ++ (header_pair (text "accept-post") o.accept_post
          ++ (header_pair (text "accept-patch") (some o.accept_patch)
              ++ header_pair (text "accept-ranges") (some o.accept_ranges)))
