-- ===== src/Tests/Options.antt =====
-- OPTIONS and the header `Prefer` at concrete inputs.
use solid_pod_rs.Ldp.Path.{is_container}
use solid_pod_rs.Prelude.{◌≡◌, refl, true, some, [], ◌∷◌}
use solid_pod_rs.Text.{
  text, str_eq, ends_with, join, to_ascii_lowercase, trim, split, trim_end_matches,
  eq_ignore_ascii_case, strip_prefix, split_whitespace, trim_matches,
}
use solid_pod_rs.Ldp.Options.{
  options_for, cache_control_for, infer_dotfile_content_type, handle_options,
}
use solid_pod_rs.Ldp.Prefer.{minimal_container, parse_prefer}

container-options :
    (options_for (text "/a/")).allow
    ≡ text "GET" ∷ text "HEAD" ∷ text "OPTIONS" ∷ text "POST" ∷ text "DELETE" ∷ []
unfolding options_for is_container str_eq text ends_with
container-options = refl

container_ranges : (options_for (text "/a/")).accept_ranges ≡ text "none"
unfolding text options_for is_container str_eq ends_with
container_ranges = refl

-- The server leaves the cache control of `options_for` out.
uncached-options :
    handle_options (λ v. true) (text "/a")
    ≡ (text "allow", text "GET, HEAD, OPTIONS, PUT, PATCH, DELETE")
      ∷ (
        text "accept-patch",
        text "text/n3, application/sparql-update, application/json-patch+json",
      )
      ∷ (text "accept-ranges", text "bytes")
      ∷ []
unfolding handle_options text join is_container str_eq ends_with
uncached-options = refl

turtle-cache :
    cache_control_for (text "Text/Turtle; charset=utf-8")
    ≡ some (text "private, no-cache, must-revalidate")
unfolding cache_control_for str_eq to_ascii_lowercase trim split text
turtle-cache = refl

acl-infer : infer_dotfile_content_type (text "/pods/.acl/") ≡ some (text "application/ld+json")
unfolding infer_dotfile_content_type split trim_end_matches text ends_with
acl-infer = refl

minimal-prefer :
    (parse_prefer (
      text
        "wait=1, return=representation; include=\"http://www.w3.org/ns/ldp#PreferMinimalContainer\"")).representation
    ≡ minimal_container
unfolding parse_prefer split text trim eq_ignore_ascii_case strip_prefix split_whitespace
    trim_matches
minimal-prefer = refl
