-- ===== src/Ldp/Path.antt =====
-- Paths of resources, their sidecars and link headers, and the target of a POST
-- (crates/solid-pod-rs/src/ldp.rs). The UUID is an argument.
pub mod Slug
pub mod Sidecar
use solid_pod_rs.Prelude.{
  ℕ, ◌≡◌, Bool, true, false, not, ◌&&◌, ◌||◌, Option, none, some, List, [], ◌∷◌, ◌++◌, ltb, ◌==◌,
  if◌then◌else◌, all,
}
use solid_pod_rs.Error.{bad_request, Result, ok, err}
use solid_pod_rs.Text.{
  Str, text, str_eq, is_empty, ends_with, contains, has, byte_len, is_ascii_alphanumeric,
}

unfoldable pub is_container : Str → Bool
is_container path = str_eq path (text "/") || ends_with (text "/") path

unfoldable pub is_acl_path : Str → Bool
is_acl_path path = ends_with (text ".acl") path

unfoldable pub is_meta_path : Str → Bool
is_meta_path path = ends_with (text ".meta") path

unfoldable pub meta_sidecar_for : Str → Str
unfolding is_meta_path
meta_sidecar_for path = if is_meta_path path then path else path ++ text ".meta"

abbrev pub type_link : Str → Str
type_link iri = text "<" ++ (iri ++ text ">; rel=\"type\"")

abbrev pub acl_link : Str → Str
acl_link target = text "<" ++ (target ++ text ">; rel=\"acl\"")

abbrev pub meta_link : Str → Str
meta_link target = text "<" ++ (target ++ text ">; rel=\"describedby\"")

unfoldable pub link_headers : Str → List Str
unfolding is_container is_acl_path is_meta_path meta_sidecar_for
link_headers path =
    (if is_container path
      then type_link (text "http://www.w3.org/ns/ldp#BasicContainer")
        ∷ type_link (text "http://www.w3.org/ns/ldp#Container")
        ∷ type_link (text "http://www.w3.org/ns/ldp#Resource")
        ∷ []
      else type_link (text "http://www.w3.org/ns/ldp#Resource") ∷ [])
    ++ ((if not (is_acl_path path) then acl_link (path ++ text ".acl") ∷ [] else [])
        ++ ((if not (is_meta_path path) && not (is_acl_path path)
              then meta_link (meta_sidecar_for path) ∷ []
              else [])
            ++ (if str_eq path (text "/")
                then (text "</>; rel=\""
                    ++ (text "http://www.w3.org/ns/pim/space#storage" ++ text "\""))
                  ∷ []
                else [])))

abbrev pub max_slug_bytes : ℕ
max_slug_bytes = 255

-- The closure `join` of `resolve_slug`.
unfoldable pub join_path : Str → Str → Str
join_path container name =
    if ends_with (text "/") container then container ++ name else container ++ (b'/' ∷ name)

abbrev pub is_slug_char : ℕ → Bool
is_slug_char c = is_ascii_alphanumeric c || c == b'.' || c == b'_' || c == b'-'

checked_slug : Str → Str → Result Str
checked_slug container s =
    if ltb max_slug_bytes (byte_len s)
    then err bad_request
    else if has b'/' s || contains (text "..") s || has 0 s
    then err bad_request
    else if not (all is_slug_char s)
    then err bad_request
    else ok (join_path container s)

unfoldable pub resolve_slug : Str → Str → Option Str → Result Str
unfolding checked_slug
resolve_slug uuid container none = ok (join_path container uuid)
resolve_slug uuid container (some s) =
    if not (is_empty s) then checked_slug container s else ok (join_path container uuid)
