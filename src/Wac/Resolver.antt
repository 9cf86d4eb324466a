-- ===== src/Wac/Resolver.antt =====
-- The walk to the effective ACL (crates/solid-pod-rs/src/wac/resolver.rs). `Storage::get` is an
-- argument: `none` for any error, else the body and its content type. So are the Turtle parser, the
-- JSON parser and `str::from_utf8`.
pub mod Walk
pub mod Paths
pub mod Nearest
pub mod Server
use solid_pod_rs.Prelude.{
  ℕ, zero, suc, ◌+◌, Bool, true, false, ◌||◌, Option, none, some, List, [], ◌∷◌, ◌++◌, ◌==◌,
  if◌then◌else◌, length,
}
use solid_pod_rs.Error.{PodError, bad_request, payload_too_large, Result, ok, err}
use solid_pod_rs.Text.{
  Str, text, str_eq, is_empty, starts_with, contains, trim_end_matches, to_ascii_lowercase,
}
use solid_pod_rs.Wac.Document.{AclDocument}
use solid_pod_rs.Wac.Target.{slash}
use solid_pod_rs.Wac.Bounds.{parse_jsonld_acl}

-- The text before the last occurrence of a character.
unfoldable pub before_last : ℕ → Str → Option Str
before_last c [] = none
before_last c (x ∷ xs) = elim (before_last c xs) [
  | some s ↦ some (x ∷ s)
  | none ↦ if x == c then some [] else none
]

unfoldable pub acl_key : Str → Str
acl_key path = if str_eq path slash then text "/.acl" else trim_end_matches b'/' path ++ text ".acl"

container_of : Option Str → Str
container_of none = slash
container_of (some []) = slash
container_of (some (c ∷ s)) = c ∷ s

unfoldable pub parent : Str → Str
unfolding container_of
parent path = container_of (before_last b'/' (trim_end_matches b'/' path))

abbrev pub is_top : Str → Bool
is_top path = str_eq path slash || is_empty path

pub record Body : Type 0 where
  pub bytes : List ℕ
  pub content_type : Str

pub record Parsers : Type 0 where
  pub from_slice : List ℕ → Option AclDocument
  pub env_bytes : Option ℕ
  pub env_depth : Option ℕ
  pub from_utf8 : List ℕ → Option Str
  pub turtle : Str → Option AclDocument

-- What a level of the walk says: an answer, or to go on.
pub data Visit : Type 0 where
  answer : AclDocument → Visit
  fail : PodError → Visit
  go_on : Visit

module _ (ps : Parsers) where
  text_or_empty : Option Str → Str
  text_or_empty none = []
  text_or_empty (some s) = s

  visit_turtle : Option AclDocument → Visit
  visit_turtle none = go_on
  visit_turtle (some doc) = answer doc

  looks_turtle : Str → Bool
  looks_turtle ct =
      starts_with (text "text/turtle") ct
      || starts_with (text "application/turtle") ct
      || starts_with (text "application/x-turtle") ct

  pub after_jsonld : Body → Visit
  unfolding text_or_empty visit_turtle looks_turtle
  after_jsonld b =
      let ct = to_ascii_lowercase b.content_type in
      let t = text_or_empty (ps.from_utf8 b.bytes) in
      if looks_turtle ct || contains (text "@prefix") t || contains (text "acl:Authorization") t
      then visit_turtle (ps.turtle t)
      else go_on

  visit_jsonld : Body → Result AclDocument → Visit
  visit_jsonld b (ok doc) = answer doc
  visit_jsonld b (err bad_request) = fail bad_request
  visit_jsonld b (err payload_too_large) = fail payload_too_large
  visit_jsonld b (err e) = after_jsonld b

  visit_body : Option Body → Visit
  visit_body none = go_on
  visit_body (some b) =
      visit_jsonld b (parse_jsonld_acl ps.from_slice ps.env_bytes ps.env_depth b.bytes)

  -- One round of the loop, before the path is shortened.
  unfoldable pub visit : (Str → Option Body) → Str → Visit
  unfolding visit_body visit_jsonld after_jsonld
  visit get path = visit_body (get (acl_key path))

-- The loop: `none` only if the fuel runs out.
pub walk : (Str → Visit) → ℕ → Str → Option (Result (Option AclDocument))
walk at zero path = none
walk at (suc fuel) path = elim (at path) [
  | answer doc ↦ some (ok (some doc))
  | fail e ↦ some (err e)
  | go_on ↦ if is_top path then some (ok none) else walk at fuel (parent path)
]

unfoldable pub find_effective_acl :
    Parsers → (Str → Option Body) → Str → Option (Result (Option AclDocument))
unfolding walk
find_effective_acl ps get resource_path =
    walk (visit ps get) (length resource_path + 2) resource_path
