-- ===== src/Wac/Target.antt =====
-- Which resources a rule's target covers (crates/solid-pod-rs/src/wac/evaluator.rs).
pub mod Meaning
use solid_pod_rs.Prelude.{
  Bool, true, false, not, ◌&&◌, Option, none, some, List, [], ◌∷◌, ◌++◌, if◌then◌else◌,
}
use solid_pod_rs.Text.{
  Str, text, str_eq, is_empty, strip_prefix, starts_with, trim_end_matches, has,
}

abbrev pub slash : Str
slash = b'/' ∷ []

-- `strip_prefix("./").or_else(|| strip_prefix('.'))`.
dot_stripped : Str → Option Str
dot_stripped path = elim (strip_prefix (b'.' ∷ b'/' ∷ []) path) [
  | some s ↦ some s
  | none ↦ strip_prefix (b'.' ∷ []) path
]

base_path : Str → Option Str → Str
base_path path none = path
base_path path (some s) =
    if is_empty s then slash else if not (starts_with slash s) then b'/' ∷ s else s

unfoldable pub normalize_path : Str → Str
unfolding dot_stripped base_path
normalize_path path =
    let trimmed = trim_end_matches b'/' (base_path path (dot_stripped path)) in
    if is_empty trimmed then slash else trimmed

-- The part of the resource below a container: a name, and not a path.
is_child_name : Option Str → Bool
is_child_name none = false
is_child_name (some rest) = not (is_empty rest) && not (has b'/' rest)

unfoldable pub child_prefix : Str → Str
child_prefix rule = if str_eq rule slash then slash else rule ++ slash

-- `path_matches` of the two normalised paths.
unfoldable pub covers : Str → Str → Bool → Bool
unfolding is_child_name
covers rule resource is_default =
    if str_eq resource rule
    then true
    else if not is_default
    then is_child_name (strip_prefix (child_prefix rule) resource)
    else if str_eq rule slash
    then starts_with slash resource
    else starts_with (rule ++ slash) resource

unfoldable pub path_matches : Str → Str → Bool → Bool
unfolding covers normalize_path
path_matches rule_path resource_path is_default =
    covers (normalize_path rule_path) (normalize_path resource_path) is_default
