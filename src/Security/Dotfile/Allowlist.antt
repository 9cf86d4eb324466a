-- ===== src/Security/Dotfile/Allowlist.antt =====
-- `DotfileAllowlist` (crates/solid-pod-rs/src/security/dotfile.rs) over the components of a path, as
-- `Path::components` of the standard library gives them. The counter is left out.
use solid_pod_rs.Prelude.{
  Bool, true, false, not, ◌&&◌, ◌||◌, Option, none, some, List, [], ◌∷◌, all, if◌then◌else◌,
}
use solid_pod_rs.Text.{
  Str, text, str_eq, elem, is_empty, starts_with, split, trim, trim_start_matches,
}

pub data Component : Type 0 where
  root_dir cur_dir parent_dir : Component
  normal : Str → Component

component_of : Str → Component
component_of s = if str_eq s (text "..") then parent_dir else normal s

-- The parts behind the first one: empty ones and single dots are dropped.
later_components : List Str → List Component
unfolding component_of
later_components [] = []
later_components (s ∷ ss) =
    let rest = later_components ss in
    if is_empty s || str_eq s (text ".") then rest else component_of s ∷ rest

first_components : List Str → List Component
unfolding component_of later_components
first_components [] = []
first_components (s ∷ ss) =
    let rest = later_components ss in
    if is_empty s
    then rest
    else if str_eq s (text ".")
    then cur_dir ∷ rest
    else component_of s ∷ rest

unfoldable pub components : Str → List Component
unfolding first_components later_components
components path =
    if starts_with (b'/' ∷ []) path
    then root_dir ∷ later_components (split b'/' path)
    else first_components (split b'/' path)

pub record DotfileAllowlist : Type 0 where
  pub allowed : List Str

abbrev pub default_allowed : List Str
default_allowed = text ".acl" ∷ text ".meta" ∷ text ".account" ∷ []

abbrev pub with_defaults : DotfileAllowlist
with_defaults = record { allowed = default_allowed }

dotted : Str → Str
dotted trimmed =
    if is_empty trimmed
    then []
    else if starts_with (b'.' ∷ []) trimmed
    then trimmed
    else b'.' ∷ trimmed

unfoldable pub normalise_entry : Str → Str
unfolding dotted
normalise_entry entry = dotted (trim_start_matches b'/' (trim entry))

-- The filter and the map of the iterators.
kept_entries : List Str → List Str
unfolding normalise_entry
kept_entries [] = []
kept_entries (e ∷ es) =
    let rest = kept_entries es in
    let n = normalise_entry e in if is_empty n || str_eq n (b'.' ∷ []) then rest else n ∷ rest

unfoldable pub new_allowlist : List Str → DotfileAllowlist
unfolding kept_entries
new_allowlist entries = record { allowed = kept_entries entries }

trimmed_full : List Str → List Str
trimmed_full [] = []
trimmed_full (s ∷ ss) =
    let rest = trimmed_full ss in if is_empty (trim s) then rest else trim s ∷ rest

unfoldable pub parse_csv : Str → List Str
unfolding kept_entries trimmed_full
parse_csv raw = kept_entries (trimmed_full (split b',' raw))

listed_or_defaults : List Str → DotfileAllowlist
listed_or_defaults [] = with_defaults
listed_or_defaults (e ∷ es) = record { allowed = e ∷ es }

unfoldable pub allowlist_from_env : Option Str → DotfileAllowlist
unfolding listed_or_defaults parse_csv
allowlist_from_env none = with_defaults
allowlist_from_env (some raw) = listed_or_defaults (parse_csv raw)

-- One round of the loop.
abbrev pub admits_component : DotfileAllowlist → Component → Bool
admits_component l root_dir = true
admits_component l cur_dir = false
admits_component l parent_dir = false
admits_component l (normal s) = not (starts_with (b'.' ∷ []) s && not (elem s l.allowed))

unfoldable pub is_allowed : DotfileAllowlist → Str → Bool
unfolding components
is_allowed l path = all (admits_component l) (components path)
