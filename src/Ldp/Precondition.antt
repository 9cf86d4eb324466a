-- ===== src/Ldp/Precondition.antt =====
-- Conditional requests: `evaluate_preconditions` (crates/solid-pod-rs/src/ldp.rs).
pub mod Table
use solid_pod_rs.Prelude.{
  ℕ, ◌≡◌, Bool, true, false, not, ◌&&◌, ◌||◌, Option, none, some, List, [], ◌∷◌, ◌++◌, ◌==◌,
  if◌then◌else◌, any,
}
use solid_pod_rs.Text.{
  Str, text, str_eq, is_empty, is_some, trim, trim_matches, split, strip_prefix, to_ascii_uppercase,
  drop_empty,
}

pub data ConditionalOutcome : Type 0 where
  proceed precondition_failed not_modified : ConditionalOutcome

abbrev trim_all : List Str → List Str
trim_all [] = []
trim_all (s ∷ ss) = trim s ∷ trim_all ss

abbrev or_whole : Str → Option Str → Str
or_whole s none = s
or_whole s (some rest) = rest

-- Without the weak prefix and the surrounding quotes.
bare_etag : Str → Str
bare_etag s = trim_matches b'"' (or_whole s (strip_prefix (text "W/") s))

bare_etags : List Str → List Str
bare_etags [] = []
bare_etags (s ∷ ss) = bare_etag s ∷ bare_etags ss

unfoldable pub parse_etag_list : Str → List Str
unfolding bare_etags bare_etag drop_empty
parse_etag_list input = bare_etags (drop_empty (trim_all (split b',' input)))

unfoldable pub is_safe : Str → Bool
is_safe method =
    let m = to_ascii_uppercase method in str_eq m (text "GET") || str_eq m (text "HEAD")

-- The first `if let`: `true` where it does not return.
if_match_list : List Str → Option Str → Bool
if_match_list wanted none = false
if_match_list wanted (some cur) = any (λ w. str_eq w cur || str_eq w (text "*")) wanted

unfoldable pub if_match_passes : Option Str → Option Str → Bool
unfolding if_match_list
if_match_passes current none = true
if_match_passes current (some im) =
    let raw = trim im in
    if str_eq raw (text "*") then is_some current else if_match_list (parse_etag_list raw) current

-- The second: `true` where it does not return.
if_none_match_list : List Str → Option Str → Bool
if_none_match_list wanted none = true
if_none_match_list wanted (some cur) = not (any (λ w. str_eq w cur) wanted)

unfoldable pub if_none_match_passes : Option Str → Option Str → Bool
unfolding if_none_match_list
if_none_match_passes current none = true
if_none_match_passes current (some inm) =
    let raw = trim inm in
    if str_eq raw (text "*")
    then not (is_some current)
    else if_none_match_list (parse_etag_list raw) current

unfoldable pub evaluate_preconditions :
    Str → Option Str → Option Str → Option Str → ConditionalOutcome
unfolding if_match_passes if_none_match_passes is_safe
evaluate_preconditions method current_etag if_match if_none_match =
    if not (if_match_passes current_etag if_match)
    then precondition_failed
    else if not (if_none_match_passes current_etag if_none_match)
    then (if is_safe method then not_modified else precondition_failed)
    else proceed
