-- ===== src/Security/Dotfile.antt =====
-- The test of request paths for dotfiles by their text (crates/solid-pod-rs/src/security/dotfile.rs).
pub mod Allowlist
use solid_pod_rs.Prelude.{
  ◌≡◌, ◌↔◌, ◌⊎◌, refl, ap, ◌∙◌, true, false, not, ◌||◌, Option, none, some, List, [], ◌∷◌, Memᴰ,
  if◌then◌else◌, arith,
}
use solid_pod_rs.Text.{Str, text, str_eq, elem, is_empty, starts_with, split}
use solid_pod_rs.Text.Laws.{str_eq_iff, elem_iff}

pub data DotfilePathError : Type 0 where
  not_allowed : (segment path : Str) → DotfilePathError
  parent_traversal : (path : Str) → DotfilePathError
  malformed : (path : Str) → DotfilePathError

abbrev pub static_allowed_dotfiles : List Str
static_allowed_dotfiles =
    text ".acl"
    ∷ text ".meta"
    ∷ text ".well-known"
    ∷ text ".quota.json"
    ∷ text ".acl.meta"
    ∷ text ".account"
    ∷ []

-- One round of the loop: `none` goes on.
unfoldable pub refused_segment : (path segment : Str) → Option DotfilePathError
refused_segment path segment =
    if is_empty segment || str_eq segment (text ".")
    then none
    else if str_eq segment (text "..")
    then some (parent_traversal path)
    else if not (starts_with (text ".") segment)
    then none
    else if elem segment static_allowed_dotfiles
    then none
    else some (not_allowed segment path)

first_refused : Option DotfilePathError → Option DotfilePathError → Option DotfilePathError
first_refused (some e) rest = some e
first_refused none rest = rest

check_segments : Str → List Str → Option DotfilePathError
unfolding refused_segment first_refused
check_segments path [] = none
check_segments path (s ∷ ss) = first_refused (refused_segment path s) (check_segments path ss)

-- `Ok(())` is `none`.
unfoldable pub is_path_allowed : Str → Option DotfilePathError
unfolding check_segments
is_path_allowed path = check_segments path (split b'/' path)

-- A segment that may be served.
abbrev pub IsServable : Str → Type 0
IsServable s =
    (s ≡ [])
    ⊎ ((s ≡ text ".") ⊎ ((starts_with (text ".") s ≡ false) ⊎ Memᴰ s static_allowed_dotfiles))

empty_iff : (s : Str) → (is_empty s ≡ true) ↔ (s ≡ [])
empty_iff [] = ground arith
empty_iff (c ∷ s) = ground arith

parent_not_listed : elem (text "..") static_allowed_dotfiles ≡ false
unfolding str_eq text
parent_not_listed = refl

parent_dotted : starts_with (text ".") (text "..") ≡ true
unfolding starts_with text
parent_dotted = refl

segment-elim : (path s : Str) → refused_segment path s ≡ none → IsServable s
unfolding refused_segment
segment-elim path s h =
    ground (arith, empty_iff s, str_eq_iff s (text "."), elem_iff s static_allowed_dotfiles)

segment-intro : (path s : Str) → IsServable s → refused_segment path s ≡ none
unfolding refused_segment
segment-intro path s h = ground (
  arith,
  empty_iff s,
  str_eq_iff s (text "."),
  str_eq_iff s (text ".."),
  elem_iff s static_allowed_dotfiles,
  parent_not_listed,
  parent_dotted,
)

both_pass : (o r : Option DotfilePathError) → first_refused o r ≡ none → (o ≡ none) × (r ≡ none)
unfolding first_refused
both_pass none r h = (refl, h)
both_pass (some e) r h = cc

segments-elim :
    (path : Str) (ss : List Str)
    → check_segments path ss ≡ none
    → (s : Str) → Memᴰ s ss
    → IsServable s
unfolding check_segments
segments-elim path [] h s m = elim m [ ]
segments-elim path (t ∷ ss) h s (Memᴰ.head e) =
    segment-elim path s (ap (refused_segment path) e ∙ (both_pass _ _ h).0)
segments-elim path (t ∷ ss) h s (Memᴰ.tail m) = segments-elim path ss (both_pass _ _ h).1 s m

segments-intro :
    (path : Str) (ss : List Str)
    → ((s : Str) → Memᴰ s ss → IsServable s)
    → check_segments path ss ≡ none
unfolding check_segments first_refused
segments-intro path [] h = refl
segments-intro path (t ∷ ss) h =
    rw
      (
        segment-intro path t (h t (Memᴰ.head refl)),
        segments-intro path ss (λ s m. h s (Memᴰ.tail m)),
      )
      refl

-- A path is let through exactly if each of its segments between slashes is empty, is a single
-- dot, does not begin with a dot, or is one of the allowed dotfiles; `..` is none of these.
pub is_path_allowed_iff :
    (path : Str)
    → (is_path_allowed path ≡ none) ↔ ((s : Str) → Memᴰ s (split b'/' path) → IsServable s)
unfolding is_path_allowed
is_path_allowed_iff path =
    (segments-elim path (split b'/' path), segments-intro path (split b'/' path))
