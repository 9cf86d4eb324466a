-- ===== src/Multitenant/Labels.antt =====
-- What a pod's name has in common with the host it is taken from.
use solid_pod_rs.Prelude.{
  ℕ, zero, suc, ◌<◌, ◌≡◌, ◌⊎◌, inl, inr, refl, sym, ap, ◌∙◌, false, not, ◌&&◌, some, [], ◌∷◌, ◌++◌,
  ◌==◌, filter, length, arith, Bool-cases, Option-cases,
}
use solid_pod_rs.Text.{
  Str, text, str_eq, is_empty, to_ascii_lowercase, has, contains, strip_suffix, strip_prefix,
  starts_with,
}
use solid_pod_rs.Text.Affix.{eq_of_strip_suffix}
use solid_pod_rs.Text.Laws.{str_eq_iff}
use solid_pod_rs.Multitenant.{
  is_file_like_label, strip_port, remove_dotdot, scrub_from, scrub_dotdot, label_pod, base_of,
  resolve_subdomain,
}

-- The characters of a text other than dots.
abbrev pub undotted : Str → Str
undotted s = filter (λ c. not (c == b'.')) s

remove_dotdot-undotted : (s : Str) → undotted (remove_dotdot s) ≡ undotted s
unfolding remove_dotdot
remove_dotdot-undotted [] = refl
remove_dotdot-undotted (c ∷ []) = refl
remove_dotdot-undotted (c ∷ d ∷ s) =
    ground (arith, remove_dotdot-undotted s, remove_dotdot-undotted (d ∷ s))

-- A pass keeps the text, or makes it shorter.
remove_dotdot-shrinks : (s : Str) → (remove_dotdot s ≡ s) ⊎ (length (remove_dotdot s) < length s)
unfolding remove_dotdot
remove_dotdot-shrinks [] = inl refl
remove_dotdot-shrinks (c ∷ []) = inl refl
remove_dotdot-shrinks (c ∷ d ∷ s) =
    ground (arith, remove_dotdot-shrinks s, remove_dotdot-shrinks (d ∷ s))

undotted_id : (s : Str) → has b'.' s ≡ false → undotted s ≡ s
undotted_id [] h = refl
undotted_id (c ∷ s) h = ground (arith, undotted_id s)

-- A text that a pass shortens by two characters is not what it was.
too_short : (c d : ℕ) (s : Str) → remove_dotdot s ≡ c ∷ d ∷ s → ⊥
too_short c d s h = elim (remove_dotdot-shrinks s) [
  | inl e ↦ omega (arith, ap length (sym e ∙ h))
  | inr e ↦ omega (arith, ap length h)
]

not_a_pair :
    (c d : ℕ) (s : Str)
    → (c == b'.' && d == b'.') ≡ false
    → starts_with (text "..") (c ∷ d ∷ s) ≡ false
unfolding starts_with strip_prefix text
not_a_pair c d s h = ground arith

settled-contains : (s : Str) → remove_dotdot s ≡ s → contains (text "..") s ≡ false
unfolding remove_dotdot contains
settled-contains [] h = unfold text in refl
settled-contains (c ∷ []) h = unfold text starts_with strip_prefix in ground arith
settled-contains (c ∷ d ∷ s) h = elim (Bool-cases (c == b'.' && d == b'.')) [
  | inl both ↦ elim (too_short c d s (rw (remove_dotdot, both) at h)) [ ]
  | inr apart ↦
      let rest : remove_dotdot (d ∷ s) ≡ d ∷ s = rest_of (rw (remove_dotdot, apart) at h) in
      rw (not_a_pair c d s apart, settled-contains (d ∷ s) rest) refl
]
  where
    rest_of : {x : Str} → c ∷ x ≡ c ∷ d ∷ s → x ≡ d ∷ s
    rest_of e = cc

none_below : (n : ℕ) → n < 0 → ⊥
none_below n h = omega arith

scrub_from-settled :
    (n : ℕ) (s : Str)
    → length s < n
    → (remove_dotdot (scrub_from n s) ≡ scrub_from n s) × (undotted (scrub_from n s) ≡ undotted s)
unfolding scrub_from
scrub_from-settled zero s h = elim (none_below (length s) h) [ ]
scrub_from-settled (suc n) s h = elim (Bool-cases (str_eq (remove_dotdot s) s)) [
  | inl same ↦ rw (scrub_from, same) ((str_eq_iff (remove_dotdot s) s).0 same, refl)
  | inr differ ↦
      let shorter : length (remove_dotdot s) < n =
        ground (arith, remove_dotdot-shrinks s, str_eq_iff (remove_dotdot s) s) in
      let (settled, kept) = scrub_from-settled n (remove_dotdot s) shorter in
      rw (scrub_from, differ) (settled, kept ∙ remove_dotdot-undotted s)
]

-- The loop that takes pairs of dots out of a text comes to its end: a further pass changes
-- nothing, no pair of dots is left, and the characters other than dots are those of the text, in
-- order.
pub scrub_dotdot-settled :
    (s : Str)
    → (remove_dotdot (scrub_dotdot s) ≡ scrub_dotdot s)
      × (contains (text "..") (scrub_dotdot s) ≡ false)
      × (undotted (scrub_dotdot s) ≡ undotted s)
unfolding scrub_dotdot
scrub_dotdot-settled s =
    let (settled, kept) = scrub_from-settled (suc (length s)) s (omega arith) in
    (settled, settled-contains (scrub_dotdot s) settled, kept)

-- `p` is the label with its dots taken out, and it can name a directory.
abbrev pub IsLabel : (label p : Str) → Type 0
IsLabel label p =
    (p ≡ undotted label)
    × (is_file_like_label label ≡ false)
    × (is_empty p ≡ false)
    × (has b'/' p ≡ false)

label_pod-IsLabel : (label p : Str) → label_pod (some label) ≡ some p → IsLabel label p
unfolding label_pod
label_pod-IsLabel label p h =
    let facts : (scrub_dotdot label ≡ p)
        × (is_file_like_label label ≡ false)
        × (is_empty p ≡ false)
        × (has b'.' p ≡ false)
        × (has b'/' p ≡ false) =
      ground arith in
    let (e, file, full, dots, slashes) = facts in
    let (settled, clean, kept) = scrub_dotdot-settled label in
    (sym (undotted_id p dots) ∙ ap undotted (sym e) ∙ kept, file, full, slashes)

pod_of_suffix :
    (base host p : Str)
    → label_pod (strip_suffix (b'.' ∷ base) host) ≡ some p
    → (label : Str) × (host ≡ label ++ b'.' ∷ base) × IsLabel label p
pod_of_suffix base host p h = elim (Option-cases (strip_suffix (b'.' ∷ base) host)) [
  | inl e ↦ let bad = rw e at h in (unfold label_pod in cc)
  | inr (label, e) ↦
      (label, eq_of_strip_suffix (b'.' ∷ base) host label e, label_pod-IsLabel label p (rw e at h))
]

-- If a host resolves to a pod, then the host without its port, in lower case, is a label, a dot
-- and the base domain, the label has not the form of a file name, and the name of the pod is the
-- label with its dots taken out; it is not empty and has no slash.
pub resolve_subdomain-IsLabel :
    (base_domain host url_path p : Str)
    → (resolve_subdomain base_domain host url_path).pod ≡ some p
    → (label : Str) × (to_ascii_lowercase (strip_port host) ≡ label ++ b'.' ∷ base_of base_domain)
      × IsLabel label p
unfolding resolve_subdomain
resolve_subdomain-IsLabel base_domain host url_path p h =
    elim (Bool-cases (str_eq (to_ascii_lowercase (strip_port host)) (base_of base_domain))) [
      | inl bare ↦ let bad = rw bare at h in cc
      | inr below ↦
          pod_of_suffix (base_of base_domain) (to_ascii_lowercase (strip_port host)) p
            (rw below at h)
    ]
