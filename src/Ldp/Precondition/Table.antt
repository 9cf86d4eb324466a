-- ===== src/Ldp/Precondition/Table.antt =====
-- The decision table of RFC 7232 as the code decides it.
use solid_pod_rs.Prelude.{
  ◌++◌, ap, sym, ◌∙◌, Option-cases, ◌≡◌, ◌≢◌, ◌↔◌, ◌⊎◌, inl, inr, refl, Bool, true, false, ◌||◌,
  Option, none, some, List, [], ◌∷◌, any, any-elim, any-intro, Memᴰ, subst, arith, Bool-cases,
}
use solid_pod_rs.Text.{
  Str, text, str_eq, trim, to_ascii_uppercase, trim_matches, split, strip_prefix, drop_empty,
}
use solid_pod_rs.Text.Affix.{strip_prefix_iff, strip_prefix-append}
use solid_pod_rs.Text.Laws.{str_eq_iff, str_eq_refl}
use solid_pod_rs.Ldp.Precondition.{
  bare_etag, bare_etags, trim_all, proceed, not_modified, parse_etag_list, is_safe, if_match_list,
  if_match_passes, if_none_match_list, if_none_match_passes, evaluate_preconditions,
}

-- A tag without the weak prefix and the quotes around it.
abbrev pub IsBare : (entry tag : Str) → Type 0
IsBare entry tag =
    ((rest : Str) × (entry ≡ text "W/" ++ rest) × (tag ≡ trim_matches b'"' rest))
    ⊎ ((¬ ((rest : Str) × (entry ≡ text "W/" ++ rest))) × (tag ≡ trim_matches b'"' entry))

-- Some part of the header between commas, trimmed and not empty, is the tag.
abbrev pub Lists : (tag header : Str) → Type 0
Lists tag header =
    (part : Str) × Memᴰ part (split b',' header) × (trim part ≢ []) × IsBare (trim part) tag

bare_etag-IsBare : (entry : Str) → IsBare entry (bare_etag entry)
unfolding bare_etag
bare_etag-IsBare entry = elim (Option-cases (strip_prefix (text "W/") entry)) [
  | inl e ↦ inr (
    λ (rest, same). let h = (strip_prefix_iff (text "W/") entry rest).1 same in cc (h, e),
    rw e refl,
  )
  | inr (rest, e) ↦ inl (rest, (strip_prefix_iff (text "W/") entry rest).0 e, rw e refl)
]

IsBare-unique : (entry a b : Str) → IsBare entry a → IsBare entry b → a ≡ b
IsBare-unique entry a b (inl (r, e, f)) (inl (s, g, h)) =
    let same = strip_prefix-append (text "W/") r in
    let same2 = strip_prefix-append (text "W/") s in
    let rs : r ≡ s = unsome (sym same ∙ ap (strip_prefix (text "W/")) (sym e ∙ g) ∙ same2) in
    f ∙ ap (trim_matches b'"') rs ∙ sym h
  where
    unsome : {x y : Str} → some x ≡ some y → x ≡ y
    unsome k = cc
IsBare-unique entry a b (inl (r, e, f)) (inr (n, h)) = absurd (n (r, e))
IsBare-unique entry a b (inr (n, f)) (inl (s, g, h)) = absurd (n (s, g))
IsBare-unique entry a b (inr (n, f)) (inr (m, h)) = f ∙ sym h

-- A part of the list, trimmed and not empty, is the tag.
abbrev HasPart : Str → List Str → Type 0
HasPart tag ps = (part : Str) × Memᴰ part ps × (trim part ≢ []) × IsBare (trim part) tag

bare_etags-cons :
    (tag p : Str) (ps : List Str) (t : Str)
    → trim p ≡ t
    → Memᴰ tag (bare_etags (drop_empty (trim_all ps))) ↔ HasPart tag ps
    → Memᴰ tag (bare_etags (drop_empty (t ∷ trim_all ps))) ↔ HasPart tag (p ∷ ps)
unfolding bare_etags drop_empty
bare_etags-cons tag p ps [] e (fwd, bwd) = (
  λ m. let (part, k, n, b) = fwd m in (part, Memᴰ.tail k, n, b),
  λ (part, k, n, b). elim k [
    | Memᴰ.head q ↦ absurd (n (ap trim q ∙ e))
    | Memᴰ.tail k2 ↦ bwd (part, k2, n, b)
  ],
)
bare_etags-cons tag p ps (c ∷ t) e (fwd, bwd) = (
  elim [
    | Memᴰ.head q ↦ (
      p,
      Memᴰ.head refl,
      λ h. cc (h, e),
      subst (IsBare (trim p)) (ap bare_etag e ∙ sym q) (bare_etag-IsBare (trim p)),
    )
    | Memᴰ.tail m ↦ let (part, k, n, b) = fwd m in (part, Memᴰ.tail k, n, b)
  ],
  λ (part, k, n, b). elim k [
    | Memᴰ.head q ↦ Memᴰ.head (
        IsBare-unique (trim part) tag (bare_etag (trim part)) b (bare_etag-IsBare (trim part))
        ∙ ap bare_etag (ap trim q ∙ e))
    | Memᴰ.tail k2 ↦ Memᴰ.tail (bwd (part, k2, n, b))
  ],
)

bare_etags_iff :
    (tag : Str) (ps : List Str) → Memᴰ tag (bare_etags (drop_empty (trim_all ps))) ↔ HasPart tag ps
unfolding bare_etags drop_empty
bare_etags_iff tag [] = (λ m. elim m [ ], λ (part, m, n, b). elim m [ ])
bare_etags_iff tag (p ∷ ps) = bare_etags-cons tag p ps (trim p) refl (bare_etags_iff tag ps)

parse_etag_list_iff : (tag header : Str) → Memᴰ tag (parse_etag_list header) ↔ Lists tag header
unfolding parse_etag_list
parse_etag_list_iff tag header = bare_etags_iff tag (split b',' header)

-- `If-Match` holds: absent, or the resource exists and `*` or its tag is listed.
abbrev pub IfMatchHolds : Option Str → Option Str → Type 0
IfMatchHolds current if_match =
    (if_match ≡ none)
    ⊎ ((im cur : Str) × (if_match ≡ some im)
        × (current ≡ some cur)
        × ((trim im ≡ text "*") ⊎ Lists cur (trim im) ⊎ Lists (text "*") (trim im)))

-- `If-None-Match` holds: absent, or the resource does not, or neither `*` nor its tag is listed.
abbrev pub IfNoneMatchHolds : Option Str → Option Str → Type 0
IfNoneMatchHolds current if_none_match =
    (if_none_match ≡ none)
    ⊎ (current ≡ none)
    ⊎ ((inm cur : Str) × (if_none_match ≡ some inm)
        × (current ≡ some cur)
        × (trim inm ≢ text "*")
        × (¬ (Lists cur (trim inm))))

mem_of_any : (cur : Str) (ws : List Str) → any (λ w. str_eq w cur) ws ≡ true → Memᴰ cur ws
mem_of_any cur ws h =
    let (w, m, e) = any-elim (λ w. str_eq w cur) ws h in
    subst (λ x. Memᴰ x ws) ((str_eq_iff w cur).0 e) m

any_of_mem : (cur : Str) (ws : List Str) → Memᴰ cur ws → any (λ w. str_eq w cur) ws ≡ true
any_of_mem cur ws m = any-intro (λ w. str_eq w cur) m (str_eq_refl cur)

any_or : (p q : Str → Bool) (ws : List Str) → any (λ w. p w || q w) ws ≡ (any p ws || any q ws)
any_or p q [] = refl
any_or p q (w ∷ ws) = ground (arith, any_or p q ws)

if_match_list-elim :
    (cur : Str) (ws : List Str)
    → if_match_list ws (some cur) ≡ true
    → Memᴰ cur ws ⊎ Memᴰ (text "*") ws
unfolding if_match_list
if_match_list-elim cur ws h = elim (Bool-cases (any (λ w. str_eq w cur) ws)) [
  | inl e ↦ inl (mem_of_any cur ws e)
  | inr e ↦ inr (
      mem_of_any (text "*") ws
        (ground (arith, any_or (λ w. str_eq w cur) (λ w. str_eq w (text "*")) ws)))
]

if_match_list-intro :
    (cur : Str) (ws : List Str)
    → Memᴰ cur ws ⊎ Memᴰ (text "*") ws
    → if_match_list ws (some cur) ≡ true
unfolding if_match_list
if_match_list-intro cur ws (inl m) =
    any-intro (λ w. str_eq w cur || str_eq w (text "*")) m (rw (str_eq_refl cur))
if_match_list-intro cur ws (inr m) =
    any-intro (λ w. str_eq w cur || str_eq w (text "*")) m (ground (arith, str_eq_refl (text "*")))

listed-elim :
    (cur t : Str)
    → if_match_list (parse_etag_list t) (some cur) ≡ true
    → Lists cur t ⊎ Lists (text "*") t
listed-elim cur t h = elim (if_match_list-elim cur (parse_etag_list t) h) [
  | inl m ↦ inl ((parse_etag_list_iff cur t).0 m)
  | inr m ↦ inr ((parse_etag_list_iff (text "*") t).0 m)
]

listed-intro :
    (cur t : Str)
    → Lists cur t ⊎ Lists (text "*") t
    → if_match_list (parse_etag_list t) (some cur) ≡ true
listed-intro cur t (inl m) =
    if_match_list-intro cur (parse_etag_list t) (inl ((parse_etag_list_iff cur t).1 m))
listed-intro cur t (inr m) =
    if_match_list-intro cur (parse_etag_list t) (inr ((parse_etag_list_iff (text "*") t).1 m))

if_match_passes_iff :
    (current if_match : Option Str)
    → (if_match_passes current if_match ≡ true) ↔ IfMatchHolds current if_match
unfolding if_match_passes if_match_list
if_match_passes_iff current none = (λ h. inl refl, λ h. refl)
if_match_passes_iff none (some im) =
    (λ h. absurd (ground arith), elim [ inl e ↦ cc | inr (i, cur, e, c, k) ↦ cc ])
if_match_passes_iff (some cur) (some im) = elim (Bool-cases (str_eq (trim im) (text "*"))) [
  | inl e ↦ rw e (λ h. inr (im, cur, refl, refl, inl ((str_eq_iff _ _).0 e)), λ h. refl)
  | inr e ↦ rw e (
    λ h. inr (im, cur, refl, refl, inr (listed-elim cur (trim im) h)),
    elim [
      | inl n ↦ cc
      | inr (i, c, same, at, k) ↦
          let i_eq : im ≡ i = cc in let c_eq : cur ≡ c = cc in go e (rw (← i_eq, ← c_eq) at k)
    ],
  )
]
  where
    go :
        str_eq (trim im) (text "*") ≡ false
        → (trim im ≡ text "*") ⊎ Lists cur (trim im) ⊎ Lists (text "*") (trim im)
        → if_match_list (parse_etag_list (trim im)) (some cur) ≡ true
    go e (inl star) = cc (e, (str_eq_iff (trim im) (text "*")).1 star)
    go e (inr m) = listed-intro cur (trim im) m

if_none_match_list-elim :
    (cur : Str) (ws : List Str) → if_none_match_list ws (some cur) ≡ true → ¬ (Memᴰ cur ws)
unfolding if_none_match_list
if_none_match_list-elim cur ws h m = cc (rw (any_of_mem cur ws m) at h)

if_none_match_list-intro :
    (cur : Str) (ws : List Str) → ¬ (Memᴰ cur ws) → if_none_match_list ws (some cur) ≡ true
unfolding if_none_match_list
if_none_match_list-intro cur ws h = elim (Bool-cases (any (λ w. str_eq w cur) ws)) [
  | inl e ↦ absurd (h (mem_of_any cur ws e))
  | inr e ↦ rw e
]

unlisted-elim :
    (cur t : Str) → if_none_match_list (parse_etag_list t) (some cur) ≡ true → ¬ Lists cur t
unlisted-elim cur t h m =
    if_none_match_list-elim cur (parse_etag_list t) h ((parse_etag_list_iff cur t).1 m)

unlisted-intro :
    (cur t : Str) → ¬ Lists cur t → if_none_match_list (parse_etag_list t) (some cur) ≡ true
unlisted-intro cur t n =
    if_none_match_list-intro cur (parse_etag_list t) (λ m. n ((parse_etag_list_iff cur t).0 m))

if_none_match_passes_iff :
    (current if_none_match : Option Str)
    → (if_none_match_passes current if_none_match ≡ true) ↔ IfNoneMatchHolds current if_none_match
unfolding if_none_match_passes if_none_match_list
if_none_match_passes_iff current none = (λ h. inl refl, λ h. refl)
if_none_match_passes_iff none (some inm) = (λ h. inr (inl refl), λ h. ground arith)
if_none_match_passes_iff (some cur) (some inm) = elim (Bool-cases (str_eq (trim inm) (text "*"))) [
  | inl e ↦ rw e (
    λ h. absurd (cc),
    elim [
      | inl n ↦ cc
      | inr (inl n) ↦ cc
      | inr (inr (i, c, same, at, star, rest)) ↦
          let i_eq : i ≡ inm = cc in
          absurd (star (rw i_eq ((str_eq_iff (trim inm) (text "*")).0 e)))
    ],
  )
  | inr e ↦ rw e (
    λ h. inr (
        inr (
          inm,
          cur,
          refl,
          refl,
          λ star. cc (e, (str_eq_iff (trim inm) (text "*")).1 star),
          unlisted-elim cur (trim inm) h,
        )),
    elim [
      | inl n ↦ cc
      | inr (inl n) ↦ cc
      | inr (inr (i, c, same, at, star, rest)) ↦
          let i_eq : i ≡ inm = cc in
          let c_eq : c ≡ cur = cc in unlisted-intro cur (trim inm) (rw (i_eq, c_eq) at rest)
    ],
  )
]

is_safe_iff :
    (method : Str)
    → (is_safe method ≡ true)
      ↔ ((to_ascii_uppercase method ≡ text "GET") ⊎ (to_ascii_uppercase method ≡ text "HEAD"))
unfolding is_safe
is_safe_iff method =
    let m = to_ascii_uppercase method in
    ground (arith, str_eq_iff m (text "GET"), str_eq_iff m (text "HEAD"))

-- The request proceeds exactly if both headers hold, and it is answered `not_modified` exactly if
-- `If-Match` holds, `If-None-Match` does not and the method is GET or HEAD, up to case. An absent
-- header holds; `If-Match` else needs an existing resource and `*` or its tag in the list;
-- `If-None-Match` else holds exactly if there is no resource, or the header is no bare `*` and
-- does not list its tag. A list is the parts of the trimmed header between its commas; one that
-- is not blank lists the tag that is left of it without white space around it, a `W/` in front
-- and the quotes around that.
pub evaluate_preconditions_iff :
    (method : Str) (current if_match if_none_match : Option Str)
    → ((evaluate_preconditions method current if_match if_none_match ≡ proceed)
        ↔ (IfMatchHolds current if_match × IfNoneMatchHolds current if_none_match))
      × ((evaluate_preconditions method current if_match if_none_match ≡ not_modified) ↔ (
          IfMatchHolds current if_match
          × (¬ IfNoneMatchHolds current if_none_match)
          × ((to_ascii_uppercase method ≡ text "GET") ⊎ (to_ascii_uppercase method ≡ text "HEAD"))))
unfolding evaluate_preconditions
evaluate_preconditions_iff method current im inm =
    let (m_fwd, m_bwd) = if_match_passes_iff current im in
    let (n_fwd, n_bwd) = if_none_match_passes_iff current inm in
    (
      (λ h. (m_fwd (ground arith), n_fwd (ground arith)), λ (a, b). rw (m_bwd a, n_bwd b)),
      (
        λ h. (
          m_fwd (ground arith),
          λ b. let p = n_bwd b in ground arith,
          (is_safe_iff method).0 (ground arith),
        ),
        λ (a, b, c). elim (Bool-cases (if_none_match_passes current inm)) [
          | inl e ↦ absurd (b (n_fwd e))
          | inr e ↦ rw (m_bwd a, e, (is_safe_iff method).1 c)
        ],
      ),
    )
