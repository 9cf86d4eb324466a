-- ===== src/Wac/Turtle/Objects.antt =====
-- The identifiers of a field, written and read back.
use solid_pod_rs.Prelude.{
  ℕ, zero, suc, ◌≤◌, ◌≡◌, refl, sym, ap, ◌∙◌, Bool, true, false, not, ◌&&◌, ◌||◌, none, some, List,
  [], ◌∷◌, ◌++◌, ◌==◌, any, all, map, length, length-append, arith, Bool-cases, inl, inr,
}
use solid_pod_rs.Text.{
  Str, text, is_empty, is_whitespace, starts_with, strip_prefix, trim, trim_start, trim_end,
  trim_start_by, trim_end_by, break_at, join,
}
use solid_pod_rs.Text.Laws.{break_at-append, break_at-none}
use solid_pod_rs.Text.Map.{Map}
use solid_pod_rs.Wac.Turtle.{
  ends_token, closed_iri, pop_bare, pop_trimmed, turtle_pop_term, expand_curie_or_iri,
  popped_object, next_object, objects_from, parse_object_list,
}
use solid_pod_rs.Wac.Turtle.Write.{rendered_id, rendered_ids}

-- A character that stands in an identifier whether it is written in brackets or not.
abbrev pub is_plain : ℕ → Bool
is_plain c = not (ends_token c || (c == b'<' || (c == b'>' || c == b'"')))

abbrev pub is_plain_id : Str → Bool
is_plain_id r = not (is_empty r) && all is_plain r

-- A text that does not begin with white space or end with it.
abbrev pub begins_dark : Str → Bool
begins_dark [] = true
begins_dark (c ∷ s) = not (is_whitespace c)

abbrev pub ends_dark : Str → Bool
ends_dark [] = true
ends_dark (c ∷ []) = not (is_whitespace c)
ends_dark (c ∷ d ∷ s) = ends_dark (d ∷ s)

pub trim_start-dark : (s : Str) → begins_dark s ≡ true → trim_start s ≡ s
unfolding trim_start trim_start_by
trim_start-dark [] h = refl
trim_start-dark (c ∷ s) h = ground arith

pub trim_end_by-dark : (s : Str) → ends_dark s ≡ true → trim_end_by is_whitespace s ≡ s
unfolding trim_end_by
trim_end_by-dark [] h = refl
trim_end_by-dark (c ∷ []) h = ground arith
trim_end_by-dark (c ∷ d ∷ s) h = rw (trim_end_by-dark (d ∷ s) h) (ground arith)

pub ends_dark-append :
    (r : Str) (c : ℕ) (s : Str) → ends_dark (c ∷ s) ≡ true → ends_dark (r ++ c ∷ s) ≡ true
ends_dark-append [] c s h = h
ends_dark-append (x ∷ []) c s h = h
ends_dark-append (x ∷ y ∷ r) c s h = ends_dark-append (y ∷ r) c s h

-- Nothing follows the identifier, or a character that ends a token does.
abbrev pub Follows : Str → Type 0
Follows [] = Unit
Follows (c ∷ s) = ends_token c ≡ true

plain_bare : (r : Str) → all is_plain r ≡ true → any ends_token r ≡ false
plain_bare [] h = refl
plain_bare (c ∷ r) h = ground (arith, plain_bare r)

plain_closed : (r : Str) → all is_plain r ≡ true → any (λ c. c == b'>') r ≡ false
plain_closed [] h = refl
plain_closed (c ∷ r) h = ground (arith, plain_closed r)

pub append_nil : (r : Str) → r ++ [] ≡ r
append_nil [] = refl
append_nil (c ∷ r) = ap (λ s. c ∷ s) (append_nil r)

bare_break : (r s : Str) → all is_plain r ≡ true → Follows s → break_at ends_token (r ++ s) ≡ (r, s)
bare_break r [] h f =
    ap (break_at ends_token) (append_nil r) ∙ break_at-none ends_token r (plain_bare r h)
bare_break r (c ∷ s) h f = break_at-append ends_token r c s (plain_bare r h) f

pub pop-bare :
    (r s : Str) → is_plain_id r ≡ true → Follows s → turtle_pop_term (r ++ s) ≡ some (r, s)
unfolding turtle_pop_term trim_start trim_start_by strip_prefix pop_trimmed pop_bare starts_with
pop-bare (c ∷ r) s h f =
    let here : is_plain c ≡ true = ground arith in
    let rest : break_at ends_token (c ∷ (r ++ s)) ≡ (c ∷ r, s) =
      bare_break (c ∷ r) s (ground arith) f in
    let w : is_whitespace c ≡ false = ground arith in
    let a : (b'<' == c) ≡ false = ground arith in
    let q : (b'"' == c) ≡ false = ground arith in rw (w, a, q, rest) refl
pop-bare [] s h f = cc

pub append-snoc : (r : Str) (c : ℕ) (s : Str) → (r ++ c ∷ []) ++ s ≡ r ++ c ∷ s
append-snoc [] c s = refl
append-snoc (x ∷ r) c s = ap (λ t. x ∷ t) (append-snoc r c s)

pub pop-iri :
    (r s : Str)
    → is_plain_id r ≡ true
    → turtle_pop_term (b'<' ∷ ((r ++ b'>' ∷ []) ++ s)) ≡ some (r, s)
unfolding turtle_pop_term trim_start trim_start_by strip_prefix pop_trimmed closed_iri is_whitespace
pop-iri r s h =
    rw
      (
        append-snoc r b'>' s,
        break_at-append (λ c. c == b'>') r b'>' s (plain_closed r (ground arith)) refl,
      )
      refl

-- A rendered identifier is read as the identifier, and what follows is left.
pop-rendered :
    (r s : Str)
    → is_plain_id r ≡ true
    → Follows s
    → turtle_pop_term (rendered_id r ++ s) ≡ some (r, s)
pop-rendered r s h f = elim (Bool-cases (starts_with (text "http") r)) [
  | inl e ↦ rw e (pop-iri r s h)
  | inr e ↦ rw e (pop-bare r s h f)
]

-- What the writer puts behind the first identifier.
pub tail : List Str → Str
tail [] = []
tail (r ∷ rs) = b',' ∷ b' ' ∷ (rendered_id r ++ tail rs)

pub join-tail :
    (r : Str) (rs : List Str)
    → join (b',' ∷ b' ' ∷ []) (rendered_ids (r ∷ rs)) ≡ rendered_id r ++ tail rs
unfolding join rendered_ids tail
join-tail r [] = sym (append_nil (rendered_id r))
join-tail r (q ∷ rs) = ap (λ t. rendered_id r ++ (b',' ∷ b' ' ∷ t)) (join-tail q rs)

tail-Follows : (rs : List Str) → Follows (tail rs)
unfolding tail is_whitespace
tail-Follows [] = tt
tail-Follows (r ∷ rs) = refl

-- A space or nothing, before a text.
lead : Bool → Str → Str
lead true s = b' ' ∷ s
lead false s = s

pub rendered-dark :
    (r s : Str)
    → is_plain_id r ≡ true
    → (begins_dark (rendered_id r ++ s) ≡ true) × (is_empty (rendered_id r ++ s) ≡ false)
unfolding is_whitespace
rendered-dark r s h = elim (Bool-cases (starts_with (text "http") r)) [
  | inl e ↦ rw e (refl, refl)
  | inr e ↦ rw e (plain_dark r h)
]
  where
    plain_dark :
        (q : Str)
        → is_plain_id q ≡ true
        → (begins_dark (q ++ s) ≡ true) × (is_empty (q ++ s) ≡ false)
    plain_dark [] h = cc
    plain_dark (c ∷ q) h = (ground arith, refl)

lead-dark :
    (b : Bool) (r s : Str)
    → is_plain_id r ≡ true
    → trim_start (lead b (rendered_id r ++ s)) ≡ rendered_id r ++ s
unfolding lead
lead-dark false r s h = trim_start-dark (rendered_id r ++ s) (rendered-dark r s h).0
lead-dark true r s h =
    unfold trim_start trim_start_by is_whitespace in
    trim_start-dark (rendered_id r ++ s) (rendered-dark r s h).0

module _ (prefixes : Map Str) where
  next_object-rendered :
      (b : Bool) (r s : Str)
      → is_plain_id r ≡ true
      → Follows s
      → next_object prefixes (lead b (rendered_id r ++ s))
        ≡ some (expand_curie_or_iri prefixes r, strip_prefix (b',' ∷ []) (trim_start s))
  unfolding next_object popped_object
  next_object-rendered b r s h f =
      rw (lead-dark b r s h, (rendered-dark r s h).1, pop-rendered r s h f) refl

  positive : {n : ℕ} → suc n ≤ 0 → ⊥
  positive h = omega arith

  round-last :
      (n : ℕ) (t object : Str)
      → next_object prefixes t ≡ some (object, none)
      → objects_from prefixes (suc n) t ≡ object ∷ []
  unfolding objects_from
  round-last n t object e = rw (objects_from, e) refl

  round-more :
      (n : ℕ) (t object more : Str)
      → next_object prefixes t ≡ some (object, some more)
      → objects_from prefixes (suc n) t ≡ object ∷ objects_from prefixes n more
  unfolding objects_from
  round-more n t object more e = rw (objects_from, e) refl

  objects_from-tail :
      (n : ℕ) (b : Bool) (r : Str) (rs : List Str)
      → is_plain_id r ≡ true
      → all is_plain_id rs ≡ true
      → length rs ≤ n
      → objects_from prefixes (suc n) (lead b (rendered_id r ++ tail rs))
        ≡ map (expand_curie_or_iri prefixes) (r ∷ rs)
  unfolding tail trim_start trim_start_by strip_prefix is_whitespace lead
  objects_from-tail n b r [] h hs k =
      round-last n (lead b (rendered_id r ++ [])) (expand_curie_or_iri prefixes r)
        (next_object-rendered b r [] h tt)
  objects_from-tail zero b r (q ∷ rs) h hs k =
      let bad : length (q ∷ rs) ≤ 0 = k in elim (positive bad) [ ]
  objects_from-tail (suc n) b r (q ∷ rs) h hs k =
      let more = lead true (rendered_id q ++ tail rs) in
      round-more (suc n) (lead b (rendered_id r ++ (b',' ∷ more))) (expand_curie_or_iri prefixes r)
        more (next_object-rendered b r (b',' ∷ more) h refl)
      ∙ ap (λ os. expand_curie_or_iri prefixes r ∷ os)
          (objects_from-tail n true q rs (ground arith) (ground arith) (omega arith))

-- The text ends as its last identifier does.
plain-ends : (r : Str) → all is_plain r ≡ true → ends_dark r ≡ true
plain-ends [] h = refl
plain-ends (c ∷ []) h = ground arith
plain-ends (c ∷ d ∷ r) h = plain-ends (d ∷ r) (ground arith)

rendered-ends : (r : Str) → is_plain_id r ≡ true → ends_dark (rendered_id r) ≡ true
rendered-ends r h = elim (Bool-cases (starts_with (text "http") r)) [
  | inl e ↦ rw e (ends_dark-append (b'<' ∷ r) b'>' [] (unfold is_whitespace in refl))
  | inr e ↦ rw e (plain-ends r (ground arith))
]

pub ends_behind : (s t : Str) → is_empty t ≡ false → ends_dark t ≡ true → ends_dark (s ++ t) ≡ true
ends_behind s [] e h = cc
ends_behind s (c ∷ t) e h = ends_dark-append s c t h

pub tail-ends :
    (r : Str) (rs : List Str)
    → is_plain_id r ≡ true
    → all is_plain_id rs ≡ true
    → ends_dark (rendered_id r ++ tail rs) ≡ true
unfolding tail
tail-ends r [] h hs = rw (append_nil (rendered_id r)) (rendered-ends r h)
tail-ends r (q ∷ rs) h hs =
    ends_dark-append (rendered_id r) b',' (b' ' ∷ (rendered_id q ++ tail rs)) (
      ends_behind (b',' ∷ b' ' ∷ []) (rendered_id q ++ tail rs)
        (rendered-dark q (tail rs) (ground arith)).1 (tail-ends q rs (ground arith) (ground arith)))

length-tail : (r : Str) (rs : List Str) → length rs ≤ length (rendered_id r ++ tail rs)
unfolding tail
length-tail r [] = omega arith
length-tail r (q ∷ rs) = omega (
  arith,
  length-append (rendered_id r) (b',' ∷ b' ' ∷ (rendered_id q ++ tail rs)),
  length-tail q rs,
)

-- The list that the writer makes of plain identifiers is read as their expansions.
pub parse_object_list-rendered :
    (prefixes : Map Str) (r : Str) (rs : List Str)
    → is_plain_id r ≡ true
    → all is_plain_id rs ≡ true
    → parse_object_list prefixes (join (b',' ∷ b' ' ∷ []) (rendered_ids (r ∷ rs)))
      ≡ map (expand_curie_or_iri prefixes) (r ∷ rs)
unfolding parse_object_list lead
parse_object_list-rendered prefixes r rs h hs =
    let whole : trim (rendered_id r ++ tail rs) ≡ rendered_id r ++ tail rs =
      unfold trim trim_end in
      rw (trim_end_by-dark (rendered_id r ++ tail rs) (tail-ends r rs h hs))
        (trim_start-dark (rendered_id r ++ tail rs) (rendered-dark r (tail rs) h).0) in
    rw (join-tail r rs, whole)
      (objects_from-tail prefixes (length (rendered_id r ++ tail rs)) false r rs h hs
        (length-tail r rs))
