-- ===== src/Wac/Turtle/Rules/Pairs.antt =====
-- The predicates of a rule, split and read one after the other.
use solid_pod_rs.Prelude.{
  ℕ, ◌≡◌, refl, sym, ap, ◌∙◌, Bool, true, false, not, ◌||◌, some, List, [], ◌∷◌, ◌++◌, ◌==◌, all,
  map, arith,
}
use solid_pod_rs.Text.{
  Str, is_empty, is_whitespace, trim, trim_start, trim_end, trim_start_by, trim_end_by, join,
}
use solid_pod_rs.Text.Map.{Map}
use solid_pod_rs.Wac.Turtle.{
  ends_token, predicate_signs, scan_start, scan_step, separates, split_scan, expand_curie_or_iri,
}
use solid_pod_rs.Wac.Turtle.Write.{rendered_ids}
use solid_pod_rs.Wac.Turtle.Rules.{Draft, draft_pairs, draft_pair, set_pair, set_field}
use solid_pod_rs.Wac.Turtle.Objects.{
  is_plain_id, parse_object_list-rendered, pop-bare, begins_dark, ends_dark, ends_dark-append,
  append_nil, append-snoc, trim_start-dark, trim_end_by-dark, tail, tail-ends, rendered-dark,
  join-tail, ends_behind,
}

-- A character that leaves the splitter as it is.
abbrev pub is_quiet : ℕ → Bool
is_quiet c = not (c == b';' || (c == b'[' || (c == b']' || c == b'"')))

quiet_step :
    (c : ℕ)
    → is_quiet c ≡ true
    → (separates predicate_signs c scan_start ≡ false)
      × (scan_step predicate_signs c scan_start ≡ scan_start)
quiet_step c h = (ground arith, ground arith)

pub split-quiet :
    (p cs cur : Str)
    → all is_quiet p ≡ true
    → split_scan predicate_signs (p ++ cs) scan_start cur
      ≡ split_scan predicate_signs cs scan_start (cur ++ p)
unfolding split_scan
split-quiet [] cs cur h = ap (split_scan predicate_signs cs scan_start) (sym (append_nil cur))
split-quiet (c ∷ p) cs cur h =
    let (stay, same) = quiet_step c (ground arith) in
    rw (split_scan, stay, same)
      (split-quiet p cs (cur ++ c ∷ []) (ground arith)
        ∙ ap (split_scan predicate_signs cs scan_start) (append-snoc cur c p))

-- The text of a predicate and its objects, as the writer puts it behind a semicolon.
abbrev pub objects_text : List Str → Str
objects_text ids = join (b',' ∷ b' ' ∷ []) (rendered_ids ids)

abbrev pub chunk : (pred : Str) → List Str → Str
chunk pred ids = 10 ∷ b' ' ∷ b' ' ∷ b' ' ∷ b' ' ∷ (pred ++ b' ' ∷ objects_text ids)

pub trim_end_by-white : (w : Str) → all is_whitespace w ≡ true → trim_end_by is_whitespace w ≡ []
unfolding trim_end_by
trim_end_by-white [] h = refl
trim_end_by-white (c ∷ w) h = rw (trim_end_by-white w (ground arith)) (ground arith)

trim_end_by-append_white :
    (s w : Str)
    → all is_whitespace w ≡ true
    → trim_end_by is_whitespace (s ++ w) ≡ trim_end_by is_whitespace s
unfolding trim_end_by
trim_end_by-append_white [] w h = trim_end_by-white w h
trim_end_by-append_white (c ∷ s) w h = rw (trim_end_by-append_white s w h) refl

trim_start-white : (w s : Str) → all is_whitespace w ≡ true → trim_start (w ++ s) ≡ trim_start s
unfolding trim_start trim_start_by
trim_start-white [] s h = refl
trim_start-white (c ∷ w) s h =
    let here : is_whitespace c ≡ true = ground arith in
    rw here (trim_start-white w s (ground arith))

-- White space around a text is trimmed off.
pub trim_around :
    (v s w : Str)
    → all is_whitespace v ≡ true
    → all is_whitespace w ≡ true
    → (begins_dark s ≡ true) × (is_empty s ≡ false) × (ends_dark s ≡ true)
    → trim ((v ++ s) ++ w) ≡ s
unfolding trim trim_end
trim_around v s w hv hw (begins, full, ends) =
    rw
      (
        trim_end_by-append_white (v ++ s) w hw,
        trim_end_by-dark (v ++ s) (ends_behind v s full ends),
        trim_start-white v s hv,
      )
      (trim_start-dark s begins)

objects-dark :
    (r : Str) (rs : List Str)
    → is_plain_id r ≡ true
    → all is_plain_id rs ≡ true
    → (begins_dark (objects_text (r ∷ rs)) ≡ true)
      × (is_empty (objects_text (r ∷ rs)) ≡ false)
      × (ends_dark (objects_text (r ∷ rs)) ≡ true)
objects-dark r rs h hs =
    let (begins, full) = rendered-dark r (tail rs) h in
    rw (join-tail r rs) (begins, full, tail-ends r rs h hs)

plain-full : (r s : Str) → is_plain_id r ≡ true → is_empty (r ++ s) ≡ false
plain-full [] s h = cc
plain-full (c ∷ r) s h = refl

plain-dark : (r s : Str) → is_plain_id r ≡ true → begins_dark (r ++ s) ≡ true
plain-dark [] s h = cc
plain-dark (c ∷ r) s h = ground arith

-- The text behind the type of a rule, a predicate with no objects left out.
unfoldable pub fields_text : List (Str × List Str) → Str
fields_text [] = []
fields_text ((pred, []) ∷ fs) = fields_text fs
fields_text ((pred, r ∷ rs) ∷ fs) = b' ' ∷ b';' ∷ (chunk pred (r ∷ rs) ++ fields_text fs)

-- A predicate whose text the splitter leaves whole.
pub record IsWhole (pred : Str) (ids : List Str) : Type 0 where
  pub plain_pred : is_plain_id pred ≡ true
  pub plain_ids : all is_plain_id ids ≡ true
  pub quiet : all is_quiet (chunk pred ids) ≡ true

abbrev pub AreWhole : List (Str × List Str) → Type 0
AreWhole [] = Unit
AreWhole ((pred, ids) ∷ fs) = IsWhole pred ids × AreWhole fs

pub body-dark :
    (pred : Str) (r : Str) (rs : List Str)
    → is_plain_id pred ≡ true
    → is_plain_id r ≡ true
    → all is_plain_id rs ≡ true
    → (begins_dark (pred ++ b' ' ∷ objects_text (r ∷ rs)) ≡ true)
      × (is_empty (pred ++ b' ' ∷ objects_text (r ∷ rs)) ≡ false)
      × (ends_dark (pred ++ b' ' ∷ objects_text (r ∷ rs)) ≡ true)
body-dark pred r rs hp h hs =
    let (begins, full, ends) = objects-dark r rs h hs in
    (
      plain-dark pred (b' ' ∷ objects_text (r ∷ rs)) hp,
      plain-full pred (b' ' ∷ objects_text (r ∷ rs)) hp,
      ends_dark-append pred b' ' (objects_text (r ∷ rs))
          (ends_behind (b' ' ∷ []) (objects_text (r ∷ rs)) full ends),
    )

trim-chunk :
    (w pred : Str) (r : Str) (rs : List Str)
    → all is_whitespace w ≡ true
    → is_plain_id pred ≡ true
    → is_plain_id r ≡ true
    → all is_plain_id rs ≡ true
    → trim (chunk pred (r ∷ rs) ++ w) ≡ pred ++ b' ' ∷ objects_text (r ∷ rs)
trim-chunk w pred r rs hw hp h hs =
    trim_around (10 ∷ b' ' ∷ b' ' ∷ b' ' ∷ b' ' ∷ []) (pred ++ b' ' ∷ objects_text (r ∷ rs)) w
      (unfold is_whitespace in refl) hw (body-dark pred r rs hp h hs)

module _ (prefixes : Map Str) where
  -- The draft behind a predicate with its objects.
  unfoldable pub with_pair : Draft → Str → List Str → Draft
  unfolding set_field
  with_pair d pred ids =
      set_field prefixes d (expand_curie_or_iri prefixes pred) (b' ' ∷ objects_text ids)
        (map (expand_curie_or_iri prefixes) ids)

  -- What the text of a predicate does to a draft, at the end of the rule and before a semicolon.
  pub record Reads (cur : Str) (d e : Draft) : Type 0 where
    pub last : draft_pairs prefixes (cur ∷ []) (some d) ≡ some e
    pub inner :
        (pairs : List Str)
        → draft_pairs prefixes ((cur ++ b' ' ∷ []) ∷ pairs) (some d)
          ≡ draft_pairs prefixes pairs (some e)
    pub dark : is_empty (trim cur) ≡ false

  pub pair-read :
      (d : Draft) (pred : Str) (r : Str) (rs : List Str)
      → is_plain_id pred ≡ true
      → is_plain_id r ≡ true
      → all is_plain_id rs ≡ true
      → draft_pair prefixes d (pred ++ b' ' ∷ objects_text (r ∷ rs))
        ≡ some (with_pair d pred (r ∷ rs))
  unfolding set_pair with_pair
  pair-read d pred r rs hp h hs =
      let stop : ends_token b' ' ≡ true = unfold is_whitespace in refl in
      let popped = pop-bare pred (b' ' ∷ objects_text (r ∷ rs)) hp stop in
      let white : is_whitespace b' ' ≡ true = unfold is_whitespace in refl in
      let trimmed : trim (b' ' ∷ objects_text (r ∷ rs)) ≡ objects_text (r ∷ rs) =
        ap trim (sym (append_nil (b' ' ∷ objects_text (r ∷ rs))))
        ∙ trim_around (b' ' ∷ []) (objects_text (r ∷ rs)) [] (rw white refl) refl
            (objects-dark r rs h hs) in
      rw
        (
          plain-full pred (b' ' ∷ objects_text (r ∷ rs)) hp,
          popped,
          trimmed,
          parse_object_list-rendered prefixes r rs h hs,
        )
        refl

  chunk-Reads :
      (d : Draft) (pred : Str) (r : Str) (rs : List Str)
      → is_plain_id pred ≡ true
      → is_plain_id r ≡ true
      → all is_plain_id rs ≡ true
      → Reads (chunk pred (r ∷ rs)) d (with_pair d pred (r ∷ rs))
  unfolding draft_pairs
  chunk-Reads d pred r rs hp h hs =
      let bare : trim (chunk pred (r ∷ rs)) ≡ pred ++ b' ' ∷ objects_text (r ∷ rs) =
        ap trim (sym (append_nil (chunk pred (r ∷ rs)))) ∙ trim-chunk [] pred r rs refl hp h hs in
      let spaced = trim-chunk (b' ' ∷ []) pred r rs (unfold is_whitespace in refl) hp h hs in
      let read = pair-read d pred r rs hp h hs in
      record {
        last =
            ap (λ t. draft_pairs prefixes [] (draft_pair prefixes d t)) bare
            ∙ ap (draft_pairs prefixes []) read;
        inner = λ pairs.
            ap (λ t. draft_pairs prefixes pairs (draft_pair prefixes d t)) spaced
            ∙ ap (draft_pairs prefixes pairs) read;
        dark = ap is_empty bare ∙ (body-dark pred r rs hp h hs).1;
      }

  unfoldable pub with_pairs : Draft → List (Str × List Str) → Draft
  with_pairs d [] = d
  with_pairs d ((pred, []) ∷ fs) = with_pairs d fs
  with_pairs d ((pred, r ∷ rs) ∷ fs) = with_pairs (with_pair d pred (r ∷ rs)) fs

  pub draft_pairs-fields :
      (fs : List (Str × List Str)) (cur : Str) (d e : Draft)
      → AreWhole fs
      → Reads cur d e
      → draft_pairs prefixes (split_scan predicate_signs (fields_text fs) scan_start cur) (some d)
        ≡ some (with_pairs e fs)
  unfolding fields_text with_pairs
  draft_pairs-fields [] cur d e w t = unfold split_scan in rw t.dark t.last
  draft_pairs-fields ((pred, []) ∷ fs) cur d e (a, w) t = draft_pairs-fields fs cur d e w t
  draft_pairs-fields ((pred, r ∷ rs) ∷ fs) cur d e (a, w) t =
      let cut : split_scan predicate_signs (b' ' ∷ b';' ∷ (chunk pred (r ∷ rs) ++ fields_text fs))
            scan_start cur
          ≡ (cur ++ b' ' ∷ [])
            ∷ split_scan predicate_signs (fields_text fs) scan_start (chunk pred (r ∷ rs)) =
        unfold split_scan in
        ap (λ ps. (cur ++ b' ' ∷ []) ∷ ps)
          (split-quiet (chunk pred (r ∷ rs)) (fields_text fs) [] a.quiet) in
      let next = draft_pairs-fields fs (chunk pred (r ∷ rs)) e (with_pair e pred (r ∷ rs)) w (
        chunk-Reads e pred r rs a.plain_pred (ground (arith, a.plain_ids))
          (ground (arith, a.plain_ids))) in
      rw cut (
        t.inner (split_scan predicate_signs (fields_text fs) scan_start (chunk pred (r ∷ rs)))
        ∙ next)
