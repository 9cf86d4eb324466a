-- ===== src/Wac/Turtle/Rules/RoundTrip.antt =====
-- A rule without conditions, written and read back.
use solid_pod_rs.Prelude.{
  ℕ, ◌≡◌, refl, sym, ap, ◌∙◌, Bool, true, false, not, ◌&&◌, Option, none, some, List, [], ◌∷◌, ◌++◌,
  any, all, map, arith, Bool-cases, inl, inr,
}
use solid_pod_rs.Text.{
  Str, text, str_eq, is_empty, is_whitespace, is_ascii_digit, trim, trim_end, has, starts_with,
  split_once, join,
}
use solid_pod_rs.Text.Laws.{trim-none, split_once-append}
use solid_pod_rs.Text.Decimal.{decimal, decimal-digits}
use solid_pod_rs.Text.Map.{Map, lookup}
use solid_pod_rs.Wac.Document.{IdOrIds, get_ids, ids_of, AclAuthorization}
use solid_pod_rs.Wac.Turtle.{split_predicate_list, expand_curie_or_iri, expand_parts, expanded}
use solid_pod_rs.Wac.Turtle.Write.{
  rendered_id, rendered_ids, emitted, emit_pairs, emit_conditions, write_rule,
}
use solid_pod_rs.Wac.Turtle.Objects.{
  is_plain, is_plain_id, pop-iri, ends_dark, ends_dark-append, ends_behind, trim_start-dark,
  trim_end_by-dark, append_nil, append-snoc,
}
use solid_pod_rs.Wac.Turtle.Rules.{
  draft_pair, draft_pairs, set_field, no_fields, finished, rule_behind, parse_turtle_authorization,
}
use solid_pod_rs.Wac.Turtle.Rules.Pairs.{
  is_quiet, objects_text, chunk, with_pair, with_pairs, Reads, IsWhole, AreWhole, fields_text,
  draft_pairs-fields, split-quiet, pair-read, body-dark,
}

abbrev pub acl_namespace : Str
acl_namespace = text "http://www.w3.org/ns/auth/acl#"

-- The predicates of a rule and their identifiers, in the order of the writer.
abbrev pub fields : AclAuthorization → List (Str × List Str)
fields auth =
    (text "acl:agent", get_ids auth.agent)
    ∷ (text "acl:agentClass", get_ids auth.agent_class)
    ∷ (text "acl:agentGroup", get_ids auth.agent_group)
    ∷ (text "acl:origin", get_ids auth.origin)
    ∷ (text "acl:accessTo", get_ids auth.access_to)
    ∷ (text "acl:default", get_ids auth.default)
    ∷ (text "acl:mode", get_ids auth.mode)
    ∷ []

abbrev auth_of : (a c g o t d m : Option IdOrIds) → AclAuthorization
auth_of a c g o t d m = record {
  id = none;
  type = none;
  agent = a;
  agent_class = c;
  agent_group = g;
  origin = o;
  access_to = t;
  default = d;
  mode = m;
  condition = none;
}

-- The writer's text of the fields.
emitted-cons :
    (pred : Str) (ids : List Str) (fs : List (Str × List Str))
    → emitted (text " ;\n    ") pred ids ++ fields_text fs ≡ fields_text ((pred, ids) ∷ fs)
unfolding emitted fields_text text
emitted-cons pred [] fs = refl
emitted-cons pred (r ∷ rs) fs = refl

emit_fields : List (Str × List Str) → Str
emit_fields [] = []
emit_fields ((pred, ids) ∷ fs) = emitted (text " ;\n    ") pred ids ++ emit_fields fs

emit_fields-text : (fs : List (Str × List Str)) → emit_fields fs ≡ fields_text fs
unfolding emit_fields
emit_fields-text [] = unfold fields_text in refl
emit_fields-text ((pred, ids) ∷ fs) =
    ap (λ t. emitted (text " ;\n    ") pred ids ++ t) (emit_fields-text fs)
    ∙ emitted-cons pred ids fs

-- What follows the subject in the text of a rule.
unfoldable pub rest_text : AclAuthorization → Str
rest_text auth = text " a acl:Authorization" ++ fields_text (fields auth)

chunk-ends :
    (cur pred : Str) (r : Str) (rs : List Str)
    → IsWhole pred (r ∷ rs)
    → (is_empty (chunk pred (r ∷ rs)) ≡ false) × (ends_dark (chunk pred (r ∷ rs)) ≡ true)
chunk-ends cur pred r rs w =
    let (begins, full, ends) =
      body-dark pred r rs w.plain_pred (ground (arith, w.plain_ids))
        (ground (arith, w.plain_ids)) in
    (
      refl,
      ends_behind (10 ∷ b' ' ∷ b' ' ∷ b' ' ∷ b' ' ∷ []) (pred ++ b' ' ∷ objects_text (r ∷ rs)) full
          ends,
    )

nonempty_append : (s t : Str) → is_empty s ≡ false → is_empty (s ++ t) ≡ false
nonempty_append [] t h = cc
nonempty_append (c ∷ s) t h = refl

fields_text-ends :
    (cur : Str) (fs : List (Str × List Str))
    → ends_dark cur ≡ true
    → AreWhole fs
    → ends_dark (cur ++ fields_text fs) ≡ true
unfolding fields_text
fields_text-ends cur [] h w = ap ends_dark (append_nil cur) ∙ h
fields_text-ends cur ((pred, []) ∷ fs) h (a, w) = fields_text-ends cur fs h w
fields_text-ends cur ((pred, r ∷ rs) ∷ fs) h (a, w) =
    let (full, ends) = chunk-ends cur pred r rs a in
    ends_dark-append cur b' ' (b';' ∷ (chunk pred (r ∷ rs) ++ fields_text fs)) (
      ends_behind (b' ' ∷ b';' ∷ []) (chunk pred (r ∷ rs) ++ fields_text fs)
        (nonempty_append (chunk pred (r ∷ rs)) (fields_text fs) full)
        (fields_text-ends (chunk pred (r ∷ rs)) fs ends w))

pub rest_text-dark :
    (auth : AclAuthorization)
    → AreWhole (fields auth)
    → (is_empty (rest_text auth) ≡ false) × (ends_dark (rest_text auth) ≡ true)
unfolding rest_text
rest_text-dark auth w = (
  nonempty_append (text " a acl:Authorization") (fields_text (fields auth)) (unfold text in refl),
  fields_text-ends (text " a acl:Authorization") (fields auth) (unfold text is_whitespace in refl)
      w,
)

-- An identifier that the writer carries over: it has no opening bracket either.
abbrev pub is_carried : Str → Bool
is_carried r = is_plain_id r && not (has b'[' r)

abbrev pub all_carried : List (Str × List Str) → Bool
all_carried [] = true
all_carried ((pred, ids) ∷ fs) = all is_carried ids && all_carried fs

all-append : (p : ℕ → Bool) (s t : Str) → all p s ≡ true → all p t ≡ true → all p (s ++ t) ≡ true
all-append p [] t h k = k
all-append p (c ∷ s) t h k = rw (all-append p s t (ground arith) k) (ground arith)

quiet_chars : (r : Str) → all is_plain r ≡ true → has b'[' r ≡ false → all is_quiet r ≡ true
quiet_chars [] h k = refl
quiet_chars (c ∷ r) h k = ground (arith, quiet_chars r)

rendered-quiet : (r : Str) → is_carried r ≡ true → all is_quiet (rendered_id r) ≡ true
rendered-quiet r h =
    let here = quiet_chars r (ground arith) (ground arith) in
    elim (Bool-cases (starts_with (text "http") r)) [
      | inl e ↦ rw e (all-append is_quiet (b'<' ∷ r) (b'>' ∷ []) here refl)
      | inr e ↦ rw e here
    ]

objects-quiet :
    (ids : List Str) → all is_carried ids ≡ true → all is_quiet (objects_text ids) ≡ true
unfolding join rendered_ids
objects-quiet [] h = refl
objects-quiet (r ∷ []) h = rendered-quiet r (ground arith)
objects-quiet (r ∷ q ∷ ids) h =
    all-append is_quiet (rendered_id r) (b',' ∷ b' ' ∷ objects_text (q ∷ ids))
      (rendered-quiet r (ground arith)) (objects-quiet (q ∷ ids) (ground arith))

carried_plain : (ids : List Str) → all is_carried ids ≡ true → all is_plain_id ids ≡ true
carried_plain [] h = refl
carried_plain (r ∷ ids) h = ground (arith, carried_plain ids)

field-IsWhole :
    (pred : Str) (ids : List Str)
    → is_carried pred ≡ true
    → all is_carried ids ≡ true
    → IsWhole pred ids
field-IsWhole pred ids hp h = record {
  plain_pred = ground arith;
  plain_ids = carried_plain ids h;
  quiet =
      all-append is_quiet (10 ∷ b' ' ∷ b' ' ∷ b' ' ∷ b' ' ∷ pred) (b' ' ∷ objects_text ids)
        (quiet_chars pred (ground arith) (ground arith)) (objects-quiet ids h);
}

pub fields-AreWhole :
    (fs : List (Str × List Str))
    → all is_carried (map (λ f. f.0) fs) ≡ true
    → all_carried fs ≡ true
    → AreWhole fs
fields-AreWhole [] hp h = tt
fields-AreWhole ((pred, ids) ∷ fs) hp h = (
  field-IsWhole pred ids (ground arith) (ground arith),
  fields-AreWhole fs (ground arith) (ground arith),
)

-- The subject of the rule with the number `i`.
unfoldable pub subject : ℕ → Str
subject i = text "#rule-" ++ decimal i

digit_plain : (c : ℕ) → is_ascii_digit c ≡ true → is_plain c ≡ true
unfolding is_whitespace
digit_plain c h = ground arith

digits_plain : (s : Str) → all is_ascii_digit s ≡ true → all is_plain s ≡ true
digits_plain [] h = refl
digits_plain (c ∷ s) h =
    let here = digit_plain c (ground arith) in rw (here, digits_plain s (ground arith)) refl

pub subject_plain : (i : ℕ) → is_plain_id (subject i) ≡ true
unfolding subject text
subject_plain i = unfold is_whitespace in digits_plain (decimal i) (decimal-digits i)

-- The text of a rule, taken apart.
pub write_rule-parts :
    (i : ℕ) (auth : AclAuthorization)
    → auth.condition ≡ none
    → write_rule i auth ≡ b'<' ∷ ((subject i ++ b'>' ∷ []) ++ rest_text auth)
unfolding write_rule emit_pairs emit_conditions rest_text subject
write_rule-parts i auth h =
    rw (h, sym (emit_fields-text (fields auth)))
      (unfold emit_fields text in
        sym (
          append-snoc (text "<#rule-" ++ decimal i) b'>'
            (text " a acl:Authorization" ++ emit_fields (fields auth))))

expand_a : (prefixes : Map Str) → expand_curie_or_iri prefixes (text "a") ≡ text "a"
unfolding expand_curie_or_iri trim text str_eq is_whitespace
expand_a prefixes = refl

module _ (prefixes : Map Str) (acl : lookup (text "acl") prefixes ≡ some acl_namespace) where
  -- The identifiers of a field as they are read, expanded.
  unfoldable pub read_ids : List Str → Option IdOrIds
  read_ids [] = none
  read_ids (r ∷ rs) = some (ids_of (map (expand_curie_or_iri prefixes) (r ∷ rs)))

  abbrev pub read_back : AclAuthorization → AclAuthorization
  read_back auth =
      auth_of (read_ids (get_ids auth.agent)) (read_ids (get_ids auth.agent_class))
        (read_ids (get_ids auth.agent_group)) (read_ids (get_ids auth.origin))
        (read_ids (get_ids auth.access_to)) (read_ids (get_ids auth.default))
        (read_ids (get_ids auth.mode))

  expand-acl :
      (local : Str)
      → any is_whitespace local ≡ false
      → expand_curie_or_iri prefixes (text "acl:" ++ local) ≡ acl_namespace ++ local
  unfolding expand_curie_or_iri expand_parts expanded text str_eq starts_with
  expand-acl local h =
      let plain : any is_whitespace (text "acl:" ++ local) ≡ false = unfold is_whitespace in h in
      let parts : split_once (b':' ∷ []) (text "acl:" ++ local) ≡ some (text "acl", local) =
        split_once-append b':' (text "acl") local refl in
      rw (trim-none (text "acl:" ++ local) plain, parts, acl) refl

  agent_step :
      (ids : List Str) (fs : List (Str × List Str))
      → with_pairs prefixes
          (auth_of none none none none none none none, true)
          ((text "acl:agent", ids) ∷ fs)
        ≡ with_pairs prefixes (auth_of (read_ids ids) none none none none none none, true) fs
  unfolding with_pairs with_pair set_field text str_eq read_ids
  agent_step [] fs = refl
  agent_step (r ∷ rs) fs = rw (expand-acl (text "agent") (unfold is_whitespace in refl)) refl

  agent_class_step :
      (a : Option IdOrIds) (ids : List Str) (fs : List (Str × List Str))
      → with_pairs prefixes
          (auth_of a none none none none none none, true)
          ((text "acl:agentClass", ids) ∷ fs)
        ≡ with_pairs prefixes (auth_of a (read_ids ids) none none none none none, true) fs
  unfolding with_pairs with_pair set_field text str_eq read_ids
  agent_class_step a [] fs = refl
  agent_class_step a (r ∷ rs) fs =
      rw (expand-acl (text "agentClass") (unfold is_whitespace in refl)) refl

  agent_group_step :
      (a c : Option IdOrIds) (ids : List Str) (fs : List (Str × List Str))
      → with_pairs prefixes
          (auth_of a c none none none none none, true)
          ((text "acl:agentGroup", ids) ∷ fs)
        ≡ with_pairs prefixes (auth_of a c (read_ids ids) none none none none, true) fs
  unfolding with_pairs with_pair set_field text str_eq read_ids
  agent_group_step a c [] fs = refl
  agent_group_step a c (r ∷ rs) fs =
      rw (expand-acl (text "agentGroup") (unfold is_whitespace in refl)) refl

  origin_step :
      (a c g : Option IdOrIds) (ids : List Str) (fs : List (Str × List Str))
      → with_pairs prefixes
          (auth_of a c g none none none none, true)
          ((text "acl:origin", ids) ∷ fs)
        ≡ with_pairs prefixes (auth_of a c g (read_ids ids) none none none, true) fs
  unfolding with_pairs with_pair set_field text str_eq read_ids
  origin_step a c g [] fs = refl
  origin_step a c g (r ∷ rs) fs =
      rw (expand-acl (text "origin") (unfold is_whitespace in refl)) refl

  access_to_step :
      (a c g o : Option IdOrIds) (ids : List Str) (fs : List (Str × List Str))
      → with_pairs prefixes (auth_of a c g o none none none, true) ((text "acl:accessTo", ids) ∷ fs)
        ≡ with_pairs prefixes (auth_of a c g o (read_ids ids) none none, true) fs
  unfolding with_pairs with_pair set_field text str_eq read_ids
  access_to_step a c g o [] fs = refl
  access_to_step a c g o (r ∷ rs) fs =
      rw (expand-acl (text "accessTo") (unfold is_whitespace in refl)) refl

  default_step :
      (a c g o t : Option IdOrIds) (ids : List Str) (fs : List (Str × List Str))
      → with_pairs prefixes (auth_of a c g o t none none, true) ((text "acl:default", ids) ∷ fs)
        ≡ with_pairs prefixes (auth_of a c g o t (read_ids ids) none, true) fs
  unfolding with_pairs with_pair set_field text str_eq read_ids
  default_step a c g o t [] fs = refl
  default_step a c g o t (r ∷ rs) fs =
      rw (expand-acl (text "default") (unfold is_whitespace in refl)) refl

  mode_step :
      (a c g o t d : Option IdOrIds) (ids : List Str) (fs : List (Str × List Str))
      → with_pairs prefixes (auth_of a c g o t d none, true) ((text "acl:mode", ids) ∷ fs)
        ≡ with_pairs prefixes (auth_of a c g o t d (read_ids ids), true) fs
  unfolding with_pairs with_pair set_field text str_eq read_ids
  mode_step a c g o t d [] fs = refl
  mode_step a c g o t d (r ∷ rs) fs =
      rw (expand-acl (text "mode") (unfold is_whitespace in refl)) refl

  fields_read :
      (auth : AclAuthorization)
      → with_pairs prefixes (no_fields, true) (fields auth) ≡ (read_back auth, true)
  fields_read auth =
      agent_step (get_ids auth.agent) _
      ∙ agent_class_step _ (get_ids auth.agent_class) _
      ∙ agent_group_step _ _ (get_ids auth.agent_group) _
      ∙ origin_step _ _ _ (get_ids auth.origin) _
      ∙ access_to_step _ _ _ _ (get_ids auth.access_to) _
      ∙ default_step _ _ _ _ _ (get_ids auth.default) _
      ∙ mode_step _ _ _ _ _ _ (get_ids auth.mode) []
      ∙ unfold with_pairs in refl

  type_text : Str
  type_text = text "a" ++ b' ' ∷ objects_text (text "acl:Authorization" ∷ [])

  first_Reads : Reads prefixes (text " a acl:Authorization") (no_fields, false) (no_fields, true)
  unfolding type_text
  first_Reads =
      let typed : with_pair prefixes (no_fields, false) (text "a") (text "acl:Authorization" ∷ [])
          ≡ (no_fields, true) =
        unfold with_pair set_field text str_eq in
        rw (expand_a prefixes, expand-acl (text "Authorization") (unfold is_whitespace in refl))
          refl in
      let read =
        pair-read prefixes (no_fields, false) (text "a") (text "acl:Authorization") []
          (unfold text is_whitespace in refl) (unfold text is_whitespace in refl) refl in
      let bare : trim (text " a acl:Authorization") ≡ type_text =
        unfold type_text text trim join is_whitespace rendered_ids starts_with in refl in
      let spaced : trim (text " a acl:Authorization" ++ b' ' ∷ []) ≡ type_text =
        unfold type_text text trim join is_whitespace rendered_ids starts_with in refl in
      record {
        last =
            unfold draft_pairs in
            ap (λ t. draft_pairs prefixes [] (draft_pair prefixes (no_fields, false) t)) bare
            ∙ ap (draft_pairs prefixes []) (read ∙ ap some typed);
        inner = λ pairs.
            unfold draft_pairs in
            ap (λ t. draft_pairs prefixes pairs (draft_pair prefixes (no_fields, false) t)) spaced
            ∙ ap (draft_pairs prefixes pairs) (read ∙ ap some typed);
        dark = ap is_empty bare ∙ (unfold type_text text in refl);
      }

  -- The pairs of a rule that was written, read.
  rest_text-read :
      (auth : AclAuthorization)
      → AreWhole (fields auth)
      → draft_pairs prefixes (split_predicate_list (rest_text auth)) (some (no_fields, false))
        ≡ some (read_back auth, true)
  unfolding split_predicate_list rest_text
  rest_text-read auth w =
      ap (λ ps. draft_pairs prefixes ps (some (no_fields, false)))
        (split-quiet (text " a acl:Authorization") (fields_text (fields auth)) []
          (unfold text in refl))
      ∙ draft_pairs-fields prefixes (fields auth) (text " a acl:Authorization") (no_fields, false)
          (no_fields, true) w first_Reads
      ∙ ap some (fields_read auth)

  whole_rule-write :
      (i : ℕ) (auth : AclAuthorization)
      → auth.condition ≡ none
      → AreWhole (fields auth)
      → parse_turtle_authorization prefixes (write_rule i auth) ≡ some (read_back auth)
  unfolding parse_turtle_authorization rule_behind finished
  whole_rule-write i auth c w =
      let whole : trim (b'<' ∷ ((subject i ++ b'>' ∷ []) ++ rest_text auth))
          ≡ b'<' ∷ ((subject i ++ b'>' ∷ []) ++ rest_text auth) =
        unfold trim trim_end in
        rw
          (trim_end_by-dark (b'<' ∷ ((subject i ++ b'>' ∷ []) ++ rest_text auth)) (
            ends_behind (b'<' ∷ (subject i ++ b'>' ∷ [])) (rest_text auth) (rest_text-dark auth w).0
              (rest_text-dark auth w).1))
          (trim_start-dark (b'<' ∷ ((subject i ++ b'>' ∷ []) ++ rest_text auth))
            (unfold is_whitespace in refl)) in
      rw
        (
          write_rule-parts i auth c,
          whole,
          pop-iri (subject i) (rest_text auth) (subject_plain i),
          rest_text-read auth w,
        )
        refl

  -- The text of one rule, read by itself as a statement.
  pub parse_turtle_authorization-write :
      (i : ℕ) (auth : AclAuthorization)
      → auth.condition ≡ none
      → all_carried (fields auth) ≡ true
      → parse_turtle_authorization prefixes (write_rule i auth) ≡ some (read_back auth)
  parse_turtle_authorization-write i auth c h =
      whole_rule-write i auth c
        (fields-AreWhole (fields auth) (unfold text is_whitespace in refl) h)
