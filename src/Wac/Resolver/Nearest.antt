-- ===== src/Wac/Resolver/Nearest.antt =====
-- The walk against a description of what the ACLs on the way to the root say.
use solid_pod_rs.Prelude.{
  ℕ, zero, suc, ◌+◌, ◌<◌, ◌≡◌, ◌≢◌, refl, ap, sym, ◌∙◌, subst, true, ◌||◌, Option, none, some, [],
  ◌∷◌, length, arith, Bool-cases, Option-cases, inl, inr, ◌⊎◌, ◌↔◌,
}
use solid_pod_rs.Error.{PodError, bad_request, payload_too_large, Result, ok, err}
use solid_pod_rs.Text.{Str, text, str_eq, starts_with, contains, to_ascii_lowercase}
use solid_pod_rs.Text.Laws.{str_eq_iff}
use solid_pod_rs.Wac.Document.{AclDocument}
use solid_pod_rs.Wac.Target.{slash}
use solid_pod_rs.Wac.Bounds.{parse_jsonld_acl}
use solid_pod_rs.Wac.Resolver.{
  Parsers, Body, Visit, answer, fail, go_on, text_or_empty, visit_turtle, looks_turtle,
  after_jsonld, visit_jsonld, visit_body, visit, acl_key, parent, is_top, walk, find_effective_acl,
}
use solid_pod_rs.Wac.Resolver.Walk.{
  weight, weight-parent, Visit-cases, walk-answer, walk-fail, walk-top, walk-up,
}
use solid_pod_rs.Wac.Resolver.Paths.{IsAclKey, IsAbove, acl_key-IsAclKey, parent-IsAbove}

-- The content type, in lower case, or the text suggests Turtle.
abbrev pub LooksTurtle : (content_type t : Str) → Type 0
LooksTurtle content_type t =
    (starts_with (text "text/turtle") (to_ascii_lowercase content_type) ≡ true)
    ⊎ (starts_with (text "application/turtle") (to_ascii_lowercase content_type) ≡ true)
    ⊎ (starts_with (text "application/x-turtle") (to_ascii_lowercase content_type) ≡ true)
    ⊎ (contains (text "@prefix") t ≡ true)
    ⊎ (contains (text "acl:Authorization") t ≡ true)

abbrev pub IsRoot : Str → Type 0
IsRoot path = (path ≡ b'/' ∷ []) ⊎ (path ≡ [])

error_cases :
    (e : PodError)
    → (e ≡ bad_request) ⊎ (e ≡ payload_too_large) ⊎ ((e ≢ bad_request) × (e ≢ payload_too_large))
error_cases e = ground arith

pub is_top_iff : (path : Str) → (is_top path ≡ true) ↔ IsRoot path
is_top_iff [] = (λ h. inr refl, λ h. unfold str_eq in refl)
is_top_iff (c ∷ path) = ground (arith, str_eq_iff (c ∷ path) slash)

module _ (ps : Parsers) where
  -- The text of a body: empty if the bytes are no UTF-8.
  abbrev pub IsText : Body → Str → Type 0
  IsText b t = (ps.from_utf8 b.bytes ≡ some t) ⊎ ((ps.from_utf8 b.bytes ≡ none) × (t ≡ []))

  -- The body looks like Turtle, and the Turtle parser reads the document from it.
  abbrev pub ReadsTurtle : Body → AclDocument → Type 0
  ReadsTurtle b acl =
      (t : Str) × IsText b t × LooksTurtle b.content_type t × (ps.turtle t ≡ some acl)

  abbrev pub parsed_json : Body → Result AclDocument
  parsed_json b = parse_jsonld_acl ps.from_slice ps.env_bytes ps.env_depth b.bytes

  -- The body keeps the bounds and is no JSON-LD document.
  abbrev pub IsOther : Body → Type 0
  IsOther b = (e : PodError) × (parsed_json b ≡ err e) × (e ≢ bad_request) × (e ≢ payload_too_large)

  text_or_empty-IsText : (b : Body) → IsText b (text_or_empty ps (ps.from_utf8 b.bytes))
  unfolding text_or_empty
  text_or_empty-IsText b = elim (Option-cases (ps.from_utf8 b.bytes)) [
    | inl e ↦ inr (e, rw e refl)
    | inr (t, e) ↦ inl (rw e refl)
  ]

  IsText-unique : (b : Body) (t u : Str) → IsText b t → IsText b u → t ≡ u
  IsText-unique b t u (inl e) (inl f) = cc
  IsText-unique b t u (inl e) (inr (f, g)) = cc
  IsText-unique b t u (inr (e, k)) (inl f) = cc
  IsText-unique b t u (inr (e, k)) (inr (f, g)) = cc

  looks_iff :
      (ct t : Str)
      → ((looks_turtle ps (to_ascii_lowercase ct)
            || contains (text "@prefix") t
            || contains (text "acl:Authorization") t)
          ≡ true)
        ↔ LooksTurtle ct t
  unfolding looks_turtle
  looks_iff ct t = ground arith

  -- What the Turtle reading of a body says.
  pub after_jsonld-cases :
      (b : Body)
      → ((acl : AclDocument) × (after_jsonld ps b ≡ answer acl) × ReadsTurtle b acl)
        ⊎ ((after_jsonld ps b ≡ go_on) × ((acl : AclDocument) → ¬ ReadsTurtle b acl))
  unfolding after_jsonld visit_turtle
  after_jsonld-cases b =
      let t = text_or_empty ps (ps.from_utf8 b.bytes) in
      let is_text = text_or_empty-IsText b in
      let (fwd, bwd) = looks_iff b.content_type t in
      elim (Bool-cases (
        looks_turtle ps (to_ascii_lowercase b.content_type)
        || contains (text "@prefix") t
        || contains (text "acl:Authorization") t)) [
          | inl looks ↦ elim (Option-cases (ps.turtle t)) [
            | inl unread ↦ inr (
              rw (looks, unread) refl,
              λ acl (u, is_u, like, read).
                  let same = IsText-unique b u t is_u is_text in cc (read, unread, same),
            )
            | inr (acl, read) ↦ inl (acl, rw (looks, read) refl, (t, is_text, fwd looks, read))
          ]
          | inr plain ↦ inr (
            rw plain refl,
            λ acl (u, is_u, like, read).
                let same = IsText-unique b u t is_u is_text in
                let looks = bwd (subst (LooksTurtle b.content_type) same like) in cc (looks, plain),
          )
        ]

  -- A body is read as one document at most.
  pub after_jsonld_unique :
      (b : Body) (acl : AclDocument) → ReadsTurtle b acl → after_jsonld ps b ≡ answer acl
  after_jsonld_unique b acl (t, is_text, like, read) = elim (after_jsonld-cases b) [
    | inl (other, e, (u, is_u, like_u, read_u)) ↦
        let same = IsText-unique b t u is_text is_u in
        e ∙ ap answer (unsome (sym read_u ∙ ap ps.turtle (sym same) ∙ read))
    | inr (e, unread) ↦ absurd (unread acl (t, is_text, like, read))
  ]
    where
      unsome : {x y : AclDocument} → some x ≡ some y → x ≡ y
      unsome h = cc

  pub after_jsonld_unread :
      (b : Body) → ((acl : AclDocument) → ¬ ReadsTurtle b acl) → after_jsonld ps b ≡ go_on
  after_jsonld_unread b unread = elim (after_jsonld-cases b) [
    | inl (acl, e, reads) ↦ absurd (unread acl reads)
    | inr (e, n) ↦ e
  ]

  module _ (get : Str → Option Body) where
    abbrev pub IsAclAt : Str → Body → Type 0
    IsAclAt path b = (key : Str) × IsAclKey path key × (get key ≡ some b)

    -- The ACL of the path is a JSON-LD document, or else keeps the bounds and is read as Turtle.
    abbrev pub Answers : Str → AclDocument → Type 0
    Answers path acl =
        (b : Body) × IsAclAt path b × ((parsed_json b ≡ ok acl) ⊎ (IsOther b × ReadsTurtle b acl))

    -- The ACL of the path breaks a bound of the parser.
    abbrev pub Fails : Str → PodError → Type 0
    Fails path e =
        (b : Body) × IsAclAt path b
        × (parsed_json b ≡ err e)
        × ((e ≡ bad_request) ⊎ (e ≡ payload_too_large))

    -- The path has no ACL, or one that keeps the bounds and that nothing reads.
    abbrev pub IsSilent : Str → Type 0
    IsSilent path =
        ((key : Str) × IsAclKey path key × (get key ≡ none))
        ⊎ ((b : Body) × IsAclAt path b × IsOther b × ((acl : AclDocument) → ¬ ReadsTurtle b acl))

    -- The answer of the nearest path that is not silent.
    pub data Nearest : Str → Result (Option AclDocument) → Type 0 where
      here : {path : Str} {acl : AclDocument} → Answers path acl → Nearest path (ok (some acl))
      refused : {path : Str} {e : PodError} → Fails path e → Nearest path (err e)
      above :
          {path up : Str} {r : Result (Option AclDocument)}
          → IsSilent path
          → (¬ IsRoot path)
          → IsAbove path up
          → Nearest up r
          → Nearest path r
      nowhere : {path : Str} → IsSilent path → IsRoot path → Nearest path (ok none)

    abbrev Says : Str → Visit → Type 0
    Says path (answer acl) = Answers path acl
    Says path (fail e) = Fails path e
    Says path go_on = IsSilent path

    other-Says :
        (path : Str) (b : Body) → IsAclAt path b → IsOther b → Says path (after_jsonld ps b)
    other-Says path b at other = elim (after_jsonld-cases b) [
      | inl (acl, e, reads) ↦ subst (Says path) (sym e) (b, at, inr (other, reads))
      | inr (e, unread) ↦ subst (Says path) (sym e) (inr (b, at, other, unread))
    ]

    visit_jsonld-other :
        (b : Body) (e : PodError)
        → e ≢ bad_request
        → e ≢ payload_too_large
        → visit_jsonld ps b (err e) ≡ after_jsonld ps b
    unfolding visit_jsonld
    visit_jsonld-other b e h k = ground arith

    json-Says :
        (path : Str) (b : Body) (r : Result AclDocument)
        → IsAclAt path b
        → parsed_json b ≡ r
        → Says path (visit_jsonld ps b r)
    unfolding visit_jsonld
    json-Says path b (ok acl) at e = (b, at, inl e)
    json-Says path b (err x) at e = elim (error_cases x) [
      | inl bad ↦
          subst (λ y. Says path (visit_jsonld ps b (err y))) (sym bad)
            (b, at, e ∙ ap err bad, inl refl)
      | inr (inl large) ↦
          subst (λ y. Says path (visit_jsonld ps b (err y))) (sym large)
            (b, at, e ∙ ap err large, inr refl)
      | inr (inr (n, m)) ↦
          subst (Says path) (sym (visit_jsonld-other b x n m)) (other-Says path b at (x, e, n, m))
    ]

    body-Says :
        (path key : Str) (o : Option Body)
        → IsAclKey path key
        → get key ≡ o
        → Says path (visit_body ps o)
    unfolding visit_body
    body-Says path key none k e = inl (key, k, e)
    body-Says path key (some b) k e = json-Says path b (parsed_json b) (key, k, e) refl

    visit-Says : (path : Str) → Says path (visit ps get path)
    unfolding visit
    visit-Says path =
        body-Says path (acl_key path) (get (acl_key path)) (acl_key-IsAclKey path) refl

    walk-Nearest :
        (at : Str → Visit)
        → ((path : Str) → Says path (at path))
        → (fuel : ℕ) (path : Str) → weight path < fuel
        → (r : Result (Option AclDocument)) × (walk at fuel path ≡ some r) × Nearest path r
    walk-Nearest at says zero path h = absurd (omega arith)
    walk-Nearest at says (suc fuel) path h = elim (Visit-cases (at path)) [
      | inl (acl, e) ↦
          (ok (some acl), walk-answer at fuel path acl e, here (subst (Says path) e (says path)))
      | inr (inl (x, e)) ↦
          (err x, walk-fail at fuel path x e, refused (subst (Says path) e (says path)))
      | inr (inr e) ↦
          let silent = subst (Says path) e (says path) in
          elim (Bool-cases (is_top path)) [
            | inl top ↦
                (ok none, walk-top at fuel path e top, nowhere silent ((is_top_iff path).0 top))
            | inr low ↦
                let (r, ends, nearest) =
                  walk-Nearest at says fuel (parent path)
                    (let lower = weight-parent path low in omega (arith, lower)) in
                (
                  r,
                  walk-up at fuel path e low ∙ ends,
                  above silent (λ top. let yes = (is_top_iff path).1 top in cc (yes, low))
                      (parent-IsAbove path) nearest,
                )
          ]
    ]

  -- The walk always ends within its fuel, and with the answer of the nearest of the resource and
  -- the paths above it whose ACL says something. The ACL of a path is stored under the path without
  -- the slashes at its end and with `.acl` behind it, or `/.acl` for the root; the path above is
  -- that without the last segment, or the root. An ACL that the JSON-LD parser reads answers with
  -- that document; one that breaks a bound of that parser ends the walk with `bad_request` or
  -- `payload_too_large`; any other answers with the document that the Turtle parser reads, if its
  -- type or its text suggests Turtle and there is one, and else says nothing, as a missing ACL
  -- does. If nothing up to the root says anything, the answer is that there is no ACL.
  pub find_effective_acl-Nearest :
      (get : Str → Option Body) (path : Str)
      → (r : Result (Option AclDocument)) × (find_effective_acl ps get path ≡ some r)
        × Nearest get path r
  unfolding find_effective_acl weight
  find_effective_acl-Nearest get path =
      walk-Nearest get (visit ps get) (visit-Says get) (length path + 2) path (ground arith)
