-- ===== src/Wac/Origin/Dedup.antt =====
-- The scan of `check_origin`, which skips patterns whose key it has seen, against the plain reading
-- of the same document.
use mathlib.Core.List.{append_assoc, append-nil}
use solid_pod_rs.Prelude.{
  ◌≡◌, refl, sym, ◌∙◌, subst, inl, inr, true, not, Option, none, some, List, [], ◌∷◌, ◌++◌, arith,
  if◌then◌else◌, Bool-cases, any, Memᴰ, any-intro, Memᴰ-append_left, Memᴰ-append_right,
  Memᴰ-append_cases, any-append,
}
use solid_pod_rs.Text.{Str, elem, is_empty}
use solid_pod_rs.Text.Laws.{elem_iff}
use solid_pod_rs.Wac.Document.{AclAuthorization, AclDocument}
use solid_pod_rs.Wac.Origin.{
  UrlParser, Origin, OriginPattern, extract_origin_patterns, OriginDecision, no_policy_set,
  decide_origin, pattern_key, Scan, request_matches, scan_pattern, scan_patterns, scan_graph,
  scan_start, check_graph, check_origin,
}
use solid_pod_rs.Wac.Origin.Keys.{
  IsKnown, AllKnown, pattern_key-injective, extract_origin_patterns-Known,
}

-- Every pattern that a graph declares, in order and with repetitions.
unfoldable pub declared : UrlParser → List AclAuthorization → List OriginPattern
declared url_parse [] = []
declared url_parse (auth ∷ graph) =
    extract_origin_patterns url_parse auth ++ declared url_parse graph

-- The decision without a set of seen keys: are there patterns, and does one match?
unfoldable pub plain_decision : UrlParser → Option Origin → List AclAuthorization → OriginDecision
unfolding declared
plain_decision url_parse req graph =
    let ps = declared url_parse graph in
    decide_origin req (not (is_empty ps)) (any (request_matches req) ps)

module _ (req : Option Origin) where
  -- What the scan's variables are after the patterns `prev`.
  record Tracks (prev : List OriginPattern) (s : Scan) : Type 0 where
    any_patterns : s.any_patterns ≡ not (is_empty prev)
    matched : s.matched ≡ any (request_matches req) prev
    seen : (k : Str) → Memᴰ k s.seen → (q : OriginPattern) × Memᴰ q prev × (pattern_key q ≡ k)
    known : AllKnown prev

  nonempty_of_mem :
      (q : OriginPattern) (ps : List OriginPattern) → Memᴰ q ps → not (is_empty ps) ≡ true
  nonempty_of_mem q [] m = elim m [ ]
  nonempty_of_mem q (p ∷ ps) m = refl

  nonempty-append :
      (ps : List OriginPattern) (p : OriginPattern) → not (is_empty (ps ++ p ∷ [])) ≡ true
  nonempty-append [] p = refl
  nonempty-append (q ∷ ps) p = refl

  AllKnown-concat :
      (prev : List OriginPattern) (p : OriginPattern)
      → AllKnown prev
      → IsKnown p
      → AllKnown (prev ++ p ∷ [])
  AllKnown-concat prev p h k q m = elim (Memᴰ-append_cases prev m) [
    | inl a ↦ h q a
    | inr (Memᴰ.head e) ↦ rw e k
    | inr (Memᴰ.tail n) ↦ elim n [ ]
  ]

  -- A pattern whose key was seen is one of the earlier patterns.
  skip-Tracks :
      (prev : List OriginPattern) (p : OriginPattern) (s : Scan)
      → Tracks prev s
      → IsKnown p
      → Memᴰ (pattern_key p) s.seen
      → Tracks (prev ++ p ∷ []) s
  skip-Tracks prev p s t k m =
      let (q, at, key) = t.seen (pattern_key p) m in
      let same : q ≡ p = pattern_key-injective q p (t.known q at) k key in
      let at_p : Memᴰ p prev = rw same at at in
      record {
        any_patterns = t.any_patterns ∙ nonempty_of_mem p prev at_p ∙ sym (nonempty-append prev p);
        matched = ground (
          arith,
          t.matched,
          any-append (request_matches req) prev (p ∷ []),
          any-intro (request_matches req) at_p,
        );
        seen = λ x n. let (r, a, e) = t.seen x n in (r, Memᴰ-append_left (p ∷ []) a, e);
        known = AllKnown-concat prev p t.known k;
      }

  add-Tracks :
      (prev : List OriginPattern) (p : OriginPattern) (s : Scan)
      → Tracks prev s
      → IsKnown p
      → Tracks (prev ++ p ∷ []) (record {
        any_patterns = true;
        matched = if request_matches req p then true else s.matched;
        seen = pattern_key p ∷ s.seen;
      })
  add-Tracks prev p s t k = record {
    any_patterns = sym (nonempty-append prev p);
    matched = ground (arith, t.matched, any-append (request_matches req) prev (p ∷ []));
    seen = λ x n. elim n [
      | Memᴰ.head e ↦ (p, Memᴰ-append_right prev (Memᴰ.head refl), sym e)
      | Memᴰ.tail m ↦ let (r, a, e) = t.seen x m in (r, Memᴰ-append_left (p ∷ []) a, e)
    ];
    known = AllKnown-concat prev p t.known k;
  }

  scan_pattern-Tracks :
      (prev : List OriginPattern) (p : OriginPattern) (s : Scan)
      → Tracks prev s
      → IsKnown p
      → Tracks (prev ++ p ∷ []) (scan_pattern req p s)
  unfolding scan_pattern
  scan_pattern-Tracks prev p s t k = elim (Bool-cases (elem (pattern_key p) s.seen)) [
    | inl e ↦ rw e (skip-Tracks prev p s t k ((elem_iff _ _).0 e))
    | inr e ↦ rw e (add-Tracks prev p s t k)
  ]

  scan_patterns-Tracks :
      (prev ps : List OriginPattern) (s : Scan)
      → Tracks prev s
      → AllKnown ps
      → Tracks (prev ++ ps) (scan_patterns req ps s)
  unfolding scan_patterns
  scan_patterns-Tracks prev [] s t k = rw append-nil t
  scan_patterns-Tracks prev (p ∷ ps) s t k =
      subst (λ l. Tracks l (scan_patterns req ps (scan_pattern req p s)))
        (append_assoc prev (p ∷ []) ps)
        (scan_patterns-Tracks (prev ++ p ∷ []) ps (scan_pattern req p s)
          (scan_pattern-Tracks prev p s t (k p (Memᴰ.head refl))) (λ q m. k q (Memᴰ.tail m)))

  scan_graph-Tracks :
      (url_parse : UrlParser) (prev : List OriginPattern) (graph : List AclAuthorization) (s : Scan)
      → Tracks prev s
      → Tracks (prev ++ declared url_parse graph) (scan_graph url_parse req graph s)
  unfolding scan_graph declared
  scan_graph-Tracks url_parse prev [] s t = rw append-nil t
  scan_graph-Tracks url_parse prev (auth ∷ graph) s t =
      let ps = extract_origin_patterns url_parse auth in
      let s' = scan_patterns req ps s in
      subst (λ l. Tracks l (scan_graph url_parse req graph s'))
        (append_assoc prev ps (declared url_parse graph))
        (scan_graph-Tracks url_parse (prev ++ ps) graph s'
          (scan_patterns-Tracks prev ps s t (extract_origin_patterns-Known url_parse auth)))

-- Skipping the patterns whose key was seen never changes the decision: `check_origin` answers as
-- the plain reading of all declared patterns does, and `no_policy_set` for a document with no
-- graph.
pub check_origin-plain :
    (url_parse : UrlParser) (acl : AclDocument) (req : Option Origin)
    → ((graph : List AclAuthorization)
        → acl.graph ≡ some graph
        → check_origin url_parse acl req ≡ plain_decision url_parse req graph)
      × (acl.graph ≡ none → check_origin url_parse acl req ≡ no_policy_set)
unfolding check_origin check_graph plain_decision
check_origin-plain url_parse acl req = (
  λ graph e.
      let t = scan_graph-Tracks req url_parse [] graph scan_start (record {
        any_patterns = refl;
        matched = refl;
        seen = λ k m. elim m [ ];
        known = λ p m. elim m [ ];
      }) in
      rw (e, t.any_patterns, t.matched),
  λ e. rw e,
)
