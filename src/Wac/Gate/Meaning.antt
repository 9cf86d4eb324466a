-- ===== src/Wac/Gate/Meaning.antt =====
-- When `evaluate_access_ctx` grants.
use solid_pod_rs.Prelude.{
  ◌≡◌, refl, ◌↔◌, ◌⊎◌, inl, inr, Bool, true, false, Option, none, some, List, arith, if◌then◌else◌,
  Bool-cases, Memᴰ,
}
use solid_pod_rs.Text.{Str}
use solid_pod_rs.Wac.Mode.{AccessMode, control, mode_eq, mode_eq_iff}
use solid_pod_rs.Wac.Document.{AclAuthorization, AclDocument}
use solid_pod_rs.Wac.Condition.{RequestContext, GroupMembership, ConditionDispatcher}
use solid_pod_rs.Wac.Origin.{UrlParser, Origin, check_origin}
use solid_pod_rs.Wac.Evaluator.{base_grant}
use solid_pod_rs.Wac.Evaluator.Grants.{Grants, base_grant_iff}
use solid_pod_rs.Wac.Gate.{passes_gate, origin_gate, evaluate_access_ctx}

module _ (acl_origin : Bool) (url_parse : UrlParser) (ctx : RequestContext)
    (groups : GroupMembership) (dispatcher : ConditionDispatcher) where
  -- The gate is open for Control, in a build without the feature, and where the decision passes.
  abbrev pub GateOpen : AclDocument → AccessMode → Option Origin → Type 0
  GateOpen doc mode origin =
      (mode ≡ control)
      ⊎ (acl_origin ≡ false)
      ⊎ (passes_gate (check_origin url_parse doc origin) ≡ true)

  abbrev pub Granted : Option AclDocument → Str → AccessMode → Option Origin → Type 0
  Granted acl_doc resource mode origin =
      (doc : AclDocument) × (graph : List AclAuthorization) × (auth : AclAuthorization) × (acl_doc
        ≡ some doc)
      × (doc.graph ≡ some graph)
      × Memᴰ auth graph
      × Grants ctx groups dispatcher resource mode auth
      × GateOpen doc mode origin

  origin_gate_iff :
      (doc : AclDocument) (mode : AccessMode) (origin : Option Origin)
      → (origin_gate acl_origin url_parse doc mode origin ≡ true) ↔ GateOpen doc mode origin
  unfolding origin_gate
  origin_gate_iff doc mode origin = elim (Bool-cases (mode_eq mode control)) [
    | inl e ↦ rw e (λ _. inl ((mode_eq_iff mode control).0 e), λ _. refl)
    | inr e ↦ rw e (
      λ h. elim (Bool-cases acl_origin) [
        | inl on ↦ inr (inr (rw on at h))
        | inr off ↦ inr (inl off)
      ],
      elim [
        | inl c ↦ cc (e, (mode_eq_iff mode control).1 c)
        | inr (inl off) ↦ rw off
        | inr (inr pass) ↦ ground arith
      ],
    )
  ]

  both_iff : (a b : Bool) → ((if a then b else false) ≡ true) ↔ ((a ≡ true) × (b ≡ true))
  both_iff a b = ground arith

  evaluate-elim :
      (acl_doc : Option AclDocument) (resource : Str) (mode : AccessMode) (origin : Option Origin)
      → evaluate_access_ctx acl_origin url_parse acl_doc ctx resource mode origin groups dispatcher
        ≡ true
      → Granted acl_doc resource mode origin
  unfolding evaluate_access_ctx
  evaluate-elim none resource mode origin h = cc
  evaluate-elim (some doc) resource mode origin h = go doc.graph refl h
    where
      go :
          (g : Option (List AclAuthorization))
          → doc.graph ≡ g
          → (elim g [
            | none ↦ false
            | some graph ↦
                if base_grant ctx groups dispatcher resource mode graph
                then origin_gate acl_origin url_parse doc mode origin
                else false
          ])
            ≡ true
          → Granted (some doc) resource mode origin
      go none e k = cc
      go (some graph) e k =
          let (base, gate) = (both_iff _ _).0 k in
          let (auth, m, grants) =
            (base_grant_iff ctx groups dispatcher resource mode graph).0 base in
          (doc, graph, auth, refl, e, m, grants, (origin_gate_iff doc mode origin).0 gate)

  evaluate-intro :
      (acl_doc : Option AclDocument) (resource : Str) (mode : AccessMode) (origin : Option Origin)
      → Granted acl_doc resource mode origin
      → evaluate_access_ctx acl_origin url_parse acl_doc ctx resource mode origin groups dispatcher
        ≡ true
  unfolding evaluate_access_ctx
  evaluate-intro acl_doc resource mode origin (doc, graph, auth, d, g, m, grants, open_gate) = rw (
    d,
    g,
    (base_grant_iff ctx groups dispatcher resource mode graph).1 (auth, m, grants),
    (origin_gate_iff doc mode origin).1 open_gate,
  )

  -- Access is granted exactly if there is an ACL document with a graph, one authorisation of which
  -- lists the mode, accepts the agent, covers the resource and has only satisfied conditions, and
  -- the origin gate is open: for Control always, without the feature always, and else where the
  -- decision is `no_policy_set` or `permitted`.
  pub evaluate_access_ctx_iff :
      (acl_doc : Option AclDocument) (resource : Str) (mode : AccessMode) (origin : Option Origin)
      → (evaluate_access_ctx acl_origin url_parse acl_doc ctx resource mode origin groups dispatcher
          ≡ true)
        ↔ Granted acl_doc resource mode origin
  evaluate_access_ctx_iff acl_doc resource mode origin =
      (evaluate-elim acl_doc resource mode origin, evaluate-intro acl_doc resource mode origin)
