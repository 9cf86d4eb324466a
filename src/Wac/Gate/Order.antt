-- ===== src/Wac/Gate/Order.antt =====
-- How the answer of the evaluator grows with the mode and with the agent.
use solid_pod_rs.Prelude.{
  ◌≡◌, refl, Bool, true, false, Option, none, some, List, [], ◌∷◌, arith, if◌then◌else◌, any,
}
use solid_pod_rs.Text.{Str}
use solid_pod_rs.Wac.Mode.{AccessMode, write, append}
use solid_pod_rs.Wac.Document.{
  get_ids, Condition, client, issuer, unknown, AclAuthorization, AclDocument,
}
use solid_pod_rs.Wac.Condition.{
  RequestContext, GroupMembership, ConditionDispatcher, ConditionRegistry, evaluate_client,
  evaluate_issuer, dispatch_registry,
}
use solid_pod_rs.Wac.Origin.{UrlParser, Origin}
use solid_pod_rs.Wac.Evaluator.{
  class_matches, agent_matches_with_groups, all_satisfied, conditions_ok, rule_grants, base_grant,
}
use solid_pod_rs.Wac.Evaluator.Grants.{rule_grants-append_of_write, base_grant_mono}
use solid_pod_rs.Wac.Gate.{origin_gate, evaluate_access_ctx, evaluate_access_ctx_with_registry}

-- Whoever may write may append: for every document, context, origin, group resolver and
-- dispatcher, with and without the origin gate.
pub evaluate_access_ctx-append_of_write :
    (acl_origin : Bool) (url_parse : UrlParser) (acl_doc : Option AclDocument)
    (ctx : RequestContext) (resource : Str) (origin : Option Origin) (groups : GroupMembership)
    (dispatcher : ConditionDispatcher)
    → evaluate_access_ctx acl_origin url_parse acl_doc ctx resource write origin groups dispatcher
      ≡ true
    → evaluate_access_ctx acl_origin url_parse acl_doc ctx resource append origin groups dispatcher
      ≡ true
unfolding evaluate_access_ctx
evaluate_access_ctx-append_of_write on url none ctx resource origin groups dispatcher h = cc
evaluate_access_ctx-append_of_write on url (some doc) ctx resource origin groups dispatcher h =
    go doc.graph h
  where
    go :
        (g : Option (List AclAuthorization))
        → (elim g [
          | none ↦ false
          | some graph ↦
              if base_grant ctx groups dispatcher resource write graph
              then origin_gate on url doc write origin
              else false
        ])
          ≡ true
        → (elim g [
          | none ↦ false
          | some graph ↦
              if base_grant ctx groups dispatcher resource append graph
              then origin_gate on url doc append origin
              else false
        ])
          ≡ true
    go none k = k
    go (some graph) k = ground (
      arith,
      base_grant_mono ctx ctx groups dispatcher resource write append graph
          (λ a. rule_grants-append_of_write ctx groups dispatcher resource a),
    )

any_mono :
    {A : Type 0} (p q : A → Bool) (xs : List A)
    → ((x : A) → p x ≡ true → q x ≡ true)
    → any p xs ≡ true
    → any q xs ≡ true
any_mono p q [] step h = cc
any_mono p q (x ∷ xs) step h = ground (arith, step x, any_mono p q xs step)

class_matches_of_anonymous :
    (uri cls : Str) → class_matches none cls ≡ true → class_matches (some uri) cls ≡ true
class_matches_of_anonymous uri cls h = ground arith

-- A rule that accepts a request without a WebID accepts any WebID.
agent_matches_of_anonymous :
    (auth : AclAuthorization) (uri : Str) (groups : GroupMembership)
    → agent_matches_with_groups auth none groups ≡ true
    → agent_matches_with_groups auth (some uri) groups ≡ true
unfolding agent_matches_with_groups
agent_matches_of_anonymous auth uri groups h = ground (
  arith,
  any_mono (class_matches none) (class_matches (some uri)) (get_ids auth.agent_class)
      (class_matches_of_anonymous uri),
)

abbrev anonymous : RequestContext → RequestContext
anonymous ctx = record ctx { web_id = none }

-- The built-in evaluators do not read the WebID.
dispatch_registry-anonymous :
    (r : ConditionRegistry) (c : Condition) (ctx : RequestContext) (groups : GroupMembership)
    → dispatch_registry r c (anonymous ctx) groups ≡ dispatch_registry r c ctx groups
unfolding dispatch_registry evaluate_client evaluate_issuer
dispatch_registry-anonymous r (client body) ctx groups = refl
dispatch_registry-anonymous r (issuer body) ctx groups = refl
dispatch_registry-anonymous r (unknown iri) ctx groups = refl

all_satisfied-anonymous :
    (r : ConditionRegistry) (ctx : RequestContext) (groups : GroupMembership) (cs : List Condition)
    → all_satisfied (anonymous ctx) groups (dispatch_registry r) cs
      ≡ all_satisfied ctx groups (dispatch_registry r) cs
unfolding all_satisfied
all_satisfied-anonymous r ctx groups [] = refl
all_satisfied-anonymous r ctx groups (c ∷ cs) =
    rw (dispatch_registry-anonymous r c ctx groups, all_satisfied-anonymous r ctx groups cs)

conditions_ok-anonymous :
    (r : ConditionRegistry) (ctx : RequestContext) (groups : GroupMembership)
    (o : Option (List Condition))
    → conditions_ok (anonymous ctx) groups (dispatch_registry r) o
      ≡ conditions_ok ctx groups (dispatch_registry r) o
unfolding conditions_ok
conditions_ok-anonymous r ctx groups none = refl
conditions_ok-anonymous r ctx groups (some cs) = all_satisfied-anonymous r ctx groups cs

rule_grants_of_anonymous :
    (r : ConditionRegistry) (ctx : RequestContext) (uri : Str) (groups : GroupMembership)
    (resource : Str) (mode : AccessMode) (auth : AclAuthorization)
    → ctx.web_id ≡ some uri
    → rule_grants (anonymous ctx) groups (dispatch_registry r) resource mode auth ≡ true
    → rule_grants ctx groups (dispatch_registry r) resource mode auth ≡ true
unfolding rule_grants
rule_grants_of_anonymous r ctx uri groups resource mode auth e h =
    let known : agent_matches_with_groups auth ctx.web_id groups ≡ true =
      rw e (agent_matches_of_anonymous auth uri groups (ground arith)) in
    ground (arith, conditions_ok-anonymous r ctx groups auth.condition)

-- Whatever an anonymous request may do, the same request with a WebID may do, under every
-- document and every registry of the built-in condition evaluators.
pub evaluate_access_of_anonymous :
    (acl_origin : Bool) (url_parse : UrlParser) (acl_doc : Option AclDocument)
    (ctx : RequestContext) (uri resource : Str) (mode : AccessMode) (origin : Option Origin)
    (groups : GroupMembership) (registry : ConditionRegistry)
    → ctx.web_id ≡ some uri
    → evaluate_access_ctx_with_registry acl_origin url_parse acl_doc
        (anonymous ctx)
        resource
        mode
        origin
        groups
        registry
      ≡ true
    → evaluate_access_ctx_with_registry acl_origin url_parse acl_doc ctx resource mode origin groups
        registry
      ≡ true
unfolding evaluate_access_ctx_with_registry
evaluate_access_of_anonymous on url none ctx uri resource mode origin groups r e h = cc
evaluate_access_of_anonymous on url (some doc) ctx uri resource mode origin groups r e h =
    go doc.graph h
  where
    go :
        (g : Option (List AclAuthorization))
        → (elim g [
          | none ↦ false
          | some graph ↦
              if base_grant (anonymous ctx) groups (dispatch_registry r) resource mode graph
              then origin_gate on url doc mode origin
              else false
        ])
          ≡ true
        → (elim g [
          | none ↦ false
          | some graph ↦
              if base_grant ctx groups (dispatch_registry r) resource mode graph
              then origin_gate on url doc mode origin
              else false
        ])
          ≡ true
    go none k = k
    go (some graph) k = ground (
      arith,
      base_grant_mono (anonymous ctx) ctx groups (dispatch_registry r) resource mode mode graph
          (λ a. rule_grants_of_anonymous r ctx uri groups resource mode a e),
    )
