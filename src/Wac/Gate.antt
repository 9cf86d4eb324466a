-- ===== src/Wac/Gate.antt =====
-- The entry points of the evaluator with the origin gate (crates/solid-pod-rs/src/wac/evaluator.rs)
-- and the `WAC-Allow` header (crates/solid-pod-rs/src/wac/mod.rs). `acl_origin` says whether the
-- crate is built with the feature of that name.
pub mod Meaning
pub mod Order
use solid_pod_rs.Prelude.{Bool, true, false, Option, none, some, List, [], ◌∷◌, ◌++◌, if◌then◌else◌}
use solid_pod_rs.Text.{Str, text, join}
use solid_pod_rs.Wac.Mode.{AccessMode, control, mode_eq, mode_name, all_modes}
use solid_pod_rs.Wac.Document.{AclAuthorization, AclDocument}
use solid_pod_rs.Wac.Condition.{
  RequestContext, GroupMembership, ConditionDispatcher, ConditionRegistry, empty_dispatcher,
  dispatch_registry,
}
use solid_pod_rs.Wac.Origin.{
  UrlParser, Origin, OriginDecision, no_policy_set, permitted, check_origin,
}
use solid_pod_rs.Wac.Evaluator.{base_grant}

abbrev pub passes_gate : OriginDecision → Bool
passes_gate no_policy_set = true
passes_gate permitted = true
passes_gate _ = false

-- The names pushed by the loop over `ALL_MODES`, for one of the two lists.
unfoldable pub mode_names : (AccessMode → Bool) → List AccessMode → List Str
mode_names granted [] = []
mode_names granted (m ∷ ms) =
    let rest = mode_names granted ms in if granted m then mode_name m ∷ rest else rest

allow_value : List Str → List Str → Str
allow_value user public =
    text "user=\""
    ++ (join (text " ") user ++ (text "\", public=\"" ++ (join (text " ") public ++ text "\"")))

module _ (acl_origin : Bool) (url_parse : UrlParser) where
  origin_gate : AclDocument → AccessMode → Option Origin → Bool
  origin_gate doc required_mode request_origin =
      if mode_eq required_mode control
      then true
      else if acl_origin
      then passes_gate (check_origin url_parse doc request_origin)
      else true

  unfoldable pub evaluate_access_ctx :
      Option AclDocument
      → RequestContext
      → Str
      → AccessMode
      → Option Origin
      → GroupMembership
      → ConditionDispatcher
      → Bool
  unfolding origin_gate
  evaluate_access_ctx none ctx resource_path required_mode request_origin groups dispatcher = false
  evaluate_access_ctx (some doc) ctx resource_path required_mode request_origin groups dispatcher =
      elim doc.graph [
        | none ↦ false
        | some graph ↦
            if base_grant ctx groups dispatcher resource_path required_mode graph
            then origin_gate doc required_mode request_origin
            else false
      ]

  unfoldable pub evaluate_access_ctx_with_registry :
      Option AclDocument
      → RequestContext
      → Str
      → AccessMode
      → Option Origin
      → GroupMembership
      → ConditionRegistry
      → Bool
  unfolding evaluate_access_ctx
  evaluate_access_ctx_with_registry acl_doc ctx resource_path required_mode req groups registry =
      evaluate_access_ctx acl_doc ctx resource_path required_mode req groups
        (dispatch_registry registry)

  unfoldable pub evaluate_access_with_groups :
      Option AclDocument → Option Str → Str → AccessMode → Option Origin → GroupMembership → Bool
  unfolding evaluate_access_ctx
  evaluate_access_with_groups acl_doc agent_uri resource_path required_mode req groups =
      evaluate_access_ctx acl_doc (record { web_id = agent_uri; client_id = none; issuer = none })
        resource_path required_mode req groups empty_dispatcher

  unfoldable pub evaluate_access :
      Option AclDocument → Option Str → Str → AccessMode → Option Origin → Bool
  unfolding evaluate_access_with_groups
  evaluate_access acl_doc agent_uri resource_path required_mode req =
      evaluate_access_with_groups acl_doc agent_uri resource_path required_mode req (λ _ _. false)

  unfoldable pub wac_allow_header : Option AclDocument → Option Str → Str → Str
  unfolding mode_names allow_value
  wac_allow_header acl_doc agent_uri resource_path =
      allow_value
        (mode_names (λ m. evaluate_access acl_doc agent_uri resource_path m none) all_modes)
        (mode_names (λ m. evaluate_access acl_doc none resource_path m none) all_modes)

  unfoldable pub wac_allow_header_with_dispatcher :
      Option AclDocument → RequestContext → Str → GroupMembership → ConditionDispatcher → Str
  unfolding mode_names allow_value
  wac_allow_header_with_dispatcher acl_doc ctx path groups dispatcher =
      let public_ctx = record ctx { web_id = none } in
      allow_value
        (mode_names (λ m. evaluate_access_ctx acl_doc ctx path m none groups dispatcher) all_modes)
        (mode_names (λ m. evaluate_access_ctx acl_doc public_ctx path m none groups dispatcher)
          all_modes)
