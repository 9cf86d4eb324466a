-- ===== src/Wac/Evaluator.antt =====
-- The evaluation of an ACL document (crates/solid-pod-rs/src/wac/evaluator.rs and the header
-- builders of mod.rs), without the origin gate, which Wac/Gate adds.
pub mod Meaning
pub mod Grants
use solid_pod_rs.Prelude.{
  Bool, true, false, not, ◌&&◌, ◌||◌, Option, none, some, List, [], ◌∷◌, ◌++◌, if◌then◌else◌, any,
}
use solid_pod_rs.Text.{Str, text, str_eq, elem, is_some}
use solid_pod_rs.Wac.Mode.{AccessMode, map_mode, holds_mode}
use solid_pod_rs.Wac.Document.{get_ids, Condition, AclAuthorization, AclDocument}
use solid_pod_rs.Wac.Condition.{
  ConditionOutcome, satisfied, RequestContext, GroupMembership, ConditionDispatcher, public_classes,
}
use solid_pod_rs.Wac.Target.{path_matches}

modes_of : List Str → List AccessMode
modes_of [] = []
modes_of (r ∷ rs) = map_mode r ++ modes_of rs

unfoldable pub get_modes : AclAuthorization → List AccessMode
unfolding modes_of
get_modes auth = modes_of (get_ids auth.mode)

abbrev pub authenticated_classes : List Str
authenticated_classes =
    text "acl:AuthenticatedAgent" ∷ text "http://www.w3.org/ns/auth/acl#AuthenticatedAgent" ∷ []

abbrev pub class_matches : Option Str → Str → Bool
class_matches agent_uri cls =
    elem cls public_classes || (is_some agent_uri && elem cls authenticated_classes)

abbrev pub listed : Option Str → List Str → Bool
listed none agents = false
listed (some uri) agents = elem uri agents

abbrev pub in_group : Option Str → List Str → GroupMembership → Bool
in_group none group_iris groups = false
in_group (some uri) group_iris groups = any (λ g. groups g uri) group_iris

unfoldable pub agent_matches_with_groups : AclAuthorization → Option Str → GroupMembership → Bool
agent_matches_with_groups auth agent_uri groups =
    if listed agent_uri (get_ids auth.agent)
    then true
    else if any (class_matches agent_uri) (get_ids auth.agent_class)
    then true
    else in_group agent_uri (get_ids auth.agent_group) groups

unfoldable pub path_ok : AclAuthorization → Str → Bool
path_ok auth resource_path =
    if any (λ target. path_matches target resource_path false) (get_ids auth.access_to)
    then true
    else any (λ target. path_matches target resource_path true) (get_ids auth.default)

abbrev pub is_satisfied : ConditionOutcome → Bool
is_satisfied satisfied = true
is_satisfied _ = false

module _ (ctx : RequestContext) (groups : GroupMembership) (dispatcher : ConditionDispatcher) where
  unfoldable pub all_satisfied : List Condition → Bool
  all_satisfied [] = true
  all_satisfied (cond ∷ conds) =
      let rest = all_satisfied conds in
      if is_satisfied (dispatcher cond ctx groups) then rest else false

  unfoldable pub conditions_ok : Option (List Condition) → Bool
  conditions_ok none = true
  conditions_ok (some conds) = all_satisfied conds

  -- One round of the loop over the graph: each `continue` is a `false`.
  unfoldable pub rule_grants : Str → AccessMode → AclAuthorization → Bool
  rule_grants resource_path required_mode auth =
      if not (holds_mode required_mode (get_modes auth))
      then false
      else if not (agent_matches_with_groups auth ctx.web_id groups)
      then false
      else if not (path_ok auth resource_path)
      then false
      else conditions_ok auth.condition

  unfoldable pub base_grant : Str → AccessMode → List AclAuthorization → Bool
  base_grant resource_path required_mode [] = false
  base_grant resource_path required_mode (auth ∷ graph) =
      let rest = base_grant resource_path required_mode graph in
      if rule_grants resource_path required_mode auth then true else rest
