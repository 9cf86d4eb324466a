-- ===== src/Wac/Evaluator/Meaning.antt =====
-- The meaning of the evaluator's loop: some authorisation grants, for four reasons at once.
use solid_pod_rs.Prelude.{
  ◌≡◌, refl, ◌↔◌, ◌⊎◌, inl, inr, true, false, ◌&&◌, Option, none, some, List, arith, Bool-cases,
  any, any-elim, any-intro, Memᴰ,
}
use solid_pod_rs.Text.{Str, elem, is_some}
use solid_pod_rs.Text.Laws.{elem_iff}
use solid_pod_rs.Wac.Document.{get_ids, AclAuthorization}
use solid_pod_rs.Wac.Condition.{GroupMembership, public_classes}
use solid_pod_rs.Wac.Target.{normalize_path, path_matches}
use solid_pod_rs.Wac.Target.Meaning.{IsSelfOrChild, IsSelfOrBelow, path_matches_iff}
use solid_pod_rs.Wac.Evaluator.{
  authenticated_classes, class_matches, listed, in_group, agent_matches_with_groups, path_ok,
}

-- The agent is listed, or everybody is admitted, or everybody who has a WebID, or it is a member of
-- a listed group.
abbrev pub IsAccepted : AclAuthorization → Option Str → GroupMembership → Type 0
IsAccepted auth agent groups =
    ((uri : Str) × (agent ≡ some uri) × Memᴰ uri (get_ids auth.agent))
    ⊎ ((cls : Str) × Memᴰ cls (get_ids auth.agent_class) × Memᴰ cls public_classes)
    ⊎ ((uri cls : Str) × (agent ≡ some uri)
        × Memᴰ cls (get_ids auth.agent_class)
        × Memᴰ cls authenticated_classes)
    ⊎ ((uri g : Str) × (agent ≡ some uri)
        × Memᴰ g (get_ids auth.agent_group)
        × (groups g uri ≡ true))

abbrev pub IsTarget : AclAuthorization → Str → Type 0
IsTarget auth resource =
    ((t : Str) × Memᴰ t (get_ids auth.access_to)
      × IsSelfOrChild (normalize_path t) (normalize_path resource))
    ⊎ ((t : Str) × Memᴰ t (get_ids auth.default)
        × IsSelfOrBelow (normalize_path t) (normalize_path resource))

listed-elim :
    (agent : Option Str) (ids : List Str)
    → listed agent ids ≡ true
    → (uri : Str) × (agent ≡ some uri) × Memᴰ uri ids
listed-elim none ids h = cc
listed-elim (some uri) ids h = (uri, refl, (elem_iff uri ids).0 h)

in_group-elim :
    (agent : Option Str) (ids : List Str) (groups : GroupMembership)
    → in_group agent ids groups ≡ true
    → (uri g : Str) × (agent ≡ some uri) × Memᴰ g ids × (groups g uri ≡ true)
in_group-elim none ids groups h = cc
in_group-elim (some uri) ids groups h =
    let (g, m, e) = any-elim (λ g. groups g uri) ids h in (uri, g, refl, m, e)

class_matches-elim :
    (agent : Option Str) (cls : Str)
    → class_matches agent cls ≡ true
    → Memᴰ cls public_classes ⊎ ((uri : Str) × (agent ≡ some uri) × Memᴰ cls authenticated_classes)
class_matches-elim agent cls h = elim (Bool-cases (elem cls public_classes)) [
  | inl e ↦ inl ((elem_iff cls public_classes).0 e)
  | inr e ↦ inr (go agent (rw e at h))
]
  where
    go :
        (a : Option Str)
        → (is_some a && elem cls authenticated_classes) ≡ true
        → (uri : Str) × (a ≡ some uri) × Memᴰ cls authenticated_classes
    go none h = cc
    go (some uri) h = (uri, refl, (elem_iff cls authenticated_classes).0 h)

agent_matches-elim :
    (auth : AclAuthorization) (agent : Option Str) (groups : GroupMembership)
    → agent_matches_with_groups auth agent groups ≡ true
    → IsAccepted auth agent groups
unfolding agent_matches_with_groups
agent_matches-elim auth agent groups h = elim (Bool-cases (listed agent (get_ids auth.agent))) [
  | inl e ↦ inl (listed-elim agent _ e)
  | inr e ↦ elim (Bool-cases (any (class_matches agent) (get_ids auth.agent_class))) [
    | inl c ↦
        let (cls, m, q) = any-elim (class_matches agent) _ c in
        elim (class_matches-elim agent cls q) [
          | inl public ↦ inr (inl (cls, m, public))
          | inr (uri, a, auth_cls) ↦ inr (inr (inl (uri, cls, a, m, auth_cls)))
        ]
    | inr c ↦ inr (inr (inr (in_group-elim agent _ groups (rw c at (rw e at h)))))
  ]
]

agent_matches-intro :
    (auth : AclAuthorization) (agent : Option Str) (groups : GroupMembership)
    → IsAccepted auth agent groups
    → agent_matches_with_groups auth agent groups ≡ true
unfolding agent_matches_with_groups
agent_matches-intro auth agent groups (inl (uri, a, m)) = rw (a, (elem_iff uri _).1 m)
agent_matches-intro auth agent groups (inr (inl (cls, m, public))) =
    let hit : class_matches agent cls ≡ true = rw ((elem_iff cls public_classes).1 public) in
    ground (arith, any-intro (class_matches agent) m hit)
agent_matches-intro auth agent groups (inr (inr (inl (uri, cls, a, m, known)))) =
    let hit : class_matches agent cls ≡ true =
      rw a (ground (arith, (elem_iff cls authenticated_classes).1 known)) in
    ground (arith, any-intro (class_matches agent) m hit)
agent_matches-intro auth agent groups (inr (inr (inr (uri, g, a, m, e)))) =
    let hit : in_group agent (get_ids auth.agent_group) groups ≡ true =
      rw a (any-intro (λ g. groups g uri) m e) in
    ground arith

-- An authorisation's agent predicates accept exactly the agents that it lists, the members of its
-- groups, everybody under a public class, and every identified agent under an authenticated
-- class.
pub agent_matches_iff :
    (auth : AclAuthorization) (agent : Option Str) (groups : GroupMembership)
    → (agent_matches_with_groups auth agent groups ≡ true) ↔ IsAccepted auth agent groups
agent_matches_iff auth agent groups =
    (agent_matches-elim auth agent groups, agent_matches-intro auth agent groups)

pub path_ok_iff :
    (auth : AclAuthorization) (resource : Str)
    → (path_ok auth resource ≡ true) ↔ IsTarget auth resource
unfolding path_ok
path_ok_iff auth resource = (
  λ h. elim (Bool-cases (any (λ t. path_matches t resource false) (get_ids auth.access_to))) [
    | inl e ↦
        let (t, m, q) = any-elim (λ t. path_matches t resource false) _ e in
        inl (t, m, (path_matches_iff t resource).0.0 q)
    | inr e ↦
        let (t, m, q) = any-elim (λ t. path_matches t resource true) _ (rw e at h) in
        inr (t, m, (path_matches_iff t resource).1.0 q)
  ],
  elim [
    | inl (t, m, q) ↦
        rw (any-intro (λ t. path_matches t resource false) m ((path_matches_iff t resource).0.1 q))
    | inr (t, m, q) ↦ ground (
      arith,
      any-intro (λ t. path_matches t resource true) m ((path_matches_iff t resource).1.1 q),
    )
  ],
)
