-- ===== src/Wac/Condition.antt =====
-- WAC 2.0 conditions (crates/solid-pod-rs/src/wac/conditions.rs, client.rs, issuer.rs).
-- `GroupMembership` and `ConditionDispatcher` are traits: here a function each.
use solid_pod_rs.Prelude.{
  Bool, true, false, Option, none, some, List, [], ◌∷◌, ◌++◌, if◌then◌else◌, any,
}
use solid_pod_rs.Text.{Str, text, str_eq, elem}
use solid_pod_rs.Wac.Document.{
  get_ids, ClientConditionBody, IssuerConditionBody, Condition, client, issuer, unknown,
  AclAuthorization, AclDocument,
}

pub data ConditionOutcome : Type 0 where
  satisfied not_applicable denied : ConditionOutcome

pub record RequestContext : Type 0 where
  pub web_id : Option Str
  pub client_id : Option Str
  pub issuer : Option Str

-- `is_member(group_iri, agent_uri)`.
abbrev pub GroupMembership : Type 0
GroupMembership = Str → Str → Bool

abbrev pub ConditionDispatcher : Type 0
ConditionDispatcher = Condition → RequestContext → GroupMembership → ConditionOutcome

unfoldable pub type_iri : Condition → Str
type_iri (client body) = text "acl:ClientCondition"
type_iri (issuer body) = text "acl:IssuerCondition"
type_iri (unknown iri) = iri

abbrev pub public_classes : List Str
public_classes = text "foaf:Agent" ∷ text "http://xmlns.com/foaf/0.1/Agent" ∷ []

abbrev is_public : Str → Bool
is_public cls = elem cls public_classes

-- `Some(cid)`: the listed clients, then the listed groups.
client_listed : ClientConditionBody → Option Str → GroupMembership → Bool
client_listed body none groups = false
client_listed body (some cid) groups =
    if any (λ c. str_eq c cid) (get_ids body.client)
    then true
    else any (λ g. groups g cid) (get_ids body.client_group)

unfoldable pub evaluate_client :
    ClientConditionBody → RequestContext → GroupMembership → ConditionOutcome
unfolding client_listed
evaluate_client body ctx groups =
    if any is_public (get_ids body.client_class)
    then satisfied
    else if client_listed body ctx.client_id groups
    then satisfied
    else denied

issuer_listed : IssuerConditionBody → Option Str → GroupMembership → ConditionOutcome
issuer_listed body none groups = denied
issuer_listed body (some iss) groups =
    if any (λ i. str_eq i iss) (get_ids body.issuer)
    then satisfied
    else if any (λ g. groups g iss) (get_ids body.issuer_group)
    then satisfied
    else denied

unfoldable pub evaluate_issuer :
    IssuerConditionBody → RequestContext → GroupMembership → ConditionOutcome
unfolding issuer_listed
evaluate_issuer body ctx groups =
    if any is_public (get_ids body.issuer_class)
    then satisfied
    else issuer_listed body ctx.issuer groups

-- Which of the two built-in evaluators are registered.
pub record ConditionRegistry : Type 0 where
  pub client_eval : Bool
  pub issuer_eval : Bool

abbrev pub new_registry : ConditionRegistry
new_registry = record { client_eval = false; issuer_eval = false }

abbrev pub with_client : ConditionRegistry → ConditionRegistry
with_client r = record r { client_eval = true }

abbrev pub with_issuer : ConditionRegistry → ConditionRegistry
with_issuer r = record r { issuer_eval = true }

abbrev pub default_with_client_and_issuer : ConditionRegistry
default_with_client_and_issuer = with_issuer (with_client new_registry)

unfoldable pub supported_iris : ConditionRegistry → List Str
supported_iris r =
    (if r.client_eval then text "acl:ClientCondition" ∷ [] else [])
    ++ (if r.issuer_eval then text "acl:IssuerCondition" ∷ [] else [])

unfoldable pub dispatch_registry : ConditionRegistry → ConditionDispatcher
dispatch_registry r (client body) ctx groups =
    if r.client_eval then evaluate_client body ctx groups else not_applicable
dispatch_registry r (issuer body) ctx groups =
    if r.issuer_eval then evaluate_issuer body ctx groups else not_applicable
dispatch_registry r (unknown iri) ctx groups = not_applicable

unfoldable pub empty_dispatcher : ConditionDispatcher
empty_dispatcher cond ctx groups = not_applicable

-- The loops of `validate_for_write`: the IRI of the first unknown condition.
pub unknown_in : List Condition → Option Str
unknown_in [] = none
unknown_in (unknown iri ∷ cs) = some iri
unknown_in (client body ∷ cs) = unknown_in cs
unknown_in (issuer body ∷ cs) = unknown_in cs

abbrev unknown_of : Option (List Condition) → Option Str
unknown_of none = none
unknown_of (some conds) = unknown_in conds

abbrev or_else : Option Str → Option Str → Option Str
or_else none later = later
or_else (some iri) later = some iri

unknown_in_graph : List AclAuthorization → Option Str
unknown_in_graph [] = none
unknown_in_graph (auth ∷ graph) =
    let rest = unknown_in_graph graph in or_else (unknown_of auth.condition) rest

-- `none` is `Ok(())`, and `some iri` is `Err(UnsupportedCondition { iri })`.
unfoldable pub validate_for_write : AclDocument → ConditionRegistry → Option Str
unfolding unknown_in_graph unknown_in
validate_for_write doc registry = elim doc.graph [
  | none ↦ none
  | some graph ↦ unknown_in_graph graph
]

unfoldable pub validate_acl_document : AclDocument → Option Str
unfolding validate_for_write
validate_acl_document doc = validate_for_write doc default_with_client_and_issuer
