-- ===== src/Wac/Turtle/Conditions.antt =====
-- The conditions of a rule: `parse_turtle_condition_objects` and what it calls
-- (crates/solid-pod-rs/src/wac/parser.rs).
pub mod Fuel
use solid_pod_rs.Prelude.{
  ℕ, zero, suc, ◌-◌, ◌&&◌, Bool, false, not, Option, none, some, List, [], ◌∷◌, ◌++◌, ◌==◌,
  if◌then◌else◌, length,
}
use solid_pod_rs.Text.{Str, text, str_eq, elem, is_empty, strip_prefix, trim, trim_start}
use solid_pod_rs.Text.Map.{Map}
use solid_pod_rs.Wac.Document.{
  IdOrIds, single, multiple, refs_of, Condition, client, issuer, unknown,
}
use solid_pod_rs.Wac.Turtle.{
  split_predicate_list, turtle_pop_term, expand_curie_or_iri, parse_object_list,
}

-- The two spellings of a name of the vocabulary.
abbrev pub acl_names : Str → List Str
acl_names local = (text "http://www.w3.org/ns/auth/acl#" ++ local) ∷ (text "acl:" ++ local) ∷ []

abbrev pub type_names : List Str
type_names =
    text "a" ∷ text "http://www.w3.org/1999/02/22-rdf-syntax-ns#type" ∷ text "rdf:type" ∷ []

unfoldable pub strs_to_ids : List Str → Option IdOrIds
strs_to_ids [] = none
strs_to_ids (item ∷ []) = some (single (record { id = item }))
strs_to_ids (item ∷ next ∷ items) = some (multiple (refs_of (item ∷ next ∷ items)))

unfoldable pub normalise_condition_type : Str → Str
normalise_condition_type raw =
    if elem raw (
      text "http://www.w3.org/ns/auth/acl#ClientCondition"
      ∷ text "https://www.w3.org/ns/auth/acl#ClientCondition"
      ∷ [])
    then text "acl:ClientCondition"
    else if elem raw (
        text "http://www.w3.org/ns/auth/acl#IssuerCondition"
        ∷ text "https://www.w3.org/ns/auth/acl#IssuerCondition"
        ∷ [])
    then text "acl:IssuerCondition"
    else raw

-- The variables of the loop in `parse_turtle_condition_body`.
pub record ConditionParts : Type 0 where
  pub type_iri : Option Str
  pub clients : List Str
  pub client_groups : List Str
  pub client_classes : List Str
  pub issuers : List Str
  pub issuer_groups : List Str
  pub issuer_classes : List Str

abbrev pub no_parts : ConditionParts
no_parts = record {
  type_iri = none;
  clients = [];
  client_groups = [];
  client_classes = [];
  issuers = [];
  issuer_groups = [];
  issuer_classes = [];
}

abbrev set_type : ConditionParts → List Str → ConditionParts
set_type p [] = p
set_type p (first ∷ objects) = record p { type_iri = some (normalise_condition_type first) }

add_pair : ConditionParts → (pred : Str) → (objects : List Str) → ConditionParts
add_pair p pred objects =
    if elem pred type_names
    then set_type p objects
    else if elem pred (acl_names (text "client"))
    then record p { clients = p.clients ++ objects }
    else if elem pred (acl_names (text "clientGroup"))
    then record p { client_groups = p.client_groups ++ objects }
    else if elem pred (acl_names (text "clientClass"))
    then record p { client_classes = p.client_classes ++ objects }
    else if elem pred (acl_names (text "issuer"))
    then record p { issuers = p.issuers ++ objects }
    else if elem pred (acl_names (text "issuerGroup"))
    then record p { issuer_groups = p.issuer_groups ++ objects }
    else if elem pred (acl_names (text "issuerClass"))
    then record p { issuer_classes = p.issuer_classes ++ objects }
    else p

condition_of : ConditionParts → Option Str → Option Condition
condition_of p none = none
condition_of p (some t) =
    if str_eq t (text "acl:ClientCondition")
    then some (
        client (record {
          client = strs_to_ids p.clients;
          client_group = strs_to_ids p.client_groups;
          client_class = strs_to_ids p.client_classes;
        }))
    else if str_eq t (text "acl:IssuerCondition")
    then some (
        issuer (record {
          issuer = strs_to_ids p.issuers;
          issuer_group = strs_to_ids p.issuer_groups;
          issuer_class = strs_to_ids p.issuer_classes;
        }))
    else some (unknown t)

abbrev cons_first : ℕ → Option (Str × Str) → Option (Str × Str)
cons_first c none = none
cons_first c (some (body, rest)) = some (c ∷ body, rest)

-- The text up to the bracket that closes `depth` open ones, and the text behind that bracket.
unfoldable pub matching_close : Str → (depth : ℕ) → (in_str : Bool) → Option (Str × Str)
matching_close [] depth in_str = none
matching_close (c ∷ cs) depth in_str =
    let rest =
      matching_close cs
        (if c == b'['
          then (if in_str then depth else suc depth)
          else if c == b']'
          then (if in_str then depth else depth - 1)
          else depth)
        (if c == b'"' then not in_str else in_str) in
    if c == b']' && (not in_str && depth == 1) then some ([], cs) else cons_first c rest

module _ (prefixes : Map Str) where
  condition_pair : ConditionParts → Option (Str × Str) → ConditionParts
  unfolding add_pair
  condition_pair p none = p
  condition_pair p (some (pred, rest)) =
      add_pair p (expand_curie_or_iri prefixes pred) (parse_object_list prefixes (trim rest))

  condition_pairs : List Str → ConditionParts → ConditionParts
  unfolding condition_pair
  condition_pairs [] p = p
  condition_pairs (pair ∷ pairs) p =
      condition_pairs pairs
        (if is_empty (trim pair) then p else condition_pair p (turtle_pop_term (trim pair)))

  unfoldable pub parse_turtle_condition_body : Str → Option Condition
  unfolding condition_pairs condition_of
  parse_turtle_condition_body body =
      let p = condition_pairs (split_predicate_list body) no_parts in condition_of p p.type_iri

  abbrev behind_comma : Str → Option Str
  behind_comma remaining = strip_prefix (b',' ∷ []) (trim_start remaining)

  listed_condition : Option Condition → List Condition
  listed_condition none = []
  listed_condition (some c) = c ∷ []

  bracketed : Option (Str × Str) → Option (List Condition × Option Str)
  unfolding parse_turtle_condition_body listed_condition
  bracketed none = none
  bracketed (some (body, rest)) =
      some (listed_condition (parse_turtle_condition_body body), behind_comma rest)

  named : Option (Str × Str) → Option (List Condition × Option Str)
  named none = none
  named (some (tok, rest)) =
      some (unknown (expand_curie_or_iri prefixes tok) ∷ [], behind_comma rest)

  condition_at : Str → Option Str → Option (List Condition × Option Str)
  unfolding bracketed named matching_close
  condition_at r (some after_open) = bracketed (matching_close after_open 1 false)
  condition_at r none = named (turtle_pop_term r)

  -- A round of the loop: the condition, if it has a type, and the text behind a comma.
  unfoldable pub next_condition : Str → Option (List Condition × Option Str)
  unfolding condition_at
  next_condition remaining =
      let r = trim_start remaining in
      if is_empty r then none else condition_at r (strip_prefix (b'[' ∷ []) r)

  unfoldable pub conditions_from : (fuel : ℕ) → Str → List Condition
  conditions_from zero remaining = []
  conditions_from (suc n) remaining = elim (next_condition remaining) [
    | none ↦ []
    | some (conds, none) ↦ conds
    | some (conds, some more) ↦ conds ++ conditions_from n more
  ]

  unfoldable pub parse_turtle_condition_objects : Str → List Condition
  unfolding conditions_from
  parse_turtle_condition_objects input = let t = trim input in conditions_from (suc (length t)) t
