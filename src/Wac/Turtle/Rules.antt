-- ===== src/Wac/Turtle/Rules.antt =====
-- The rules of a Turtle ACL document: `parse_turtle_acl_with_limit` and what it calls
-- (crates/solid-pod-rs/src/wac/parser.rs).
pub mod Pairs
pub mod RoundTrip
pub mod Statements
use solid_pod_rs.Prelude.{
  ℕ, ◌&&◌, Bool, true, false, Option, none, some, List, [], ◌∷◌, ◌++◌, ltb, if◌then◌else◌, any,
}
use solid_pod_rs.Error.{payload_too_large, Result, ok, err}
use solid_pod_rs.Text.{
  Str, text, elem, is_empty, strip_prefix, trim, trim_start_matches, trim_end_matches, byte_len,
  lines, split_once,
}
use solid_pod_rs.Text.Map.{Map, insert_key}
use solid_pod_rs.Wac.Document.{ids_of, Condition, AclAuthorization, AclDocument}
use solid_pod_rs.Wac.Bounds.{max_acl_bytes}
use solid_pod_rs.Wac.Turtle.{
  strip_turtle_comments, split_turtle_statements, split_predicate_list, turtle_pop_term,
  expand_curie_or_iri, parse_object_list,
}
use solid_pod_rs.Wac.Turtle.Conditions.{acl_names, type_names, parse_turtle_condition_objects}

abbrev pub is_authorization : Str → Bool
is_authorization o = elem o (acl_names (text "Authorization"))

-- The rule that is being read, and `any_authz`.
abbrev pub Draft : Type 0
Draft = AclAuthorization × Bool

abbrev pub no_fields : AclAuthorization
no_fields = record {
  id = none;
  type = none;
  agent = none;
  agent_class = none;
  agent_group = none;
  origin = none;
  access_to = none;
  default = none;
  mode = none;
  condition = none;
}

abbrev limit_or : ℕ → Option ℕ → ℕ
limit_or d none = d
limit_or d (some n) = n

module _ (prefixes : Map Str) where
  abbrev with_conditions : Option (List Condition) → List Condition → List Condition
  with_conditions none conds = conds
  with_conditions (some old) conds = old ++ conds

  set_field : Draft → (pred rest : Str) → (objects : List Str) → Draft
  set_field (auth, any_authz) pred rest objects =
      if elem pred type_names && any is_authorization objects
      then (auth, true)
      else if elem pred (acl_names (text "agent"))
      then (record auth { agent = some (ids_of objects) }, any_authz)
      else if elem pred (acl_names (text "agentClass"))
      then (record auth { agent_class = some (ids_of objects) }, any_authz)
      else if elem pred (acl_names (text "agentGroup"))
      then (record auth { agent_group = some (ids_of objects) }, any_authz)
      else if elem pred (acl_names (text "origin"))
      then (record auth { origin = some (ids_of objects) }, any_authz)
      else if elem pred (acl_names (text "accessTo"))
      then (record auth { access_to = some (ids_of objects) }, any_authz)
      else if elem pred (acl_names (text "default"))
      then (record auth { default = some (ids_of objects) }, any_authz)
      else if elem pred (acl_names (text "mode"))
      then (record auth { mode = some (ids_of objects) }, any_authz)
      else if elem pred (acl_names (text "condition"))
      then (
        record auth {
          condition = some (
              with_conditions auth.condition (parse_turtle_condition_objects prefixes (trim rest)));
        },
        any_authz,
      )
      else (auth, any_authz)

  set_pair : Draft → Option (Str × Str) → Option Draft
  unfolding set_field
  set_pair d none = none
  set_pair d (some (pred, rest)) = some (
      set_field d (expand_curie_or_iri prefixes pred) rest (parse_object_list prefixes (trim rest)))

  abbrev draft_pair : Draft → Str → Option Draft
  draft_pair d pair = if is_empty pair then some d else set_pair d (turtle_pop_term pair)

  unfoldable pub draft_pairs : List Str → Option Draft → Option Draft
  unfolding set_pair
  draft_pairs pairs none = none
  draft_pairs [] (some d) = some d
  draft_pairs (pair ∷ pairs) (some d) = draft_pairs pairs (draft_pair d (trim pair))

  finished : Option Draft → Option AclAuthorization
  finished none = none
  finished (some (auth, any_authz)) = if any_authz then some auth else none

  rule_behind : Option (Str × Str) → Option AclAuthorization
  unfolding finished draft_pairs
  rule_behind none = none
  rule_behind (some (subject, body)) =
      finished (draft_pairs (split_predicate_list body) (some (no_fields, false)))

  unfoldable pub parse_turtle_authorization : Str → Option AclAuthorization
  unfolding rule_behind
  parse_turtle_authorization stmt =
      let trimmed = trim stmt in
      if is_empty trimmed then none else rule_behind (turtle_pop_term trimmed)

  cons_rule : Option AclAuthorization → List AclAuthorization → List AclAuthorization
  cons_rule none graph = graph
  cons_rule (some auth) graph = auth ∷ graph

  unfoldable pub rules_in : List Str → List AclAuthorization
  unfolding cons_rule parse_turtle_authorization
  rules_in [] = []
  rules_in (stmt ∷ stmts) =
      let rest = rules_in stmts in
      if is_empty (trim stmt) then rest else cons_rule (parse_turtle_authorization stmt) rest

abbrev pub default_prefixes : Map Str
default_prefixes =
    (text "vcard", text "http://www.w3.org/2006/vcard/ns#")
    ∷ (text "foaf", text "http://xmlns.com/foaf/0.1/")
    ∷ (text "acl", text "http://www.w3.org/ns/auth/acl#")
    ∷ []

with_prefix : Map Str → Option (Str × Str) → Map Str
with_prefix prefixes none = prefixes
with_prefix prefixes (some (name, iri_part)) =
    let inner = trim (trim_end_matches b'.' (trim iri_part)) in
    insert_key (trim name) (trim (trim_end_matches b'>' (trim_start_matches b'<' inner))) prefixes

-- The loop over the lines: the prefixes, and the text of the other lines.
unfoldable pub read_prefixes : List Str → Map Str → Str → Map Str × Str
unfolding with_prefix
read_prefixes [] prefixes body = (prefixes, body)
read_prefixes (line ∷ ls) prefixes body = elim (strip_prefix (text "@prefix") (trim line)) [
  | some rest ↦ read_prefixes ls (with_prefix prefixes (split_once (b':' ∷ []) (trim rest))) body
  | none ↦ read_prefixes ls prefixes (body ++ (line ++ 10 ∷ []))
]

graph_of : List AclAuthorization → AclDocument
graph_of [] = record { graph = none }
graph_of (auth ∷ graph) = record { graph = some (auth ∷ graph) }

read_document : Map Str × Str → AclDocument
unfolding graph_of rules_in
read_document (prefixes, body) = graph_of (rules_in prefixes (split_turtle_statements body))

unfoldable pub parse_turtle_acl_with_limit : Str → (max_bytes : ℕ) → Result AclDocument
unfolding read_document read_prefixes
parse_turtle_acl_with_limit input max_bytes =
    if ltb max_bytes (byte_len input)
    then err payload_too_large
    else ok
        (read_document (read_prefixes (lines (strip_turtle_comments input)) default_prefixes []))

-- The limit of the environment, where it sets one to a number.
unfoldable pub parse_turtle_acl : Option ℕ → Str → Result AclDocument
unfolding parse_turtle_acl_with_limit
parse_turtle_acl env_limit input =
    parse_turtle_acl_with_limit input (limit_or max_acl_bytes env_limit)
