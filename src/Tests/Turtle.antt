-- ===== src/Tests/Turtle.antt =====
-- Turtle ACL documents at concrete inputs.
use solid_pod_rs.Prelude.{◌≡◌, refl, none, some, [], ◌∷◌}
use solid_pod_rs.Error.{ok}
use solid_pod_rs.Text.{
  Str, text, byte_len, join, starts_with, lines, trim, break_at, str_eq, char_len, is_whitespace,
  split, split_by, split_once, strip_prefix, trim_end, trim_end_by, trim_end_matches, trim_start,
  trim_start_by, trim_start_matches,
}
use solid_pod_rs.Wac.Document.{IdOrIds, single, multiple, client, AclAuthorization, get_ids, ids_of}
use solid_pod_rs.Wac.Turtle.Conditions.{
  conditions_from, matching_close, next_condition, normalise_condition_type,
  parse_turtle_condition_body, parse_turtle_condition_objects, strs_to_ids,
}
use solid_pod_rs.Wac.Turtle.Rules.{
  parse_turtle_acl_with_limit, no_fields, draft_pairs, parse_turtle_authorization, read_prefixes,
  rules_in,
}
use solid_pod_rs.Wac.Turtle.Write.{
  serialize_turtle_acl, emit_body_pair, emit_conditions, emit_list, emit_pairs, rendered_ids,
  write_rule, write_rules,
}
use solid_pod_rs.Text.Decimal.{decimal}
use solid_pod_rs.Text.Map.{lookup, remove_key}
use solid_pod_rs.Wac.Turtle.{
  expand_curie_or_iri, split_turtle_statements, strip_turtle_comments, turtle_pop_term,
  split_predicate_list, next_object, objects_from, parse_object_list, split_scan,
}
use solid_pod_rs.Wac.Condition.{type_iri}

abbrev one : Str → IdOrIds
one s = single (record { id = s })

abbrev public_rule : AclAuthorization
public_rule = record no_fields {
  agent_class = some (one (text "foaf:Agent"));
  access_to = some (one (text "/"));
  mode = some (multiple (record { id = text "acl:Read" } ∷ record { id = text "acl:Append" } ∷ []));
}

abbrev public_read_back : AclAuthorization
public_read_back = record no_fields {
  agent_class = some (one (text "http://xmlns.com/foaf/0.1/Agent"));
  access_to = some (one (text "/"));
  mode = some (
      multiple (
        record { id = text "http://www.w3.org/ns/auth/acl#Read" }
        ∷ record { id = text "http://www.w3.org/ns/auth/acl#Append" }
        ∷ []));
}

public_written :
    parse_turtle_acl_with_limit
      (serialize_turtle_acl (record { graph = some (public_rule ∷ []) }))
      1000
    ≡ ok (record { graph = some (public_read_back ∷ []) })
unfolding text byte_len join starts_with lines trim break_at str_eq char_len is_whitespace split
    split_by split_once strip_prefix trim_end trim_end_by trim_end_matches trim_start trim_start_by
    trim_start_matches decimal lookup remove_key expand_curie_or_iri split_turtle_statements
    strip_turtle_comments turtle_pop_term split_predicate_list next_object objects_from
    parse_object_list split_scan get_ids ids_of type_iri parse_turtle_acl_with_limit conditions_from
    draft_pairs matching_close next_condition normalise_condition_type parse_turtle_authorization
    parse_turtle_condition_body parse_turtle_condition_objects read_prefixes rules_in strs_to_ids
    serialize_turtle_acl emit_body_pair emit_conditions emit_list emit_pairs rendered_ids write_rule
    write_rules
public_written = refl

-- A rule for one client.
abbrev client_rule : AclAuthorization
client_rule = record no_fields {
  agent_class = some (one (text "foaf:Agent"));
  access_to = some (one (text "/"));
  mode = some (one (text "acl:Write"));
  condition = some (
      client (record {
        client = some (one (text "app.example"));
        client_group = none;
        client_class = none;
      })
      ∷ []);
}

-- The dot in the name of the client ends the statement, and the condition is lost.
client_lost :
    parse_turtle_acl_with_limit
      (serialize_turtle_acl (record { graph = some (client_rule ∷ []) }))
      1000
    ≡ ok (record {
      graph = some (
          record no_fields {
            agent_class = some (one (text "http://xmlns.com/foaf/0.1/Agent"));
            access_to = some (one (text "/"));
            mode = some (one (text "http://www.w3.org/ns/auth/acl#Write"));
            condition = some [];
          }
          ∷ []);
    })
unfolding text byte_len join starts_with lines trim break_at str_eq char_len is_whitespace split
    split_by split_once strip_prefix trim_end trim_end_by trim_end_matches trim_start trim_start_by
    trim_start_matches decimal lookup remove_key expand_curie_or_iri split_turtle_statements
    strip_turtle_comments turtle_pop_term split_predicate_list next_object objects_from
    parse_object_list split_scan get_ids ids_of type_iri parse_turtle_acl_with_limit conditions_from
    draft_pairs matching_close next_condition normalise_condition_type parse_turtle_authorization
    parse_turtle_condition_body parse_turtle_condition_objects read_prefixes rules_in strs_to_ids
    serialize_turtle_acl emit_body_pair emit_conditions emit_list emit_pairs rendered_ids write_rule
    write_rules
client_lost = refl

-- A rule for a target with a dot.
abbrev notes_rule : AclAuthorization
notes_rule = record no_fields {
  agent_class = some (one (text "foaf:Agent"));
  access_to = some (one (text "/notes.txt"));
  mode = some (one (text "acl:Read"));
}

-- The dot cuts the target short, and the mode is lost.
notes_cut :
    parse_turtle_acl_with_limit
      (serialize_turtle_acl (record { graph = some (notes_rule ∷ []) }))
      1000
    ≡ ok (record {
      graph = some (
          record no_fields {
            agent_class = some (one (text "http://xmlns.com/foaf/0.1/Agent"));
            access_to = some (one (text "/notes"));
          }
          ∷ []);
    })
unfolding text byte_len join starts_with lines trim break_at str_eq char_len is_whitespace split
    split_by split_once strip_prefix trim_end trim_end_by trim_end_matches trim_start trim_start_by
    trim_start_matches decimal lookup remove_key expand_curie_or_iri split_turtle_statements
    strip_turtle_comments turtle_pop_term split_predicate_list next_object objects_from
    parse_object_list split_scan get_ids ids_of type_iri parse_turtle_acl_with_limit conditions_from
    draft_pairs matching_close next_condition normalise_condition_type parse_turtle_authorization
    parse_turtle_condition_body parse_turtle_condition_objects read_prefixes rules_in strs_to_ids
    serialize_turtle_acl emit_body_pair emit_conditions emit_list emit_pairs rendered_ids write_rule
    write_rules
notes_cut = refl
