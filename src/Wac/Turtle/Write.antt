-- ===== src/Wac/Turtle/Write.antt =====
-- The Turtle serializer (crates/solid-pod-rs/src/wac/serializer.rs).
use solid_pod_rs.Prelude.{ℕ, suc, Option, none, some, List, [], ◌∷◌, ◌++◌, if◌then◌else◌}
use solid_pod_rs.Text.{Str, text, starts_with, join}
use solid_pod_rs.Text.Decimal.{decimal}
use solid_pod_rs.Wac.Document.{
  IdOrIds, get_ids, Condition, client, issuer, unknown, AclAuthorization, AclDocument,
}
use solid_pod_rs.Wac.Condition.{type_iri}

abbrev pub rendered_id : Str → Str
rendered_id r = if starts_with (text "http") r then b'<' ∷ (r ++ b'>' ∷ []) else r

unfoldable pub rendered_ids : List Str → List Str
rendered_ids [] = []
rendered_ids (r ∷ rs) = rendered_id r ∷ rendered_ids rs

unfoldable pub emitted : (lead pred : Str) → List Str → Str
unfolding rendered_ids
emitted lead pred [] = []
emitted lead pred (r ∷ rs) =
    lead ++ (pred ++ b' ' ∷ join (b',' ∷ b' ' ∷ []) (rendered_ids (r ∷ rs)))

unfoldable pub emit_pairs : (pred : Str) → Option IdOrIds → Str
unfolding emitted
emit_pairs pred vals = emitted (text " ;\n    ") pred (get_ids vals)

unfoldable pub emit_body_pair : (pred : Str) → Option IdOrIds → Str
unfolding emitted
emit_body_pair pred vals = emitted (text " ;\n        ") pred (get_ids vals)

condition_pairs : Condition → Str
unfolding emit_body_pair
condition_pairs (client body) =
    emit_body_pair (text "acl:client") body.client
    ++ (emit_body_pair (text "acl:clientGroup") body.client_group
        ++ emit_body_pair (text "acl:clientClass") body.client_class)
condition_pairs (issuer body) =
    emit_body_pair (text "acl:issuer") body.issuer
    ++ (emit_body_pair (text "acl:issuerGroup") body.issuer_group
        ++ emit_body_pair (text "acl:issuerClass") body.issuer_class)
condition_pairs (unknown iri) = []

unfoldable pub emit_list : List Condition → Str
unfolding condition_pairs
emit_list [] = []
emit_list (cond ∷ conds) =
    text " ;\n    acl:condition [\n        a "
    ++ (type_iri cond ++ (condition_pairs cond ++ (text "\n    ]" ++ emit_list conds)))

unfoldable pub emit_conditions : Option (List Condition) → Str
unfolding emit_list
emit_conditions none = []
emit_conditions (some conds) = emit_list conds

-- The text of a rule up to the final stop.
unfoldable pub write_rule : ℕ → AclAuthorization → Str
unfolding emit_pairs emit_conditions
write_rule i auth =
    text "<#rule-"
    ++ (decimal i
        ++ (text "> a acl:Authorization"
            ++ (emit_pairs (text "acl:agent") auth.agent
                ++ (emit_pairs (text "acl:agentClass") auth.agent_class
                    ++ (emit_pairs (text "acl:agentGroup") auth.agent_group
                        ++ (emit_pairs (text "acl:origin") auth.origin
                            ++ (emit_pairs (text "acl:accessTo") auth.access_to
                                ++ (emit_pairs (text "acl:default") auth.default
                                    ++ (emit_pairs (text "acl:mode") auth.mode
                                        ++ emit_conditions auth.condition)))))))))

unfoldable pub write_rules : ℕ → List AclAuthorization → Str
unfolding write_rule
write_rules i [] = []
write_rules i (auth ∷ graph) = write_rule i auth ++ (text " .\n\n" ++ write_rules (suc i) graph)

write_graph : Option (List AclAuthorization) → Str
unfolding write_rules
write_graph none = []
write_graph (some graph) = write_rules 0 graph

unfoldable pub serialize_turtle_acl : AclDocument → Str
unfolding write_graph
serialize_turtle_acl doc =
    text "@prefix acl: <http://www.w3.org/ns/auth/acl#> .\n"
    ++ (text "@prefix foaf: <http://xmlns.com/foaf/0.1/> .\n\n" ++ write_graph doc.graph)
