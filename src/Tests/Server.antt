-- ===== src/Tests/Server.antt =====
-- The handlers, the backend and patches at concrete requests.
mod Guards
use solid_pod_rs.Ldp.NTriples.{parse_ntriples, read_value}
use solid_pod_rs.Wac.Resolver.Server.{find_effective_acl_dyn, visit_dyn}
use solid_pod_rs.Text.Laws.{str_eq_refl}
use solid_pod_rs.Text.Map.{lookup, remove_key}
use solid_pod_rs.Wac.Resolver.{acl_key, parent, before_last}
use solid_pod_rs.Text.{
  trim_end_matches, starts_with, ascii_lower, byte_len, char_len, ends_with, is_whitespace, join,
  split_once, strip_prefix, to_ascii_lowercase, trim, trim_end, trim_end_by, trim_start,
  trim_start_by, split, strip_suffix, break_at,
}
use solid_pod_rs.Wac.Bounds.{
  parse_jsonld_acl, check_json_depth, parse_jsonld_acl_with_limits, step, step_plain, step_string,
}
use solid_pod_rs.Wac.Gate.{
  evaluate_access_ctx_with_registry, evaluate_access, evaluate_access_ctx,
  evaluate_access_with_groups, mode_names, wac_allow_header,
}
use solid_pod_rs.Wac.Evaluator.{
  base_grant, agent_matches_with_groups, all_satisfied, conditions_ok, get_modes, path_ok,
  rule_grants,
}
use solid_pod_rs.Server.Handlers.{grants, stored_body}
use solid_pod_rs.Text.Decimal.{decimal}
use solid_pod_rs.Wac.Condition.{
  dispatch_registry, empty_dispatcher, evaluate_client, evaluate_issuer,
}
use solid_pod_rs.Wac.Document.{get_ids}
use solid_pod_rs.Wac.Mode.{map_mode, mode_name}
use solid_pod_rs.Wac.Origin.{
  check_origin, extract_origin_patterns, from_url, matches, parse_origin, parse_pattern,
  parse_wildcard, pattern_key, scan_graph, scan_pattern, scan_patterns, without_port,
}
use solid_pod_rs.Wac.Target.{child_prefix, covers, normalize_path, path_matches}
use solid_pod_rs.Prelude.{
  ℕ, Bool, ◌==◌, ◌≡◌, ◌≢◌, ◌⊎◌, refl, subst, sym, ap, ◌∙◌, true, false, none, some, List, [], ◌∷◌,
  Memᴰ, arith, if◌then◌else◌,
}
use solid_pod_rs.Error.{not_found, unsupported, Result, ok, err}
use solid_pod_rs.Text.{Str, text, str_eq}
use solid_pod_rs.Text.Map.{keys}
use solid_pod_rs.Wac.Mode.{write, append}
use solid_pod_rs.Wac.Document.{single, AclAuthorization, AclDocument}
use solid_pod_rs.Ldp.Path.{is_container}
use solid_pod_rs.Ldp.Graph.{Graph, Triple, iri, plain_literal, new_graph, contains, insert, str_cmp}
use solid_pod_rs.Ldp.Patch.{
  block_graph, where_graph, insert_block, delete_block, where_block, apply_n3_patch,
  patch_dialect_from_mime, n3, extract_block, strip_braces,
}
use solid_pod_rs.Ldp.NTriples.{parse_ntriples, to_ntriples}
use solid_pod_rs.Ldp.NTriples.RoundTrip.{AllWritable}
use solid_pod_rs.Ldp.NTriples.Parse.{IsAsciiTriple, parse_ntriples-write}
use solid_pod_rs.Ldp.Patch.Effect.{Parses, Applies, Refuses, apply_n3_patch_lem}
use solid_pod_rs.Storage.Memory.{
  MemoryBackend, Entry, new_backend, normalize, get_entry, put, meta_of, delete, list, with_slash,
}
use solid_pod_rs.Storage.Memory.Laws.{get_entry-put, get_entry-delete}
use solid_pod_rs.Storage.Memory.Listing.{IsChild, list_iff}
use solid_pod_rs.Server.Handlers.{Env, Request, enforce_write, handle_get, handle_put, handle_patch}
use solid_pod_rs.Server.Handlers.Guard.{IsAuthorized, enforce_write_iff, Changes}
use solid_pod_rs.Server.Handlers.Routes.{put_method, handle, handle-IsAuthorized}
use solid_pod_rs.Server.Handlers.RoundTrip.{handle_get-put, HoldsOnly, handle_patch-forgets}

-- Everybody may read, write and append under the root.
abbrev open_rule : AclAuthorization
open_rule = record {
  id = none;
  type = none;
  agent = none;
  agent_class = some (single (record { id = text "foaf:Agent" }));
  agent_group = none;
  origin = none;
  access_to = none;
  default = some (single (record { id = text "/" }));
  mode = some (single (record { id = text "acl:Write" }));
  condition = none;
}

abbrev open_doc : AclDocument
open_doc = record { graph = some (open_rule ∷ []) }

abbrev env : Env
env = record {
  acl_origin = true;
  url_parse = λ s. none;
  parsers = record {
    from_slice = λ bs. some open_doc;
    env_bytes = none;
    env_depth = none;
    from_utf8 = λ bs. some bs;
    turtle = λ s. none;
  };
  header_ok = λ s. true;
  compute_etag = λ bs. text "tag";
  container_representation = λ s p. err not_found;
  apply_sparql_patch = λ g s. err unsupported;
  patch_json = λ bs s. err unsupported;
}

abbrev tag : List ℕ → Str
tag bs = text "tag"

abbrev pod : MemoryBackend
pod =
    (put tag 0
      (put tag 0 new_backend (text "/.acl") (b'{' ∷ b'}' ∷ []) (text "application/ld+json")).1
      (text "/a/b") (text "old") (text "text/turtle")).1

abbrev request : Str → Request
request body = record {
  path = text "/a/b";
  pubkey = none;
  slug = none;
  content_type = some (text "text/n3; charset=utf-8");
  body = body;
}

let_through : enforce_write env pod (text "/a/b") write none ≡ none
unfolding enforce_write find_effective_acl_dyn text visit_dyn get_entry lookup put str_eq normalize
    acl_key trim_end_matches starts_with remove_key parent before_last parse_jsonld_acl
    evaluate_access_ctx_with_registry base_grant grants stored_body decimal ascii_lower byte_len
    char_len ends_with is_whitespace join split_once strip_prefix to_ascii_lowercase trim trim_end
    trim_end_by trim_start trim_start_by check_json_depth parse_jsonld_acl_with_limits step
    step_plain step_string dispatch_registry empty_dispatcher evaluate_client evaluate_issuer
    get_ids agent_matches_with_groups all_satisfied conditions_ok get_modes path_ok rule_grants
    evaluate_access evaluate_access_ctx evaluate_access_with_groups mode_names wac_allow_header
    map_mode mode_name check_origin extract_origin_patterns from_url matches parse_origin
    parse_pattern parse_wildcard pattern_key scan_graph scan_pattern scan_patterns without_port
    child_prefix covers normalize_path path_matches
let_through = refl

let_append : enforce_write env pod (text "/a/b") append none ≡ none
unfolding enforce_write find_effective_acl_dyn text visit_dyn get_entry lookup put str_eq normalize
    acl_key trim_end_matches starts_with remove_key parent before_last parse_jsonld_acl
    evaluate_access_ctx_with_registry base_grant grants stored_body decimal ascii_lower byte_len
    char_len ends_with is_whitespace join split_once strip_prefix to_ascii_lowercase trim trim_end
    trim_end_by trim_start trim_start_by check_json_depth parse_jsonld_acl_with_limits step
    step_plain step_string dispatch_registry empty_dispatcher evaluate_client evaluate_issuer
    get_ids agent_matches_with_groups all_satisfied conditions_ok get_modes path_ok rule_grants
    evaluate_access evaluate_access_ctx evaluate_access_with_groups mode_names wac_allow_header
    map_mode mode_name check_origin extract_origin_patterns from_url matches parse_origin
    parse_pattern parse_wildcard pattern_key scan_graph scan_pattern scan_patterns without_port
    child_prefix covers normalize_path path_matches
let_append = refl

abbrev patch_text : List ℕ
patch_text = text "_:p a solid:InsertDeletePatch ; solid:inserts { <urn:s> <urn:p> \"x\" . } ."

not_container : is_container (text "/a/b") ≡ false
unfolding is_container str_eq text ends_with
not_container = refl

may_write : IsAuthorized env pod (text "/a/b") write none
may_write = (enforce_write_iff env pod (text "/a/b") write none).0 let_through

may_append : IsAuthorized env pod (text "/a/b") append none
may_append = (enforce_write_iff env pod (text "/a/b") append none).0 let_append

handle_get-put_example :
    ((handle_put env 1 pod (request (text "new"))).0.status ≡ 201)
    × ((handle_get env (handle_put env 1 pod (request (text "new"))).1 (request [])).0.status ≡ 200)
    × ((handle_get env (handle_put env 1 pod (request (text "new"))).1 (request [])).0.body
        ≡ text "new")
    × ((handle_get env (handle_put env 1 pod (request (text "new"))).1 (request [])).0.etag
        ≡ (handle_put env 1 pod (request (text "new"))).0.etag)
handle_get-put_example =
    handle_get-put env 1 pod (request (text "new")) (request []) not_container may_write refl

abbrev added : Triple
added = record {
  subject = iri (text "urn:s");
  predicate = iri (text "urn:p");
  object = plain_literal (text "x");
}

abbrev added_graph : Graph
added_graph = record { triples = added ∷ [] }

inserts_added : block_graph (insert_block patch_text) ≡ ok added_graph
unfolding block_graph extract_block text starts_with to_ascii_lowercase trim_start parse_ntriples
    split strip_braces trim strip_suffix trim_end_matches read_value insert
inserts_added = refl

deletes_none : block_graph (delete_block patch_text) ≡ ok new_graph
unfolding block_graph extract_block text starts_with to_ascii_lowercase
deletes_none = refl

where_none : where_graph (where_block patch_text) ≡ ok new_graph
unfolding where_graph extract_block text starts_with to_ascii_lowercase
where_none = refl

patch_text-Parses : Parses patch_text added_graph new_graph new_graph
patch_text-Parses = record { inserts = inserts_added; deletes = deletes_none; wheres = where_none }

apply_n3_patch_lem_example :
    Applies added_graph added_graph new_graph new_graph (apply_n3_patch added_graph patch_text)
    ⊎ Refuses added_graph added_graph new_graph new_graph (apply_n3_patch added_graph patch_text)
apply_n3_patch_lem_example =
    apply_n3_patch_lem added_graph added_graph new_graph new_graph patch_text patch_text-Parses

dialect_n3 : patch_dialect_from_mime (text "text/n3; charset=utf-8") ≡ some n3
unfolding patch_dialect_from_mime str_eq to_ascii_lowercase trim split text
dialect_n3 = refl

abbrev old_entry : Entry
old_entry = record { body = text "old"; meta = meta_of tag 0 (text "old") (text "text/turtle") }

had_old : get_entry pod (text "/a/b") ≡ ok old_entry
unfolding get_entry lookup put str_eq normalize text starts_with
had_old = refl

handle_patch-forgets_example :
    (((handle_patch env 1 pod (request patch_text)).0.status ≡ 204)
      × HoldsOnly env 1 pod
          (handle_patch env 1 pod (request patch_text)).1
          (text "/a/b")
          added_graph)
    ⊎ (((handle_patch env 1 pod (request patch_text)).0.status ≡ 412)
        × ((handle_patch env 1 pod (request patch_text)).1 ≡ pod)
        × (x : Triple) × Memᴰ x new_graph.triples)
handle_patch-forgets_example =
    handle_patch-forgets env 1 pod (request patch_text) old_entry patch_text added_graph new_graph
      new_graph not_container may_append dialect_n3 refl had_old patch_text-Parses

get_entry-delete_example :
    ((get_entry pod (text "/a/b") ≡ err not_found)
      × (delete pod (text "/a/b") ≡ (err not_found, pod)))
    ⊎ (((delete pod (text "/a/b")).0 ≡ ok true)
        × (get_entry ((delete pod (text "/a/b")).1) (text "/") ≡ (
            if str_eq (normalize (text "/a/b")) (normalize (text "/"))
            then err not_found
            else get_entry pod (text "/"))))
get_entry-delete_example = get_entry-delete pod (text "/a/b") (text "/")

root_list : list pod (text "/") ≡ text ".acl" ∷ text "a/" ∷ []
unfolding list put strip_prefix ends_with text normalize remove_key str_eq str_cmp break_at
root_list = refl

list_iff_example : IsChild (text "/") (text "a/") (keys pod.store)
list_iff_example =
    (list_iff pod (text "/") (text "a/")).0 (rw root_list (Memᴰ.tail (Memᴰ.head refl)))

abbrev new_entry : Entry
new_entry = record {
  body = text "new";
  meta = meta_of tag 1 (text "new") (text "text/n3; charset=utf-8");
}

put_stored :
    get_entry (handle env 1 (text "u") put_method pod (request (text "new"))).1 (text "/a/b")
    ≡ ok new_entry
unfolding handle handle_put
put_stored =
    rw (not_container, let_through)
      (get_entry-put tag 1 pod (text "/a/b") (text "/a/b") (text "new")
          (text "text/n3; charset=utf-8")
        ∙ rw (str_eq_refl (normalize (text "/a/b"))) refl)

body_or : Result Entry → List ℕ
body_or (ok e) = e.body
body_or (err e) = []

begins_with_n : List ℕ → Bool
begins_with_n [] = false
begins_with_n (c ∷ s) = c == b'n'

new_old : text "new" ≢ text "old"
unfolding text begins_with_n
new_old e = let same : true ≡ false = ap begins_with_n e in ground (arith, same)

put_differs :
    Changes env pod (handle env 1 (text "u") put_method pod (request (text "new"))) (text "/a/b")
unfolding body_or
put_differs e = absurd (new_old (ap body_or (sym put_stored ∙ e ∙ had_old)))

handle-IsAuthorized_example :
    IsAuthorized env pod (text "/a/b") write none
    × (target : Str) × (text "/a/b" ≡ target)
    × (normalize target ≡ normalize (text "/a/b"))
handle-IsAuthorized_example =
    handle-IsAuthorized env 1 (text "u") put_method pod (request (text "new")) (text "/a/b")
      put_differs

added_fits : AllWritable added × IsAsciiTriple added
unfolding text
added_fits = (((refl, refl), (refl, refl), tt), (tt, tt, refl))

all_fit : (t : Triple) → Memᴰ t added_graph.triples → AllWritable t × IsAsciiTriple t
all_fit t (Memᴰ.head e) = subst (λ u. AllWritable u × IsAsciiTriple u) (sym e) added_fits
all_fit t (Memᴰ.tail m) = elim m [ ]

parse_ntriples-write_example :
    (h : Graph) × (parse_ntriples (to_ntriples added_graph) ≡ ok h)
    × ((x : Triple) → contains h x ≡ contains added_graph x)
parse_ntriples-write_example = parse_ntriples-write added_graph all_fit
