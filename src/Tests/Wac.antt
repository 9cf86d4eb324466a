-- ===== src/Tests/Wac.antt =====
-- The access control theorems at concrete documents, paths and origins.
use solid_pod_rs.Prelude.{
  ℕ, ◌≡◌, ◌≢◌, refl, inl, true, false, Option, none, some, List, [], ◌∷◌, Memᴰ, arith,
}
use solid_pod_rs.Error.{Result, payload_too_large, bad_request, ok, err}
use solid_pod_rs.Text.{
  Str, text, str_eq, strip_prefix, starts_with, trim_end_matches, trim, join, to_ascii_lowercase,
}
use solid_pod_rs.Wac.Mode.{read, write, append, map_mode, mode_name}
use solid_pod_rs.Wac.Document.{
  IdOrIds, single, get_ids, ids_of, get_ids-ids_of, AclAuthorization, AclDocument,
}
use solid_pod_rs.Wac.Condition.{
  RequestContext, GroupMembership, default_with_client_and_issuer, empty_dispatcher,
}
use solid_pod_rs.Wac.Target.{normalize_path, path_matches, child_prefix}
use solid_pod_rs.Wac.Target.Meaning.{IsSelfOrChild, path_matches_iff}
use solid_pod_rs.Wac.Evaluator.{
  get_modes, agent_matches_with_groups, path_ok, rule_grants, base_grant, conditions_ok,
}
use solid_pod_rs.Wac.Evaluator.Meaning.{agent_matches_iff}
use solid_pod_rs.Wac.Origin.{
  UrlParser, check_origin, scan_graph, scan_patterns, extract_origin_patterns, parse_pattern,
  scan_pattern,
}
use solid_pod_rs.Wac.Origin.Dedup.{plain_decision, check_origin-plain}
use solid_pod_rs.Wac.Gate.{
  evaluate_access, evaluate_access_ctx, evaluate_access_ctx_with_registry, wac_allow_header,
}
use solid_pod_rs.Wac.Gate.Meaning.{Granted, evaluate_access_ctx_iff}
use solid_pod_rs.Wac.Gate.Order.{evaluate_access_ctx-append_of_write, evaluate_access_of_anonymous}
use solid_pod_rs.Wac.Bounds.{parse_jsonld_acl_with_limits, parse_jsonld_acl}
use solid_pod_rs.Wac.Bounds.Depth.{json_depth, parse_jsonld_acl_with_limits_lem}
use solid_pod_rs.Wac.Resolver.{Parsers, Body, visit, find_effective_acl}
use solid_pod_rs.Wac.Resolver.Nearest.{Nearest, ReadsTurtle, IsRoot, find_effective_acl-Nearest}
use solid_pod_rs.Wac.Resolver.Paths.{IsAbove}
use solid_pod_rs.Wac.Resolver.Server.{
  visit_dyn, find_effective_acl_dyn, find_effective_acl_dyn-eq, find_effective_acl-too_large,
}

abbrev one : Str → Option IdOrIds
one s = some (single (record { id = s }))

abbrev public_read : AclAuthorization
public_read = record {
  id = none;
  type = none;
  agent = none;
  agent_class = one (text "foaf:Agent");
  agent_group = none;
  origin = none;
  access_to = one (text "/");
  default = none;
  mode = one (text "acl:Read");
  condition = none;
}

abbrev alice : Str
alice = text "did:nostr:alice"

abbrev owner_rule : AclAuthorization
owner_rule = record public_read {
  agent = one alice;
  agent_class = none;
  origin = one (text "*");
  default = one (text "/");
  mode = one (text "acl:Write");
}

abbrev doc : AclDocument
doc = record { graph = some (public_read ∷ owner_rule ∷ []) }

abbrev no_urls : UrlParser
no_urls s = none

abbrev nobody : GroupMembership
nobody g a = false

abbrev alice_ctx : RequestContext
alice_ctx = record { web_id = some alice; client_id = none; issuer = none }

public_reads : evaluate_access true no_urls (some doc) none (text "/") read none ≡ false
unfolding evaluate_access text str_eq base_grant rule_grants get_modes map_mode get_ids
    agent_matches_with_groups path_ok path_matches check_origin trim_end_matches strip_prefix
    conditions_ok scan_graph scan_patterns extract_origin_patterns parse_pattern trim scan_pattern
public_reads = refl

alice_writes : evaluate_access false no_urls (some doc) (some alice) (text "/a/b") write none ≡ true
unfolding evaluate_access text str_eq base_grant rule_grants get_modes map_mode get_ids
    agent_matches_with_groups path_ok path_matches trim_end_matches strip_prefix child_prefix
    starts_with conditions_ok
alice_writes = refl

allow_text :
    wac_allow_header false no_urls (some doc) (some alice) (text "/")
    ≡ text "user=\"read write append\", public=\"read\""
unfolding wac_allow_header evaluate_access text str_eq base_grant rule_grants get_modes map_mode
    get_ids agent_matches_with_groups path_ok path_matches join trim_end_matches strip_prefix
    conditions_ok mode_name
allow_text = refl

alice_writes_ctx :
    evaluate_access_ctx false no_urls
      (some doc)
      alice_ctx
      (text "/a/b")
      write
      none
      nobody
      empty_dispatcher
    ≡ true
unfolding evaluate_access_ctx text str_eq base_grant rule_grants get_modes map_mode get_ids
    agent_matches_with_groups path_ok path_matches trim_end_matches strip_prefix child_prefix
    starts_with conditions_ok
alice_writes_ctx = refl

evaluate_access_ctx_iff_example :
    Granted false no_urls alice_ctx nobody empty_dispatcher (some doc) (text "/a/b") write none
evaluate_access_ctx_iff_example =
    (evaluate_access_ctx_iff false no_urls alice_ctx nobody empty_dispatcher (some doc)
        (text "/a/b") write none).0
      alice_writes_ctx

evaluate_access_ctx-append_of_write_example :
    evaluate_access_ctx false no_urls
      (some doc)
      alice_ctx
      (text "/a/b")
      append
      none
      nobody
      empty_dispatcher
    ≡ true
evaluate_access_ctx-append_of_write_example =
    evaluate_access_ctx-append_of_write false no_urls (some doc) alice_ctx (text "/a/b") none nobody
      empty_dispatcher alice_writes_ctx

anonymous_reads :
    evaluate_access_ctx_with_registry false no_urls
      (some doc)
      (record { web_id = none; client_id = none; issuer = none })
      (text "/")
      read
      none
      nobody
      default_with_client_and_issuer
    ≡ true
unfolding evaluate_access_ctx_with_registry text str_eq base_grant rule_grants get_modes map_mode
    get_ids agent_matches_with_groups path_ok path_matches trim_end_matches strip_prefix
    conditions_ok
anonymous_reads = refl

evaluate_access_of_anonymous_example :
    evaluate_access_ctx_with_registry false no_urls
      (some doc)
      alice_ctx
      (text "/")
      read
      none
      nobody
      default_with_client_and_issuer
    ≡ true
evaluate_access_of_anonymous_example =
    evaluate_access_of_anonymous false no_urls (some doc) alice_ctx alice (text "/") read none
      nobody default_with_client_and_issuer refl anonymous_reads

child_covered : path_matches (text "/notes/") (text "/notes/a") false ≡ true
unfolding path_matches text str_eq trim_end_matches strip_prefix child_prefix
child_covered = refl

path_matches_iff_example :
    IsSelfOrChild (normalize_path (text "/notes/")) (normalize_path (text "/notes/a"))
path_matches_iff_example = (path_matches_iff (text "/notes/") (text "/notes/a")).0.0 child_covered

agent_matches_iff_example : agent_matches_with_groups owner_rule (some alice) nobody ≡ true
unfolding get_ids
agent_matches_iff_example =
    (agent_matches_iff owner_rule (some alice) nobody).1 (inl (alice, refl, Memᴰ.head refl))

check_origin-plain_example :
    check_origin no_urls doc none ≡ plain_decision no_urls none (public_read ∷ owner_rule ∷ [])
check_origin-plain_example =
    (check_origin-plain no_urls doc none).0 (public_read ∷ owner_rule ∷ []) refl

abbrev no_json : List ℕ → Option AclDocument
no_json b = none

parse_jsonld_acl_with_limits_lem_example :
    parse_jsonld_acl_with_limits no_json (b'{' ∷ b'[' ∷ []) 10 1 ≡ err bad_request
unfolding json_depth
parse_jsonld_acl_with_limits_lem_example =
    (parse_jsonld_acl_with_limits_lem no_json (b'{' ∷ b'[' ∷ []) 10 1).1 (omega arith) (omega arith)

abbrev parsers : Parsers
parsers = record {
  from_slice = no_json;
  env_bytes = some 1;
  env_depth = none;
  from_utf8 = λ b. some b;
  turtle = λ t. some doc;
}

abbrev stored : Str → Option Body
stored key = some (record { bytes = b'{' ∷ b'}' ∷ []; content_type = text "text/turtle" })

find_effective_acl-Nearest_example :
    (r : Result (Option AclDocument)) × (find_effective_acl parsers stored (text "/a/b") ≡ some r)
    × Nearest parsers stored (text "/a/b") r
find_effective_acl-Nearest_example = find_effective_acl-Nearest parsers stored (text "/a/b")

large_refused : find_effective_acl parsers stored (text "/a/b") ≡ some (err payload_too_large)
unfolding find_effective_acl visit parse_jsonld_acl text
large_refused = refl

-- The server's walk takes the Turtle reading of the same body.
large_read : find_effective_acl_dyn parsers stored (text "/a/b") ≡ some (ok (some doc))
unfolding find_effective_acl_dyn visit_dyn parse_jsonld_acl text starts_with to_ascii_lowercase
large_read = refl

find_effective_acl-too_large_example :
    (find_effective_acl parsers stored (text "/a") ≡ some (err payload_too_large))
    × (find_effective_acl_dyn parsers stored (text "/a") ≢ some (err payload_too_large))
    × ((acl : AclDocument)
        → ReadsTurtle parsers
            (record { bytes = b'{' ∷ b'}' ∷ []; content_type = text "text/turtle" })
            acl
        → find_effective_acl_dyn parsers stored (text "/a") ≡ some (ok (some acl)))
    × (((acl : AclDocument)
          → ¬ ReadsTurtle parsers
              (record { bytes = b'{' ∷ b'}' ∷ []; content_type = text "text/turtle" })
              acl)
        → (IsRoot (text "/a") → find_effective_acl_dyn parsers stored (text "/a") ≡ some (ok none))
          × ((¬ IsRoot (text "/a"))
              → (up : Str) × IsAbove (text "/a") up
                × (find_effective_acl_dyn parsers stored (text "/a")
                    ≡ find_effective_acl_dyn parsers stored up)))
find_effective_acl-too_large_example =
    find_effective_acl-too_large parsers stored (text "/a")
      (record { bytes = b'{' ∷ b'}' ∷ []; content_type = text "text/turtle" }) 1 refl (inl refl)
      (omega arith)

abbrev empty_store : Str → Option Body
empty_store key = none

find_effective_acl_dyn-eq_example :
    find_effective_acl_dyn parsers empty_store (text "/a")
    ≡ find_effective_acl parsers empty_store (text "/a")
find_effective_acl_dyn-eq_example =
    find_effective_acl_dyn-eq parsers empty_store (text "/a") (λ key b e. absurd (cc e))

get_ids-ids_of_example : get_ids (some (ids_of (alice ∷ text "b" ∷ []))) ≡ alice ∷ text "b" ∷ []
get_ids-ids_of_example = get_ids-ids_of (alice ∷ text "b" ∷ [])
