-- ===== src/Server/Handlers.antt =====
-- The handlers of GET, PUT, POST, PATCH and DELETE (crates/solid-pod-rs-server/src/lib.rs) over
-- the backend in memory. Of a response, the status and the headers that the handlers set are
-- kept, and the body of a GET; an error of a handler is the response that it gives. The
-- verification of the bearer token, the URL parser, the parsers of ACL documents, the test of
-- `HeaderValue::from_str`, the digest, and of `ldp.rs` the SPARQL and JSON patches and the JSON of a
-- container are arguments.
pub mod Guard
pub mod Routes
pub mod RoundTrip
use solid_pod_rs.Prelude.{
  ℕ, Bool, true, false, Option, none, some, List, [], ◌∷◌, ◌++◌, if◌then◌else◌,
}
use solid_pod_rs.Error.{
  PodError, not_found, forbidden, unauthenticated, bad_request, unsupported, precondition_failed,
  backend, Result, ok, err, ◌>>=◌,
}
use solid_pod_rs.Text.{Str, text, join}
use solid_pod_rs.Wac.Mode.{AccessMode, write, append}
use solid_pod_rs.Wac.Document.{AclDocument}
use solid_pod_rs.Wac.Condition.{RequestContext, default_with_client_and_issuer}
use solid_pod_rs.Wac.Origin.{UrlParser}
use solid_pod_rs.Wac.Gate.{evaluate_access_ctx_with_registry, wac_allow_header}
use solid_pod_rs.Wac.Resolver.{Body, Parsers}
use solid_pod_rs.Wac.Resolver.Server.{find_effective_acl_dyn}
use solid_pod_rs.Ldp.Path.{is_container, link_headers, resolve_slug}
use solid_pod_rs.Ldp.Graph.{Graph, new_graph}
use solid_pod_rs.Ldp.NTriples.{to_ntriples}
use solid_pod_rs.Ldp.NTriples.Literal.{as_bytes}
use solid_pod_rs.Ldp.Patch.{
  PatchOutcome, PatchDialect, n3, sparql_update, json_patch, patch_dialect_from_mime,
  apply_n3_patch, PatchCreateOutcome, created, applied, apply_patch_to_absent,
}
use solid_pod_rs.Storage.Memory.{MemoryBackend, Entry, get_entry, put, delete}

pub record Response : Type 0 where
  pub status : ℕ
  pub body : List ℕ
  pub content_type : Option Str
  pub wac_allow : Option Str
  pub etag : Option Str
  pub location : Option Str
  pub link : Option Str

abbrev pub respond : ℕ → Response
respond status = record {
  status = status;
  body = [];
  content_type = none;
  wac_allow = none;
  etag = none;
  location = none;
  link = none;
}

-- The request, with the pubkey that `extract_pubkey` gives for it.
pub record Request : Type 0 where
  pub path : Str
  pub pubkey : Option Str
  pub slug : Option Str
  pub content_type : Option Str
  pub body : List ℕ

pub record Env : Type 0 where
  pub acl_origin : Bool
  pub url_parse : UrlParser
  pub parsers : Parsers
  pub header_ok : Str → Bool
  pub compute_etag : List ℕ → Str
  pub container_representation : MemoryBackend → Str → Result (List ℕ)
  pub apply_sparql_patch : Graph → Str → Result PatchOutcome
  pub patch_json : (current : List ℕ) (patch : Str) → Result (List ℕ)

abbrev pub to_actix : PodError → Response
to_actix not_found = respond 404
to_actix bad_request = respond 400
to_actix unsupported = respond 415
to_actix forbidden = respond 403
to_actix unauthenticated = respond 401
to_actix precondition_failed = respond 412
to_actix _ = respond 500

abbrev pub patch_parse_err : PodError → Response
patch_parse_err unsupported = respond 400
patch_parse_err bad_request = respond 400
patch_parse_err e = to_actix e

abbrev pub agent_uri : Option Str → Option Str
agent_uri none = none
agent_uri (some pk) = some (text "did:nostr:" ++ pk)

abbrev pub or_default {ℓ} : {A : Type ℓ} → A → Option A → A
or_default a none = a
or_default a (some b) = b

as_body : Result Entry → Option Body
as_body (ok e) = some (record { bytes = e.body; content_type = e.meta.content_type })
as_body (err e) = none

unfoldable pub stored_body : MemoryBackend → Str → Option Body
unfolding as_body
stored_body s key = as_body (get_entry s key)

-- A handler's result: the response, and the storage behind it.
abbrev pub Handled : Type 0
Handled = Response × MemoryBackend

module _ (env : Env) where
  abbrev pub header_value : Str → Option Str
  header_value v = if env.header_ok v then some v else none

  abbrev pub links_of : Str → Option Str
  links_of path = header_value (join (text ", ") (link_headers path))

  abbrev pub quoted : Str → Option Str
  quoted etag = header_value (text "\"" ++ (etag ++ text "\""))

  -- The answer for a mode that is not granted.
  abbrev pub denial : Option AclDocument → Option Str → Str → Response
  denial acl_doc agent path =
      let allow = wac_allow_header env.acl_origin env.url_parse acl_doc agent path in
      record (respond (elim agent [ none ↦ 401 | some a ↦ 403 ])) {
        wac_allow = some (if env.header_ok allow then allow else []);
      }

  unfoldable pub grants : Option AclDocument → Str → AccessMode → Option Str → Bool
  grants acl_doc path mode agent =
      evaluate_access_ctx_with_registry env.acl_origin env.url_parse acl_doc
        (record { web_id = agent; client_id = none; issuer = none }) path mode none (λ _ _. false)
        default_with_client_and_issuer

  judge : Str → AccessMode → Option Str → Option (Result (Option AclDocument)) → Option Response
  unfolding grants
  judge path mode agent none = some (respond 500)
  judge path mode agent (some (err e)) = some (to_actix e)
  judge path mode agent (some (ok acl_doc)) =
      if grants acl_doc path mode agent then none else some (denial acl_doc agent path)

  -- `none` is `Ok(())`; a response ends the handler. The walk never runs out of fuel.
  unfoldable pub enforce_write : MemoryBackend → Str → AccessMode → Option Str → Option Response
  unfolding judge stored_body
  enforce_write s path mode agent =
      judge path mode agent (find_effective_acl_dyn env.parsers (stored_body s) path)

  abbrev pub guarded : Option Response → MemoryBackend → Handled → Handled
  guarded none s continue = continue
  guarded (some r) s continue = (r, s)

  get_answer : Str → Str → Result Entry → Response
  get_answer path wac_allow (ok e) = record (respond 200) {
    body = e.body;
    content_type = some (
        if env.header_ok e.meta.content_type
        then e.meta.content_type
        else text "application/octet-stream");
    etag = quoted e.meta.etag;
    wac_allow = header_value wac_allow;
    link = links_of path;
  }
  get_answer path wac_allow (err e) = to_actix e

  container_answer : Str → Str → Result (List ℕ) → Response
  container_answer path wac_allow (ok v) = record (respond 200) {
    body = v;
    content_type = some (text "application/ld+json");
    wac_allow = header_value wac_allow;
    link = links_of path;
  }
  container_answer path wac_allow (err e) = to_actix e

  unfoldable pub handle_get : MemoryBackend → Request → Handled
  unfolding get_answer container_answer
  handle_get s req =
      let agent = agent_uri req.pubkey in
      let allow = wac_allow_header env.acl_origin env.url_parse none agent req.path in
      if is_container req.path
      then (container_answer req.path allow (env.container_representation s req.path), s)
      else (get_answer req.path allow (get_entry s req.path), s)

  abbrev pub put_with : ℕ → MemoryBackend → Str → List ℕ → Str → Response → Handled
  put_with now s path body ct answer =
      let (meta, t) = put env.compute_etag now s path body ct in
      (record answer { etag = quoted meta.etag; link = links_of path }, t)

  abbrev pub content_type_or : Str → Request → Str
  content_type_or default req = or_default default req.content_type

  unfoldable pub handle_put : (now : ℕ) → MemoryBackend → Request → Handled
  handle_put now s req =
      if is_container req.path
      then (respond 405, s)
      else guarded (enforce_write s req.path write (agent_uri req.pubkey)) s (
          put_with now s req.path req.body (content_type_or (text "application/octet-stream") req)
            (respond 201))

  post_to : ℕ → MemoryBackend → Request → Result Str → Handled
  post_to now s req (err e) = (to_actix e, s)
  post_to now s req (ok target) =
      put_with now s target req.body (content_type_or (text "application/octet-stream") req)
        (record (respond 201) { location = header_value target })

  unfoldable pub handle_post : (now : ℕ) (uuid : Str) → MemoryBackend → Request → Handled
  unfolding post_to
  handle_post now uuid s req =
      guarded (enforce_write s req.path append (agent_uri req.pubkey)) s
        (post_to now s req (resolve_slug uuid req.path req.slug))

  -- The stored graph is written as N-Triples.
  abbrev pub store_graph : ℕ → MemoryBackend → Str → Graph → ℕ → Handled
  store_graph now s path g status = (
    respond status,
    (put env.compute_etag now s path (as_bytes (to_ntriples g)) (text "text/turtle")).1,
  )

  patched_answer : ℕ → MemoryBackend → Str → Result PatchOutcome → Handled
  patched_answer now s path (ok out) = store_graph now s path out.graph 204
  patched_answer now s path (err e) = (patch_parse_err e, s)

  json_answer : ℕ → MemoryBackend → Str → Str → Result (List ℕ) → Handled
  json_answer now s path ct (ok bytes) = (respond 204, (put env.compute_etag now s path bytes ct).1)
  json_answer now s path ct (err e) = (to_actix e, s)

  patch_existing : ℕ → MemoryBackend → Str → Entry → PatchDialect → Str → Handled
  unfolding patched_answer json_answer
  patch_existing now s path e n3 t = patched_answer now s path (apply_n3_patch new_graph t)
  patch_existing now s path e sparql_update t =
      patched_answer now s path (env.apply_sparql_patch new_graph t)
  patch_existing now s path e json_patch t =
      json_answer now s path e.meta.content_type (env.patch_json e.body t)

  created_answer : ℕ → MemoryBackend → Str → Result PatchCreateOutcome → Handled
  created_answer now s path (ok (created inserted graph)) = store_graph now s path graph 201
  created_answer now s path (ok (applied inserted deleted graph)) = (to_actix unsupported, s)
  created_answer now s path (err e) = (patch_parse_err e, s)

  patch_at : ℕ → MemoryBackend → Str → PatchDialect → Str → Result Entry → Handled
  unfolding patch_existing created_answer
  patch_at now s path dialect t (ok e) = patch_existing now s path e dialect t
  patch_at now s path dialect t (err not_found) =
      created_answer now s path (apply_patch_to_absent env.apply_sparql_patch dialect t)
  patch_at now s path dialect t (err e) = (to_actix e, s)

  patch_text : ℕ → MemoryBackend → Str → PatchDialect → Option Str → Handled
  unfolding patch_at
  patch_text now s path dialect none = (respond 400, s)
  patch_text now s path dialect (some t) = patch_at now s path dialect t (get_entry s path)

  patch_as : ℕ → MemoryBackend → Request → Option PatchDialect → Handled
  unfolding patch_text
  patch_as now s req none = (respond 415, s)
  patch_as now s req (some dialect) =
      patch_text now s req.path dialect (env.parsers.from_utf8 req.body)

  unfoldable pub handle_patch : (now : ℕ) → MemoryBackend → Request → Handled
  unfolding patch_as
  handle_patch now s req =
      if is_container req.path
      then (respond 405, s)
      else guarded (enforce_write s req.path append (agent_uri req.pubkey)) s
          (patch_as now s req (patch_dialect_from_mime (content_type_or [] req)))

  delete_answer : Result Bool × MemoryBackend → Handled
  delete_answer (ok b, t) = (respond 204, t)
  delete_answer (err e, t) = (to_actix e, t)

  unfoldable pub handle_delete : MemoryBackend → Request → Handled
  unfolding delete_answer
  handle_delete s req =
      guarded (enforce_write s req.path write (agent_uri req.pubkey)) s
        (delete_answer (delete s req.path))
