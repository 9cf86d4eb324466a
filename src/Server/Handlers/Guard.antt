-- ===== src/Server/Handlers/Guard.antt =====
-- Who may change what through the handlers.
use solid_pod_rs.Prelude.{
  ℕ, ◌+◌, ◌≡◌, ◌≢◌, ◌↔◌, refl, sym, ap, ◌∙◌, true, false, Option, none, some, length, arith,
  Bool-cases, inl, inr,
}
use solid_pod_rs.Error.{Result, ok, err}
use solid_pod_rs.Text.{Str, str_eq}
use solid_pod_rs.Text.Laws.{str_eq_iff}
use solid_pod_rs.Wac.Mode.{AccessMode}
use solid_pod_rs.Wac.Document.{AclDocument}
use solid_pod_rs.Wac.Condition.{default_with_client_and_issuer, dispatch_registry}
use solid_pod_rs.Wac.Gate.{evaluate_access_ctx_with_registry}
use solid_pod_rs.Wac.Gate.Meaning.{Granted, evaluate_access_ctx_iff}
use solid_pod_rs.Wac.Resolver.Server.{visit_dyn, find_effective_acl_dyn}
use solid_pod_rs.Wac.Resolver.Walk.{levels, first_decisive, walk-levels, weight}
use solid_pod_rs.Storage.Memory.{MemoryBackend, normalize, get_entry, put}
use solid_pod_rs.Storage.Memory.Laws.{get_entry-put}
use solid_pod_rs.Server.Handlers.{
  Env, Response, Handled, stored_body, enforce_write, judge, grants, guarded,
}

module _ (env : Env) where
  -- The answer of the walk for a path: that of the first level that decides.
  unfoldable pub effective : MemoryBackend → Str → Result (Option AclDocument)
  effective s path =
      first_decisive (visit_dyn env.parsers (stored_body s)) (levels (length path + 2) path)

  pub find_effective_acl_dyn-nearest :
      (s : MemoryBackend) (path : Str)
      → find_effective_acl_dyn env.parsers (stored_body s) path ≡ some (effective s path)
  unfolding find_effective_acl_dyn effective weight
  find_effective_acl_dyn-nearest s path =
      walk-levels (visit_dyn env.parsers (stored_body s)) (length path + 2) path (ground arith)

  -- Some rule of the effective ACL grants the agent the mode on the path.
  abbrev pub IsAuthorized : MemoryBackend → Str → AccessMode → Option Str → Type 0
  IsAuthorized s path mode agent =
      (acl_doc : Option AclDocument) × (effective s path ≡ ok acl_doc)
      × Granted env.acl_origin env.url_parse
          (record { web_id = agent; client_id = none; issuer = none }) (λ _ _. false)
          (dispatch_registry default_with_client_and_issuer) acl_doc path mode none

  grants_iff :
      (acl_doc : Option AclDocument) (path : Str) (mode : AccessMode) (agent : Option Str)
      → (grants env acl_doc path mode agent ≡ true)
        ↔ Granted env.acl_origin env.url_parse
            (record { web_id = agent; client_id = none; issuer = none })
            (λ _ _. false)
            (dispatch_registry default_with_client_and_issuer)
            acl_doc
            path
            mode
            none
  unfolding grants evaluate_access_ctx_with_registry
  grants_iff acl_doc path mode agent =
      evaluate_access_ctx_iff env.acl_origin env.url_parse
        (record { web_id = agent; client_id = none; issuer = none }) (λ _ _. false)
        (dispatch_registry default_with_client_and_issuer) acl_doc path mode none

  judge-elim :
      (s : MemoryBackend) (path : Str) (mode : AccessMode) (agent : Option Str)
      (r : Result (Option AclDocument))
      → effective s path ≡ r
      → judge env path mode agent (some r) ≡ none
      → IsAuthorized s path mode agent
  unfolding judge
  judge-elim s path mode agent (err e) h k = cc
  judge-elim s path mode agent (ok acl_doc) h k =
      (acl_doc, h, (grants_iff acl_doc path mode agent).0 (ground arith))

  -- A write is let through exactly if the nearest ACL that decides grants the mode to the agent.
  pub enforce_write_iff :
      (s : MemoryBackend) (path : Str) (mode : AccessMode) (agent : Option Str)
      → (enforce_write env s path mode agent ≡ none) ↔ IsAuthorized s path mode agent
  unfolding enforce_write
  enforce_write_iff s path mode agent = (
    λ h.
        judge-elim s path mode agent (effective s path) refl
          (ap (judge env path mode agent) (sym (find_effective_acl_dyn-nearest s path)) ∙ h),
    λ (acl_doc, e, g).
        unfold judge in
        rw (find_effective_acl_dyn-nearest s path, e, (grants_iff acl_doc path mode agent).1 g),
  )

  abbrev pub Changes : MemoryBackend → Handled → Str → Type 0
  Changes s h key = get_entry h.1 key ≢ get_entry s key

  pub guarded-Changes :
      (s : MemoryBackend) (o : Option Response) (h : Handled) (key : Str)
      → Changes s (guarded env o s h) key
      → (o ≡ none) × Changes s h key
  guarded-Changes s none h key c = (refl, c)
  guarded-Changes s (some r) h key c = absurd (c refl)

  pub put-Changes :
      (now : ℕ) (s : MemoryBackend) (path : Str) (body : _) (ct key : Str)
      → get_entry (put env.compute_etag now s path body ct).1 key ≢ get_entry s key
      → normalize path ≡ normalize key
  put-Changes now s path body ct key c =
      elim (Bool-cases (str_eq (normalize path) (normalize key))) [
        | inl e ↦ (str_eq_iff _ _).0 e
        | inr e ↦ absurd (c (get_entry-put env.compute_etag now s path key body ct ∙ rw e refl))
      ]
