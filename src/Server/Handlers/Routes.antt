-- ===== src/Server/Handlers/Routes.antt =====
-- The routes of the writing methods, and what a request through them can change.
use solid_pod_rs.Prelude.{
  ℕ, ◌≡◌, refl, ap, ◌∙◌, Bool, true, false, Option, none, some, if◌then◌else◌, Bool-cases, inl, inr,
}
use solid_pod_rs.Error.{not_found, PodError, Result, ok, err}
use solid_pod_rs.Text.{Str, str_eq}
use solid_pod_rs.Text.Laws.{str_eq_iff}
use solid_pod_rs.Wac.Mode.{AccessMode, write, append}
use solid_pod_rs.Ldp.Path.{is_container, resolve_slug}
use solid_pod_rs.Ldp.Patch.{
  PatchDialect, n3, sparql_update, json_patch, PatchOutcome, apply_n3_patch, PatchCreateOutcome,
  created, applied, apply_patch_to_absent,
}
use solid_pod_rs.Ldp.Graph.{new_graph}
use solid_pod_rs.Storage.Memory.{MemoryBackend, Entry, normalize, get_entry, delete}
use solid_pod_rs.Storage.Memory.Laws.{get_entry-delete}
use solid_pod_rs.Server.Handlers.{
  Env, Request, Response, Handled, agent_uri, enforce_write, handle_put, handle_post, handle_patch,
  handle_delete, post_to, patch_as, patch_text, patch_at, patch_existing, patched_answer,
  json_answer, created_answer, delete_answer,
}
use solid_pod_rs.Server.Handlers.Guard.{
  IsAuthorized, enforce_write_iff, Changes, guarded-Changes, put-Changes,
}

pub data Method : Type 0 where
  put_method post_method patch_method delete_method : Method

module _ (env : Env) (now : ℕ) (uuid : Str) where
  unfoldable pub handle : Method → MemoryBackend → Request → Handled
  unfolding handle_put handle_post handle_patch handle_delete
  handle put_method s req = handle_put env now s req
  handle post_method s req = handle_post env now uuid s req
  handle patch_method s req = handle_patch env now s req
  handle delete_method s req = handle_delete env s req

-- The mode that a handler asks for.
abbrev pub required : Method → AccessMode
required put_method = write
required post_method = append
required patch_method = append
required delete_method = write

-- The path that a request is about: that of the request, or the new member for a POST.
abbrev pub IsAbout : Str → Method → Request → Str → Type 0
IsAbout uuid post_method req target = resolve_slug uuid req.path req.slug ≡ ok target
IsAbout uuid _ req target = req.path ≡ target

module _ (env : Env) (now : ℕ) where
  patched-Changes :
      (s : MemoryBackend) (path key : Str) (r : Result PatchOutcome)
      → Changes env s (patched_answer env now s path r) key
      → normalize path ≡ normalize key
  unfolding patched_answer
  patched-Changes s path key (ok out) c = put-Changes env now s path _ _ key c
  patched-Changes s path key (err e) c = absurd (c refl)

  json-Changes :
      (s : MemoryBackend) (path ct key : Str) (r : Result _)
      → Changes env s (json_answer env now s path ct r) key
      → normalize path ≡ normalize key
  unfolding json_answer
  json-Changes s path ct key (ok b) c = put-Changes env now s path _ _ key c
  json-Changes s path ct key (err e) c = absurd (c refl)

  created-Changes :
      (s : MemoryBackend) (path key : Str) (r : Result PatchCreateOutcome)
      → Changes env s (created_answer env now s path r) key
      → normalize path ≡ normalize key
  unfolding created_answer
  created-Changes s path key (ok (created i g)) c = put-Changes env now s path _ _ key c
  created-Changes s path key (ok (applied i d g)) c = absurd (c refl)
  created-Changes s path key (err e) c = absurd (c refl)

  existing-Changes :
      (s : MemoryBackend) (path key : Str) (e : Entry) (d : PatchDialect) (t : Str)
      → Changes env s (patch_existing env now s path e d t) key
      → normalize path ≡ normalize key
  unfolding patch_existing
  existing-Changes s path key e n3 t c = patched-Changes s path key (apply_n3_patch new_graph t) c
  existing-Changes s path key e sparql_update t c =
      patched-Changes s path key (env.apply_sparql_patch new_graph t) c
  existing-Changes s path key e json_patch t c =
      json-Changes s path e.meta.content_type key (env.patch_json e.body t) c

  error-Changes :
      (s : MemoryBackend) (path key : Str) (d : PatchDialect) (t : Str) (e : PodError)
      → Changes env s (patch_at env now s path d t (err e)) key
      → normalize path ≡ normalize key
  unfolding patch_at
  error-Changes s path key d t not_found c =
      created-Changes s path key (apply_patch_to_absent env.apply_sparql_patch d t) c
  error-Changes s path key d t e c = absurd (c refl)

  at-Changes :
      (s : MemoryBackend) (path key : Str) (d : PatchDialect) (t : Str) (r : Result Entry)
      → Changes env s (patch_at env now s path d t r) key
      → normalize path ≡ normalize key
  unfolding patch_at
  at-Changes s path key d t (ok e) c = existing-Changes s path key e d t c
  at-Changes s path key d t (err e) c = error-Changes s path key d t e c

  text-Changes :
      (s : MemoryBackend) (path key : Str) (d : PatchDialect) (t : Option Str)
      → Changes env s (patch_text env now s path d t) key
      → normalize path ≡ normalize key
  unfolding patch_text
  text-Changes s path key d none c = absurd (c refl)
  text-Changes s path key d (some t) c = at-Changes s path key d t (get_entry s path) c

  patch-Changes :
      (s : MemoryBackend) (req : Request) (key : Str) (d : Option PatchDialect)
      → Changes env s (patch_as env now s req d) key
      → normalize req.path ≡ normalize key
  unfolding patch_as
  patch-Changes s req key none c = absurd (c refl)
  patch-Changes s req key (some d) c =
      text-Changes s req.path key d (env.parsers.from_utf8 req.body) c

  post-Changes :
      (s : MemoryBackend) (req : Request) (key : Str) (r : Result Str)
      → Changes env s (post_to env now s req r) key
      → (target : Str) × (r ≡ ok target) × (normalize target ≡ normalize key)
  unfolding post_to
  post-Changes s req key (ok target) c = (target, refl, put-Changes env now s target _ _ key c)
  post-Changes s req key (err e) c = absurd (c refl)

  delete_answer-state : (r : Result Bool × MemoryBackend) → (delete_answer env r).1 ≡ r.1
  unfolding delete_answer
  delete_answer-state (ok b, t) = refl
  delete_answer-state (err e, t) = refl

  delete-Changes :
      (s : MemoryBackend) (path key : Str)
      → Changes env s (delete_answer env (delete s path)) key
      → normalize path ≡ normalize key
  delete-Changes s path key c =
      let moved = λ (e : get_entry (delete s path).1 key ≡ get_entry s key).
        c (ap (λ t. get_entry t key) (delete_answer-state (delete s path)) ∙ e) in
      elim (Bool-cases (str_eq (normalize path) (normalize key))) [
        | inl e ↦ (str_eq_iff (normalize path) (normalize key)).0 e
        | inr e ↦ elim (get_entry-delete s path key) [
          | inl (gone, same) ↦ absurd (moved (ap (λ r. get_entry r.1 key) same))
          | inr (done, at) ↦ absurd (moved (at ∙ rw e refl))
        ]
      ]

  unless-Changes :
      (s : MemoryBackend) (b : Bool) (r : Response) (h : Handled) (key : Str)
      → Changes env s (if b then (r, s) else h) key
      → Changes env s h key
  unless-Changes s true r h key c = absurd (c refl)
  unless-Changes s false r h key c = c

  module _ (uuid : Str) where
    handle-Changes :
        (m : Method) (s : MemoryBackend) (req : Request) (key : Str)
        → Changes env s (handle env now uuid m s req) key
        → (enforce_write env s req.path (required m) (agent_uri req.pubkey) ≡ none)
          × (target : Str) × IsAbout uuid m req target
          × (normalize target ≡ normalize key)
    unfolding handle handle_put handle_post handle_patch handle_delete
    handle-Changes put_method s req key c =
        let (granted, d) =
          guarded-Changes env s _ _ key (unless-Changes s (is_container req.path) _ _ key c) in
        (granted, req.path, refl, put-Changes env now s req.path _ _ key d)
    handle-Changes post_method s req key c =
        let (granted, d) = guarded-Changes env s _ _ key c in
        let (target, e, n) = post-Changes s req key (resolve_slug uuid req.path req.slug) d in
        (granted, target, e, n)
    handle-Changes patch_method s req key c =
        let (granted, d) =
          guarded-Changes env s _ _ key (unless-Changes s (is_container req.path) _ _ key c) in
        (granted, req.path, refl, patch-Changes s req key _ d)
    handle-Changes delete_method s req key c =
        let (granted, d) = guarded-Changes env s _ _ key c in
        (granted, req.path, refl, delete-Changes s req.path key d)

    -- A request through a writing method changes what a path holds only if the path is the one that
    -- the request is about, up to the leading slash, and some rule of the ACL that is effective for
    -- the path of the request grants the agent the mode that the method asks for: Write for PUT and
    -- DELETE, Append for POST and PATCH.
    pub handle-IsAuthorized :
        (m : Method) (s : MemoryBackend) (req : Request) (key : Str)
        → Changes env s (handle env now uuid m s req) key
        → IsAuthorized env s req.path (required m) (agent_uri req.pubkey)
          × (target : Str) × IsAbout uuid m req target
          × (normalize target ≡ normalize key)
    handle-IsAuthorized m s req key c =
        let (granted, target, e, n) = handle-Changes m s req key c in
        (
          (enforce_write_iff env s req.path (required m) (agent_uri req.pubkey)).0 granted,
          target,
          e,
          n,
        )
