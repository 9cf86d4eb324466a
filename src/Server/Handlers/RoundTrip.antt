-- ===== src/Server/Handlers/RoundTrip.antt =====
-- What a GET gives after a PUT, and what a PATCH leaves of a resource.
use solid_pod_rs.Prelude.{ℕ, ◌≡◌, refl, ◌∙◌, false, some, [], Memᴰ, arith, inl, inr, ◌⊎◌}
use solid_pod_rs.Error.{Result, ok}
use solid_pod_rs.Text.{Str, text}
use solid_pod_rs.Text.Laws.{str_eq_refl}
use solid_pod_rs.Wac.Mode.{write, append}
use solid_pod_rs.Ldp.Path.{is_container}
use solid_pod_rs.Ldp.Graph.{Graph, Triple, new_graph, contains}
use solid_pod_rs.Ldp.NTriples.{to_ntriples}
use solid_pod_rs.Ldp.NTriples.Literal.{as_bytes}
use solid_pod_rs.Ldp.Patch.{PatchOutcome, n3, patch_dialect_from_mime, apply_n3_patch}
use solid_pod_rs.Ldp.Patch.Effect.{Parses, Effect, Applies, Refuses, apply_n3_patch_lem}
use solid_pod_rs.Storage.Memory.{MemoryBackend, Entry, normalize, get_entry, put, meta_of}
use solid_pod_rs.Storage.Memory.Laws.{get_entry-put}
use solid_pod_rs.Server.Handlers.{
  Env, Request, agent_uri, handle_get, handle_put, handle_patch, get_answer, patch_as, patch_text,
  patch_at, patch_existing, patched_answer, content_type_or,
}
use solid_pod_rs.Server.Handlers.Guard.{IsAuthorized, enforce_write_iff}

module _ (env : Env) (now : ℕ) (s : MemoryBackend) where
  -- After a PUT that the ACL grants, on a path of no container: the answer is 201, and a GET of the
  -- path by anyone, whatever the ACLs say, gives 200, the body of the PUT and the tag that the PUT
  -- announced. The handler of GET does not ask for a grant, although the documentation says that
  -- every request does.
  pub handle_get-put :
      (wr rd : Request)
      → is_container wr.path ≡ false
      → IsAuthorized env s wr.path write (agent_uri wr.pubkey)
      → rd.path ≡ wr.path
      → ((handle_put env now s wr).0.status ≡ 201)
        × ((handle_get env (handle_put env now s wr).1 rd).0.status ≡ 200)
        × ((handle_get env (handle_put env now s wr).1 rd).0.body ≡ wr.body)
        × ((handle_get env (handle_put env now s wr).1 rd).0.etag
            ≡ (handle_put env now s wr).0.etag)
  unfolding handle_put handle_get put get_answer
  handle_get-put wr rd h auth e =
      let granted = (enforce_write_iff env s wr.path write (agent_uri wr.pubkey)).1 auth in
      let stored = get_entry-put env.compute_etag now s wr.path wr.path wr.body in
      rw (h, granted, e, h, stored _, str_eq_refl (normalize wr.path)) (refl, refl, refl, refl)

  -- What a path holds is a graph in which exactly the triples of another one stand.
  abbrev pub HoldsOnly : MemoryBackend → Str → Graph → Type 0
  HoldsOnly t path ins =
      (e : Entry) × (g : Graph) × (get_entry t path ≡ ok e)
      × (e.body ≡ as_bytes (to_ntriples g))
      × ((x : Triple) → contains g x ≡ contains ins x)

  only_inserted :
      (ins del : Graph) (out : PatchOutcome)
      → Effect new_graph ins del out
      → (x : Triple) → contains out.graph x ≡ contains ins x
  unfolding contains
  only_inserted ins del out effect x = effect.triples x ∙ ground arith

  stored_graph :
      (path : Str) (ins del : Graph) (out : PatchOutcome)
      → Effect new_graph ins del out
      → HoldsOnly (patched_answer env now s path (ok out)).1 path ins
  unfolding patched_answer
  stored_graph path ins del out effect =
      let body = as_bytes (to_ntriples out.graph) in
      (
        record { body = body; meta = meta_of env.compute_etag now body (text "text/turtle") },
        out.graph,
        get_entry-put env.compute_etag now s path path body (text "text/turtle")
            ∙ rw (str_eq_refl (normalize path)) refl,
        refl,
        only_inserted ins del out effect,
      )

  patched_answer-cases :
      (path : Str) (ins del wh : Graph) (r : Result PatchOutcome)
      → Applies new_graph ins del wh r ⊎ Refuses new_graph ins del wh r
      → (((patched_answer env now s path r).0.status ≡ 204)
          × HoldsOnly (patched_answer env now s path r).1 path ins)
        ⊎ (((patched_answer env now s path r).0.status ≡ 412)
            × ((patched_answer env now s path r).1 ≡ s)
            × (x : Triple) × Memᴰ x wh.triples)
  unfolding patched_answer
  patched_answer-cases path ins del wh r (inl (out, e, effect, all_in)) =
      inl (rw e refl, rw e (stored_graph path ins del out effect))
  patched_answer-cases path ins del wh r (inr (e, x, m, f)) = inr (rw e refl, rw e refl, x, m)

  -- An N3 patch that the ACL grants, on a path that holds a resource: whatever triples the resource
  -- held, either the answer is 204 and the path then holds a graph of exactly the triples that the
  -- patch inserts, or the answer is 412, nothing changes, and the patch has a `where` triple.
  pub handle_patch-forgets :
      (req : Request) (old : Entry) (t : Str) (ins del wh : Graph)
      → is_container req.path ≡ false
      → IsAuthorized env s req.path append (agent_uri req.pubkey)
      → patch_dialect_from_mime (content_type_or env [] req) ≡ some n3
      → env.parsers.from_utf8 req.body ≡ some t
      → get_entry s req.path ≡ ok old
      → Parses t ins del wh
      → (((handle_patch env now s req).0.status ≡ 204)
          × HoldsOnly (handle_patch env now s req).1 req.path ins)
        ⊎ (((handle_patch env now s req).0.status ≡ 412)
            × ((handle_patch env now s req).1 ≡ s)
            × (x : Triple) × Memᴰ x wh.triples)
  unfolding handle_patch patch_as patch_text patch_at patch_existing
  handle_patch-forgets req old t ins del wh h auth d u e parsed =
      let granted = (enforce_write_iff env s req.path append (agent_uri req.pubkey)).1 auth in
      rw (h, granted, d, u, e)
        (patched_answer-cases req.path ins del wh (apply_n3_patch new_graph t)
          (apply_n3_patch_lem new_graph ins del wh t parsed))
