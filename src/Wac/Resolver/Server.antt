-- ===== src/Wac/Resolver/Server.antt =====
-- The server's own copy of the walk: `find_effective_acl_dyn`
-- (crates/solid-pod-rs-server/src/lib.rs), against the library's.
use solid_pod_rs.Prelude.{
  ℕ, zero, suc, ◌+◌, ◌<◌, ◌≡◌, ◌≢◌, ◌∙◌, refl, sym, ap, fun_ext, false, Option, none, some, length,
  arith, Bool-cases, inl, inr,
}
use solid_pod_rs.Error.{PodError, bad_request, payload_too_large, Result, ok, err}
use solid_pod_rs.Text.{Str}
use solid_pod_rs.Wac.Document.{AclDocument}
use solid_pod_rs.Wac.Bounds.{parse_jsonld_acl}
use solid_pod_rs.Wac.Bounds.Depth.{IsByteLimit, parse_jsonld_acl-large}
use solid_pod_rs.Wac.Resolver.{
  acl_key, Parsers, Body, Visit, answer, fail, go_on, after_jsonld, visit_jsonld, visit_body, visit,
  walk, find_effective_acl, is_top, parent,
}
use solid_pod_rs.Wac.Resolver.Walk.{
  weight, weight-parent, walk-fuel, Visit-cases, walk-answer, walk-fail, walk-top, walk-up,
}
use solid_pod_rs.Wac.Resolver.Paths.{IsAbove, parent-IsAbove}
use solid_pod_rs.Wac.Resolver.Nearest.{
  IsRoot, is_top_iff, ReadsTurtle, parsed_json, after_jsonld-cases, after_jsonld_unique,
  after_jsonld_unread,
}

module _ (ps : Parsers) where
  -- Only `BadRequest` ends the walk here.
  visit_jsonld_dyn : Body → Result AclDocument → Visit
  visit_jsonld_dyn b (ok doc) = answer doc
  visit_jsonld_dyn b (err bad_request) = fail bad_request
  visit_jsonld_dyn b (err e) = after_jsonld ps b

  visit_body_dyn : Option Body → Visit
  visit_body_dyn none = go_on
  visit_body_dyn (some b) =
      visit_jsonld_dyn b (parse_jsonld_acl ps.from_slice ps.env_bytes ps.env_depth b.bytes)

  unfoldable pub visit_dyn : (Str → Option Body) → Str → Visit
  unfolding visit_body_dyn visit_jsonld_dyn after_jsonld
  visit_dyn get path = visit_body_dyn (get (acl_key path))

  unfoldable pub find_effective_acl_dyn :
      (Str → Option Body) → Str → Option (Result (Option AclDocument))
  unfolding walk
  find_effective_acl_dyn get resource_path =
      walk (visit_dyn get) (length resource_path + 2) resource_path

  -- No stored body is larger than the parser's limit.
  abbrev pub NoneTooLarge : (Str → Option Body) → Type 0
  NoneTooLarge get =
      (key : Str) (b : Body)
      → get key ≡ some b
      → parse_jsonld_acl ps.from_slice ps.env_bytes ps.env_depth b.bytes ≢ err payload_too_large

  visit_jsonld-dyn :
      (b : Body) (r : Result AclDocument)
      → r ≢ err payload_too_large
      → visit_jsonld ps b r ≡ visit_jsonld_dyn b r
  unfolding visit_jsonld visit_jsonld_dyn
  visit_jsonld-dyn b r h = ground arith

  visit_body-dyn :
      (o : Option Body)
      → ((b : Body)
          → o ≡ some b
          → parse_jsonld_acl ps.from_slice ps.env_bytes ps.env_depth b.bytes
            ≢ err payload_too_large)
      → visit_body ps o ≡ visit_body_dyn o
  unfolding visit_body visit_body_dyn
  visit_body-dyn none h = refl
  visit_body-dyn (some b) h = visit_jsonld-dyn b _ (h b refl)

  -- Where no stored body is larger than the parser's limit, the server's walk and the library's
  -- give one answer.
  pub find_effective_acl_dyn-eq :
      (get : Str → Option Body) (path : Str)
      → NoneTooLarge get
      → find_effective_acl_dyn get path ≡ find_effective_acl ps get path
  unfolding find_effective_acl find_effective_acl_dyn visit visit_dyn
  find_effective_acl_dyn-eq get path h =
      let same : visit ps get ≡ visit_dyn get =
        fun_ext (λ p. visit_body-dyn (get (acl_key p)) (h (acl_key p))) in
      ap (λ at. walk at (length path + 2) path) (sym same)

  visit_jsonld_dyn-passes :
      (b : Body) (r : Result AclDocument) → visit_jsonld_dyn b r ≢ fail payload_too_large
  unfolding visit_jsonld_dyn
  visit_jsonld_dyn-passes b (ok doc) h = cc
  visit_jsonld_dyn-passes b (err e) h = elim (after_jsonld-cases ps b) [
    | inl (doc, k, reads) ↦ ground arith
    | inr (k, unread) ↦ ground arith
  ]

  visit_dyn-passes :
      (get : Str → Option Body) (path : Str) → visit_dyn get path ≢ fail payload_too_large
  unfolding visit_dyn
  visit_dyn-passes get path = go (get (acl_key path))
    where
      go : (o : Option Body) → visit_body_dyn o ≢ fail payload_too_large
      go none h = cc
      go (some b) h = visit_jsonld_dyn-passes b (parsed_json ps b) h

  walk-passes :
      (at : Str → Visit)
      → ((path : Str) → at path ≢ fail payload_too_large)
      → (fuel : ℕ) (path : Str) → walk at fuel path ≢ some (err payload_too_large)
  unfolding walk
  walk-passes at passes zero path h = cc
  walk-passes at passes (suc fuel) path h = elim (Visit-cases (at path)) [
    | inl (acl, e) ↦ cc (h, walk-answer at fuel path acl e)
    | inr (inl (x, e)) ↦
        let same : x ≡ payload_too_large =
          same_error x payload_too_large (walk at (suc fuel) path) (walk-fail at fuel path x e) h in
        passes path (e ∙ ap fail same)
    | inr (inr e) ↦ elim (Bool-cases (is_top path)) [
      | inl top ↦ cc (h, walk-top at fuel path e top)
      | inr low ↦ walk-passes at passes fuel (parent path) (sym (walk-up at fuel path e low) ∙ h)
    ]
  ]
    where
      same_error :
          (x y : PodError) (a : Option (Result (Option AclDocument)))
          → a ≡ some (err x)
          → a ≡ some (err y)
          → x ≡ y
      same_error x y a j k = cc

  large_dyn :
      (get : Str → Option Body) (path : Str) (b : Body) (limit : ℕ)
      → get (acl_key path) ≡ some b
      → IsByteLimit ps.env_bytes limit
      → limit < length b.bytes
      → (visit ps get path ≡ fail payload_too_large) × (visit_dyn get path ≡ after_jsonld ps b)
  unfolding visit visit_dyn
  large_dyn get path b limit e is_limit h =
      let large =
        parse_jsonld_acl-large ps.from_slice ps.env_bytes ps.env_depth b.bytes limit is_limit h in
      (rw (e, large) refl, rw (e, large) refl)

  walk-two :
      (at : Str → Visit) (path : Str)
      → walk at (length path + 2) path ≡ walk at (suc (length path + 1)) path
  walk-two at path =
      let same : length path + 2 ≡ suc (length path + 1) = omega arith in
      ap (λ n. walk at n path) same

  dyn-round :
      (get : Str → Option Body) (path : Str)
      → visit_dyn get path ≡ go_on
      → ¬ IsRoot path
      → find_effective_acl_dyn get path ≡ find_effective_acl_dyn get (parent path)
  unfolding find_effective_acl_dyn weight
  dyn-round get path e low =
      let not_top : is_top path ≡ false = elim (Bool-cases (is_top path)) [
        | inl top ↦ absurd (low ((is_top_iff path).0 top))
        | inr k ↦ k
      ] in
      let lower = weight-parent path not_top in
      walk-two (visit_dyn get) path
      ∙ walk-up (visit_dyn get) (length path + 1) path e not_top
      ∙ walk-fuel (visit_dyn get) (length path + 1) (length (parent path) + 2) (parent path)
          (ground (arith, lower)) (ground (arith))

  -- Where the ACL of a path is larger than the limit on bytes that the environment sets, or 1 MiB
  -- where it sets none: the library's walk from that path ends with `payload_too_large`, and the
  -- server's does not. The server's answers with the document that is read from that ACL as Turtle,
  -- if there is one; else at the root it finds no ACL, and from any other path it gives what it
  -- gives from the path above.
  pub find_effective_acl-too_large :
      (get : Str → Option Body) (path : Str) (b : Body) (limit : ℕ)
      → get (acl_key path) ≡ some b
      → IsByteLimit ps.env_bytes limit
      → limit < length b.bytes
      → (find_effective_acl ps get path ≡ some (err payload_too_large))
        × (find_effective_acl_dyn get path ≢ some (err payload_too_large))
        × ((acl : AclDocument)
            → ReadsTurtle ps b acl
            → find_effective_acl_dyn get path ≡ some (ok (some acl)))
        × (((acl : AclDocument) → ¬ ReadsTurtle ps b acl)
            → (IsRoot path → find_effective_acl_dyn get path ≡ some (ok none))
              × ((¬ IsRoot path)
                  → (up : Str) × IsAbove path up
                    × (find_effective_acl_dyn get path ≡ find_effective_acl_dyn get up)))
  unfolding find_effective_acl find_effective_acl_dyn
  find_effective_acl-too_large get path b limit e is_limit h =
      let (fails, reads) = large_dyn get path b limit e is_limit h in
      let fuel = length path + 1 in
      (
        walk-two (visit ps get) path ∙ walk-fail (visit ps get) fuel path payload_too_large fails,
        walk-passes (visit_dyn get) (visit_dyn-passes get) (length path + 2) path,
        λ acl r.
            walk-two (visit_dyn get) path
            ∙ walk-answer (visit_dyn get) fuel path acl (reads ∙ after_jsonld_unique ps b acl r),
        λ unread.
            let passed = reads ∙ after_jsonld_unread ps b unread in
            (
              λ root.
                  walk-two (visit_dyn get) path
                  ∙ walk-top (visit_dyn get) fuel path passed ((is_top_iff path).1 root),
              λ low. (parent path, parent-IsAbove path, dyn-round get path passed low),
            ),
      )
