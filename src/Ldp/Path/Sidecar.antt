-- ===== src/Ldp/Path/Sidecar.antt =====
-- Where the ACL of a container is advertised, and where it is looked for.
use mathlib.Core.List.{reverse-append}
use solid_pod_rs.Prelude.{
  ℕ, ◌≡◌, ◌≢◌, sym, ap, ◌∙◌, false, ◌&&◌, [], ◌∷◌, ◌++◌, ◌==◌, if◌then◌else◌, arith, length,
  length-append, Memᴰ, reverse, refl, Memᴰ-append_right,
}
use solid_pod_rs.Text.{
  is_some, ends_with, starts_with, strip_prefix, Str, text, str_eq, is_empty, trim_end_by,
  trim_end_matches,
}
use solid_pod_rs.Ldp.Path.{acl_link, link_headers, is_acl_path}
use solid_pod_rs.Wac.Target.{slash}
use solid_pod_rs.Wac.Resolver.{acl_key}

trim_one :
    (p : Str) (c : ℕ)
    → (c == b'/') ≡ false
    → trim_end_by (λ x. x == b'/') (p ++ c ∷ b'/' ∷ []) ≡ p ++ c ∷ []
unfolding trim_end_by
trim_one [] c h = ground arith
trim_one (x ∷ p) c h = rw (trim_one p c h) (go p)
  where
    go :
        (q : Str)
        → (if x == b'/' && is_empty (q ++ c ∷ []) then [] else x ∷ (q ++ c ∷ []))
          ≡ x ∷ (q ++ c ∷ [])
    go [] = ground arith
    go (y ∷ q) = ground arith

not_root : (p : Str) (c : ℕ) → str_eq (p ++ c ∷ b'/' ∷ []) slash ≡ false
unfolding str_eq
not_root [] c = ground arith
not_root (x ∷ []) c = ground arith
not_root (x ∷ y ∷ p) c = ground arith

not_acl : (p : Str) (c : ℕ) → is_acl_path (p ++ c ∷ b'/' ∷ []) ≡ false
unfolding is_acl_path ends_with starts_with strip_prefix text
not_acl p c =
    ap (λ r. is_some (strip_prefix (reverse (text ".acl")) r)) (reverse-append p (c ∷ b'/' ∷ []))

acl_linked :
    (p : Str) (c : ℕ)
    → Memᴰ (acl_link ((p ++ c ∷ b'/' ∷ []) ++ text ".acl")) (link_headers (p ++ c ∷ b'/' ∷ []))
unfolding link_headers
acl_linked p c = rw (not_acl p c) (Memᴰ-append_right _ (Memᴰ.head refl))

-- For a container path that ends in a single slash, the walk looks for the ACL under the path
-- without its slash and with `.acl` behind it, and not under the path with `.acl` behind its
-- slash, which is a target that `link_headers` advertises as the ACL of the container.
pub acl_key-of_container :
    (p : Str) (c : ℕ)
    → (c == b'/') ≡ false
    → (acl_key (p ++ c ∷ b'/' ∷ []) ≡ (p ++ c ∷ []) ++ text ".acl")
      × (acl_key (p ++ c ∷ b'/' ∷ []) ≢ (p ++ c ∷ b'/' ∷ []) ++ text ".acl")
      × Memᴰ (acl_link ((p ++ c ∷ b'/' ∷ []) ++ text ".acl")) (link_headers (p ++ c ∷ b'/' ∷ []))
unfolding acl_key trim_end_matches
acl_key-of_container p c h =
    let key : acl_key (p ++ c ∷ b'/' ∷ []) ≡ (p ++ c ∷ []) ++ text ".acl" =
      rw (not_root p c, trim_one p c h) in
    (
      key,
      λ e.
          let same = ap length (sym key ∙ e) in
          absurd (
            omega (
              arith,
              same,
              length-append {0} (p ++ c ∷ []) (text ".acl"),
              length-append {0} (p ++ c ∷ b'/' ∷ []) (text ".acl"),
              length-append {0} p (c ∷ []),
              length-append {0} p (c ∷ b'/' ∷ []),
            )),
      acl_linked p c,
    )
