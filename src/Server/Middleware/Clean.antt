-- ===== src/Server/Middleware/Clean.antt =====
-- What comes through the guards.
use solid_pod_rs.Prelude.{
  ℕ, ◌≡◌, ◌⊎◌, inl, inr, refl, Bool, true, false, not, ◌&&◌, [], ◌∷◌, all-elim, if◌then◌else◌, Memᴰ,
  any-intro, Bool-cases, arith,
}
use solid_pod_rs.Text.{Str, text, split, starts_with}
use solid_pod_rs.Text.Laws.{elem_iff}
use solid_pod_rs.Security.Dotfile.Allowlist.{
  DotfileAllowlist, components, normal, admits_component, is_allowed,
}
use solid_pod_rs.Storage.Memory.{MemoryBackend, normalize}
use solid_pod_rs.Server.Handlers.{Env, Request, Response, Handled, agent_uri}
use solid_pod_rs.Server.Handlers.Guard.{IsAuthorized, Changes}
use solid_pod_rs.Server.Handlers.Routes.{Method, required, IsAbout, handle-IsAuthorized}
use solid_pod_rs.Server.Middleware.{
  is_navigation, path_is_traversal, traversal_guard, dotfile_guard, serve,
}

-- No segment of a path goes up or stays, decoded once or twice.
abbrev pub IsStraight : (percent_decode : Str → Str) → Str → Type 0
IsStraight percent_decode path =
    (seg : Str)
    → Memᴰ seg (split b'/' (percent_decode path))
      ⊎ Memᴰ seg (split b'/' (percent_decode (percent_decode path)))
    → is_navigation seg ≡ false

-- Each component that begins with a dot is on the list.
abbrev pub IsListed : DotfileAllowlist → Str → Type 0
IsListed l path =
    (name : Str)
    → Memᴰ (normal name) (components path)
    → starts_with (b'.' ∷ []) name ≡ true
    → Memᴰ name l.allowed

straight :
    (percent_decode : Str → Str) (path : Str)
    → path_is_traversal percent_decode path ≡ false
    → IsStraight percent_decode path
unfolding path_is_traversal
straight percent_decode path h seg m = elim (Bool-cases (is_navigation seg)) [
  | inr fine ↦ fine
  | inl bad ↦ elim m [
    | inl once ↦ let hit = any-intro is_navigation once bad in ground (arith, hit)
    | inr twice ↦ let hit = any-intro is_navigation twice bad in ground (arith, hit)
  ]
]

listed : (l : DotfileAllowlist) (path : Str) → is_allowed l path ≡ true → IsListed l path
unfolding is_allowed
listed l path h name m d =
    let admitted = all-elim (admits_component l) h m in
    (elem_iff name l.allowed).0 (ground (arith, admitted))

passed_guard :
    (env : Env) (s : MemoryBackend) (b : Bool) (r : Response) (h : Handled) (key : Str)
    → Changes env s (if b then (r, s) else h) key
    → (b ≡ false) × Changes env s h key
passed_guard env s true r h key c = absurd (c refl)
passed_guard env s false r h key c = (refl, c)

let_through :
    (l : DotfileAllowlist) (path : Str)
    → (not (starts_with (text "/.well-known/") path) && not (is_allowed l path)) ≡ false
    → (starts_with (text "/.well-known/") path ≡ true) ⊎ IsListed l path
let_through l path h = elim (Bool-cases (starts_with (text "/.well-known/") path)) [
  | inl known ↦ inl known
  | inr other ↦ let allowed : is_allowed l path ≡ true = ground arith in inr (listed l path allowed)
]

module _ (env : Env) (percent_decode merge_slashes : Str → Str) (l : DotfileAllowlist) (now : ℕ)
    (uuid : Str) where
  -- A request through the guards changes what a path holds only if no segment of its path is `.` or
  -- `..`, decoded once or twice; the path begins with `/.well-known/`, or each of its components
  -- that begins with a dot is on the allowlist; some rule of the ACL that is effective for the path
  -- with its slashes merged grants the agent the mode that the method asks for; and the changed
  -- path is the one that the request is about, up to the leading slash.
  pub serve-IsAuthorized :
      (m : Method) (s : MemoryBackend) (req : Request) (key : Str)
      → Changes env s (serve env percent_decode merge_slashes l now uuid m s req) key
      → IsStraight percent_decode req.path
        × ((starts_with (text "/.well-known/") req.path ≡ true) ⊎ IsListed l req.path)
        × IsAuthorized env s (merge_slashes req.path) (required m) (agent_uri req.pubkey)
        × (target : Str) × IsAbout uuid m (record req { path = merge_slashes req.path }) target
        × (normalize target ≡ normalize key)
  unfolding serve traversal_guard dotfile_guard
  serve-IsAuthorized m s req key c =
      let (open_path, d) = passed_guard env s _ _ _ key c in
      let (plain_path, e) = passed_guard env s _ _ _ key d in
      let (authorized, target, about, same) =
        handle-IsAuthorized env now uuid m s (record req { path = merge_slashes req.path }) key e in
      (
        straight percent_decode req.path plain_path,
        let_through l req.path open_path,
        authorized,
        target,
        about,
        same,
      )
