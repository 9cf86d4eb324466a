-- ===== src/Server/Middleware.antt =====
-- The guards in front of the handlers (crates/solid-pod-rs-server/src/lib.rs). The decoding of
-- percent escapes and the merging of slashes, which are functions of third-party crates, are
-- arguments. actix-web runs the guard that was registered last first.
pub mod Clean
use solid_pod_rs.Prelude.{ℕ, Bool, true, false, not, ◌&&◌, ◌||◌, List, [], ◌∷◌, any, if◌then◌else◌}
use solid_pod_rs.Text.{Str, text, str_eq, split, contains, starts_with, ends_with}
use solid_pod_rs.Security.Dotfile.Allowlist.{DotfileAllowlist, is_allowed}
use solid_pod_rs.Storage.Memory.{MemoryBackend}
use solid_pod_rs.Server.Handlers.{Env, Request, Handled, respond}
use solid_pod_rs.Server.Handlers.Routes.{Method, handle}

abbrev pub is_navigation : Str → Bool
is_navigation seg = str_eq seg (text "..") || str_eq seg (text ".")

module _ (percent_decode : Str → Str) where
  unfoldable pub path_is_traversal : Str → Bool
  path_is_traversal path =
      let once = percent_decode path in
      let twice = percent_decode once in
      if any is_navigation (split b'/' once) || any is_navigation (split b'/' twice)
      then true
      else (contains (text "/../") twice
          || (starts_with (text "../") twice || ends_with (text "/..") twice))

  -- The request goes on with its path merged, or the guard answers.
  unfoldable pub traversal_guard :
      (next : Request → MemoryBackend → Handled) → Request → MemoryBackend → Handled
  unfolding path_is_traversal
  traversal_guard next req s = if path_is_traversal req.path then (respond 400, s) else next req s

unfoldable pub dotfile_guard :
    DotfileAllowlist
    → (next : Request → MemoryBackend → Handled) → Request
    → MemoryBackend
    → Handled
dotfile_guard l next req s =
    if not (starts_with (text "/.well-known/") req.path) && not (is_allowed l req.path)
    then (respond 403, s)
    else next req s

-- The stack of `build_app` above the routes of the writing methods.
module _ (env : Env) (percent_decode merge_slashes : Str → Str) (l : DotfileAllowlist) (now : ℕ)
    (uuid : Str) where
  unfoldable pub serve : Method → MemoryBackend → Request → Handled
  unfolding dotfile_guard traversal_guard
  serve m s req =
      dotfile_guard l
        (traversal_guard percent_decode
          (λ r t. handle env now uuid m t (record r { path = merge_slashes r.path })))
        req s
