-- ===== src/Tests/Server/Guards.antt =====
-- The guards in front of the handlers at concrete inputs.
use solid_pod_rs.Wac.Resolver.Server.{find_effective_acl_dyn}
use solid_pod_rs.Ldp.Path.{is_container}
use solid_pod_rs.Prelude.{◌≡◌, ◌⊎◌, refl, true, none}
use solid_pod_rs.Text.{Str, text, starts_with, str_eq, ends_with, split, contains}
use solid_pod_rs.Wac.Mode.{write}
use solid_pod_rs.Security.Dotfile.Allowlist.{with_defaults, is_allowed}
use solid_pod_rs.Storage.Memory.{normalize}
use solid_pod_rs.Server.Handlers.{respond, enforce_write}
use solid_pod_rs.Server.Handlers.Guard.{IsAuthorized, Changes}
use solid_pod_rs.Server.Handlers.Routes.{put_method, handle}
use solid_pod_rs.Server.Middleware.{serve}
use solid_pod_rs.Server.Middleware.Clean.{IsStraight, IsListed, serve-IsAuthorized}
use solid_pod_rs.Tests.Server.{env, pod, request, put_differs}

abbrev unescaped : Str → Str
unescaped s = s

guarded_put-differs :
    Changes env pod
      (serve env unescaped unescaped with_defaults 1
        (text "u")
        put_method
        pod
        (request (text "new")))
      (text "/a/b")
unfolding serve handle starts_with is_container text str_eq is_allowed ends_with split enforce_write
    contains find_effective_acl_dyn
guarded_put-differs = put_differs

serve-IsAuthorized_example :
    IsStraight unescaped (text "/a/b")
    × ((starts_with (text "/.well-known/") (text "/a/b") ≡ true)
        ⊎ IsListed with_defaults (text "/a/b"))
    × IsAuthorized env pod (text "/a/b") write none
    × (target : Str) × (text "/a/b" ≡ target)
    × (normalize target ≡ normalize (text "/a/b"))
serve-IsAuthorized_example =
    serve-IsAuthorized env unescaped unescaped with_defaults 1 (text "u") put_method pod
      (request (text "new")) (text "/a/b") guarded_put-differs

hidden_put_refused :
    serve env unescaped unescaped with_defaults 1
      (text "u")
      put_method
      pod
      (record (request (text "new")) { path = text "/.env" })
    ≡ (respond 403, pod)
unfolding serve starts_with text is_allowed split str_eq
hidden_put_refused = refl

upward_put_refused :
    serve env unescaped unescaped with_defaults 1
      (text "u")
      put_method
      pod
      (record (request (text "new")) { path = text "/.well-known/../b" })
    ≡ (respond 400, pod)
unfolding serve starts_with text split str_eq
upward_put_refused = refl
