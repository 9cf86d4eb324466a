-- ===== src/Tests/Storage.antt =====
-- Files of the backend on the file system at concrete inputs.
use solid_pod_rs.Security.Dotfile.Allowlist.{components}
use solid_pod_rs.Prelude.{◌≡◌, refl}
use solid_pod_rs.Error.{invalid_path, ok, err}
use solid_pod_rs.Text.{text, contains, ends_with, split, str_eq, trim_start_matches}
use solid_pod_rs.Storage.Fs.{resolve_file, meta_path}

nested-file : resolve_file (text "/srv/pod") (text "a/b") ≡ ok (text "/srv/pod/a/b")
unfolding resolve_file contains text components ends_with split str_eq trim_start_matches
nested-file = refl

upward-file : resolve_file (text "/srv/pod") (text "/a/../../etc") ≡ err invalid_path
unfolding resolve_file contains text
upward-file = refl

-- The file of a resource can be the sidecar of another.
sidecar_collision :
    resolve_file (text "/srv/pod") (text "/a.meta.json") ≡ ok (meta_path (text "/srv/pod/a"))
unfolding resolve_file contains text components ends_with split str_eq trim_start_matches
sidecar_collision = refl
