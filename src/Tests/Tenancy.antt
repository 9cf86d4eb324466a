-- ===== src/Tests/Tenancy.antt =====
-- The pod of a host and the quota of a pod at concrete inputs.
use solid_pod_rs.Text.Map.{lookup}
use solid_pod_rs.Wac.Resolver.{before_last}
use solid_pod_rs.Prelude.{◌≡◌, refl, true, false, some, [], ◌∷◌, ◌++◌, List, inr, arith}
use solid_pod_rs.Text.{
  Str, text, to_ascii_lowercase, contains, str_eq, trim, strip_suffix, ends_with,
}
use solid_pod_rs.Multitenant.{
  strip_port, remove_dotdot, scrub_dotdot, base_of, resolve_subdomain, is_file_like_label,
}
use solid_pod_rs.Multitenant.Labels.{
  undotted, IsLabel, scrub_dotdot-settled, resolve_subdomain-IsLabel,
}
use solid_pod_rs.Quota.{
  effective_or, holds, file, dir, end, dir_size, effective, read_sidecar, record_write,
  write_sidecar, check,
}
use solid_pod_rs.Quota.Cap.{Op, upload, remove, IsCapped, run, run-IsCapped}

pod_of_alice :
    (resolve_subdomain (text "pods.org") (text "Al..ice.pods.org:80") (text "/x")).pod
    ≡ some (text "alice")
unfolding resolve_subdomain str_eq to_ascii_lowercase strip_port before_last text trim strip_suffix
    is_file_like_label ends_with scrub_dotdot remove_dotdot contains
pod_of_alice = refl

resolve_subdomain-IsLabel_example :
    (label : Str) × (to_ascii_lowercase (strip_port (text "Al..ice.pods.org:80"))
      ≡ label ++ b'.' ∷ base_of (text "pods.org"))
    × IsLabel label (text "alice")
resolve_subdomain-IsLabel_example =
    resolve_subdomain-IsLabel (text "pods.org") (text "Al..ice.pods.org:80") (text "/x")
      (text "alice") pod_of_alice

scrub_dotdot-settled_example :
    (remove_dotdot (scrub_dotdot (text "....//x")) ≡ scrub_dotdot (text "....//x"))
    × (contains (text "..") (scrub_dotdot (text "....//x")) ≡ false)
    × (undotted (scrub_dotdot (text "....//x")) ≡ undotted (text "....//x"))
scrub_dotdot-settled_example = scrub_dotdot-settled (text "....//x")

sizes :
    dir_size (
      holds (
        file (text "a") (some 3) (
          dir
            (text "b")
            (holds (file (text ".quota.json") (some 9) (file (text "c") (some 4) end)))
            end)))
    ≡ some 7
unfolding dir_size str_eq text
sizes = refl

abbrev uploads : List Op
uploads =
    upload true (text "alice") 60
    ∷ upload true (text "alice") 60
    ∷ remove true (text "alice") 10
    ∷ []

second_upload_refused :
    effective_or 100 (run 100 [] uploads) (text "alice")
    ≡ record { used_bytes = 50; limit_bytes = 100 }
unfolding effective_or effective read_sidecar lookup run record_write write_sidecar str_eq text
    check
second_upload_refused = refl

nothing_stored : IsCapped 100 []
unfolding effective_or effective read_sidecar lookup
nothing_stored pod = inr (omega arith)

run-IsCapped_example : IsCapped 100 (run 100 [] uploads)
run-IsCapped_example = run-IsCapped 100 [] uploads nothing_stored
