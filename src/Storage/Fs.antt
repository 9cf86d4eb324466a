-- ===== src/Storage/Fs.antt =====
-- The files of the backend on the file system (crates/solid-pod-rs/src/storage/fs.rs): which file a
-- path stands for. Reading and writing them is I/O.
use solid_pod_rs.Prelude.{Bool, true, false, ◌&&◌, ◌||◌, List, [], ◌∷◌, ◌++◌, if◌then◌else◌}
use solid_pod_rs.Error.{invalid_path, Result, ok, err, ◌>>=◌}
use solid_pod_rs.Text.{
  Str, text, str_eq, is_empty, has, contains, starts_with, ends_with, trim_start_matches,
}
use solid_pod_rs.Security.Dotfile.Allowlist.{
  Component, root_dir, cur_dir, parent_dir, normal, components,
}

abbrev pub meta_suffix : Str
meta_suffix = text ".meta.json"

absolute : Str → Str
absolute path =
    if is_empty path then b'/' ∷ [] else if starts_with (b'/' ∷ []) path then path else b'/' ∷ path

unfoldable pub normalize_file : Str → Result Str
unfolding absolute
normalize_file path =
    let p = absolute path in if contains (text "..") p || has 0 p then err invalid_path else ok p

abbrev component_eq : Component → Component → Bool
component_eq root_dir root_dir = true
component_eq cur_dir cur_dir = true
component_eq parent_dir parent_dir = true
component_eq (normal a) (normal b) = str_eq a b
component_eq _ _ = false

-- `Path::starts_with`, by components.
begins_with : List Component → List Component → Bool
begins_with [] full = true
begins_with (c ∷ root) [] = false
begins_with (c ∷ root) (d ∷ full) = component_eq c d && begins_with root full

-- `Path::join` of a relative path.
abbrev pub join_root : (root rel : Str) → Str
join_root root rel = if ends_with (b'/' ∷ []) root then root ++ rel else root ++ b'/' ∷ rel

below_root : (root norm : Str) → Result Str
unfolding begins_with
below_root root norm =
    let full = join_root root (trim_start_matches b'/' norm) in
    if begins_with (components root) (components full) then ok full else err invalid_path

unfoldable pub resolve_file : (root path : Str) → Result Str
unfolding normalize_file below_root
resolve_file root path = normalize_file path >>= below_root root

-- The sidecar with the content type of a file.
abbrev pub meta_path : Str → Str
meta_path data_path = data_path ++ meta_suffix
