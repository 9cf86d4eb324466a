-- ===== src/Tests/Idp.antt =====
-- The session store and the test for dotfiles at concrete inputs.
use solid_pod_rs.Prelude.{◌≡◌, refl, true, none, some, Memᴰ, [], ◌∷◌, if◌then◌else◌, ltb, List, all}
use solid_pod_rs.Text.{text, str_eq, split, starts_with}
use solid_pod_rs.Security.Dotfile.{not_allowed, IsServable, is_path_allowed, is_path_allowed_iff}
use solid_pod_rs.Idp.Session.{SessionStore, new_store, elapsed, issue_code, take_code}
use solid_pod_rs.Idp.Session.Codes.{
  Op, create_op, revoke_op, issue_op, take_op, run, spares, leaves, take_code-once,
  take_code-issued,
}

abbrev traffic : List Op
traffic =
    create_op 5 (text "s") (text "alice")
    ∷ issue_op 6 (text "other") (text "app") (text "alice") (text "/cb") none none
    ∷ take_op 7 (text "other")
    ∷ revoke_op (text "s")
    ∷ []

traffic-spares : all (spares (text "code")) traffic ≡ true
unfolding text str_eq
traffic-spares = refl

traffic-leaves : all (leaves (text "code")) traffic ≡ true
unfolding text str_eq
traffic-leaves = refl

abbrev issued : SessionStore
issued = (issue_code 0 (text "code") (text "app") (text "alice") (text "/cb") none none new_store).1

take_code-once_example :
    (take_code 9 (text "code") (run traffic (take_code 1 (text "code") issued).1)).0 ≡ none
take_code-once_example = take_code-once (text "code") traffic issued 1 9 traffic-spares

take_code-issued_example : (take_code 9 (text "code") (run traffic issued)).0 ≡ (
    if ltb new_store.code_ttl (elapsed 9 0)
    then none
    else some
        (issue_code 0 (text "code") (text "app") (text "alice") (text "/cb") none none new_store).0)
take_code-issued_example =
    take_code-issued 0 9 (text "code") (text "app") (text "alice") (text "/cb") none none traffic
      new_store traffic-leaves

allowed_path : is_path_allowed (text "/a/./.acl") ≡ none
unfolding is_path_allowed split text str_eq starts_with
allowed_path = refl

hidden_refused :
    is_path_allowed (text "/a/.git/..") ≡ some (not_allowed (text ".git") (text "/a/.git/.."))
unfolding is_path_allowed split text str_eq starts_with
hidden_refused = refl

segments : split b'/' (text "/a/./.acl") ≡ [] ∷ text "a" ∷ text "." ∷ text ".acl" ∷ []
unfolding split text
segments = refl

is_path_allowed_iff_example : IsServable (text ".acl")
is_path_allowed_iff_example =
    (is_path_allowed_iff (text "/a/./.acl")).0 allowed_path (text ".acl")
      (rw segments (Memᴰ.tail (Memᴰ.tail (Memᴰ.tail (Memᴰ.head refl)))))
