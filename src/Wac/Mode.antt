-- ===== src/Wac/Mode.antt =====
-- Access modes (crates/solid-pod-rs/src/wac/mod.rs).
use solid_pod_rs.Prelude.{
  ◌≡◌, refl, ◌↔◌, Bool, true, false, List, [], ◌∷◌, arith, if◌then◌else◌, any, Memᴰ, any-elim,
  any-intro, subst, sym,
}
use solid_pod_rs.Text.{Str, text, elem}

pub data AccessMode : Type 0 where
  read write append control : AccessMode

abbrev pub all_modes : List AccessMode
all_modes = read ∷ write ∷ append ∷ control ∷ []

abbrev pub mode_eq : AccessMode → AccessMode → Bool
mode_eq read read = true
mode_eq write write = true
mode_eq append append = true
mode_eq control control = true
mode_eq _ _ = false

pub mode_eq_iff : (a b : AccessMode) → (mode_eq a b ≡ true) ↔ (a ≡ b)
mode_eq_iff read b = ground arith
mode_eq_iff a b = ground arith

abbrev read_refs : List Str
read_refs = text "acl:Read" ∷ text "http://www.w3.org/ns/auth/acl#Read" ∷ []

abbrev write_refs : List Str
write_refs = text "acl:Write" ∷ text "http://www.w3.org/ns/auth/acl#Write" ∷ []

abbrev append_refs : List Str
append_refs = text "acl:Append" ∷ text "http://www.w3.org/ns/auth/acl#Append" ∷ []

abbrev control_refs : List Str
control_refs = text "acl:Control" ∷ text "http://www.w3.org/ns/auth/acl#Control" ∷ []

unfoldable pub map_mode : Str → List AccessMode
map_mode mode_ref =
    if elem mode_ref read_refs
    then read ∷ []
    else if elem mode_ref write_refs
    then write ∷ append ∷ []
    else if elem mode_ref append_refs
    then append ∷ []
    else if elem mode_ref control_refs
    then control ∷ []
    else []

-- `to_uppercase` is the Unicode mapping of the standard library.
module _ (to_uppercase : Str → Str) where
  unfoldable pub method_to_mode : Str → AccessMode
  method_to_mode method =
      let m = to_uppercase method in
      if elem m (text "GET" ∷ text "HEAD" ∷ [])
      then read
      else if elem m (text "PUT" ∷ text "DELETE" ∷ text "PATCH" ∷ [])
      then write
      else if elem m (text "POST" ∷ [])
      then append
      else read

unfoldable pub mode_name : AccessMode → Str
mode_name read = text "read"
mode_name write = text "write"
mode_name append = text "append"
mode_name control = text "control"

abbrev pub holds_mode : AccessMode → List AccessMode → Bool
holds_mode m ms = any (mode_eq m) ms

pub holds_mode_iff : (m : AccessMode) (ms : List AccessMode) → (holds_mode m ms ≡ true) ↔ Memᴰ m ms
holds_mode_iff m ms = (
  λ h.
      let (x, at, e) = any-elim (mode_eq m) ms h in
      subst (λ y. Memᴰ y ms) (sym ((mode_eq_iff m x).0 e)) at,
  λ at. any-intro (mode_eq m) at ((mode_eq_iff m m).1 refl),
)

-- A reference that grants Write grants Append as well.
pub map_mode-append_of_write :
    (r : Str) → holds_mode write (map_mode r) ≡ true → holds_mode append (map_mode r) ≡ true
unfolding map_mode
map_mode-append_of_write r h = ground arith
