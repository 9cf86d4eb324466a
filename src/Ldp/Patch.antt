-- ===== src/Ldp/Patch.antt =====
-- PATCH documents (crates/solid-pod-rs/src/ldp.rs): the N3 dialect, and PATCH on a path without a
-- resource.
pub mod Effect
use solid_pod_rs.Prelude.{
  ℕ, zero, suc, ◌+◌, ◌-◌, ◌≡◌, Bool, true, false, not, ◌&&◌, ◌||◌, Option, none, some, List, [],
  ◌∷◌, ◌++◌, ◌==◌, if◌then◌else◌, all, filter, length, drop,
}
use solid_pod_rs.Error.{precondition_failed, unsupported, Result, ok, err, ◌>>=◌}
use solid_pod_rs.Text.{
  Str, text, str_eq, is_empty, strip_prefix, starts_with, strip_suffix, trim, trim_start,
  to_ascii_lowercase, is_ascii_alphanumeric, split, elem,
}
use solid_pod_rs.Ldp.Graph.{Graph, new_graph, contains, len, extend, subtract}
use solid_pod_rs.Ldp.NTriples.{parse_ntriples}

pub record PatchOutcome : Type 0 where
  pub graph : Graph
  pub inserted : ℕ
  pub deleted : ℕ

-- The depth behind a character.
abbrev pub depth_after : ℕ → ℕ → ℕ
depth_after c d = if c == b'{' then suc d else if c == b'}' then d - 1 else d

abbrev pub keep {ℓ} : {A : Type ℓ} → A → Option (List A) → Option (List A)
keep c none = none
keep c (some s) = some (c ∷ s)

-- The text up to the brace that brings the depth back to zero; it is called on a text that begins
-- with an open brace, with depth zero.
unfoldable pub balanced : ℕ → Str → Option Str
balanced d [] = none
balanced d (c ∷ s) =
    let e = depth_after c d in
    let rest = balanced e s in if e == 0 then some (c ∷ []) else keep c rest

block_if : Bool → Str → Option Str
unfolding balanced
block_if true s = balanced 0 s
block_if false s = none

-- The block behind a keyword.
unfoldable pub block_behind : Str → Option Str
unfolding block_if
block_behind tail = let t = trim_start tail in block_if (starts_with (b'{' ∷ []) t) t

abbrev pub left_ok : Option ℕ → Bool
left_ok none = true
left_ok (some prev) = not (is_ascii_alphanumeric prev || prev == b'_')

abbrev pub or_else {ℓ} : {A : Type ℓ} → Option A → Option A → Option A
or_else none later = later
or_else (some a) later = some a

-- The block of an occurrence of the keyword that stands behind `prev` and before `tail`.
unfoldable pub block_of : Option ℕ → Str → Option Str
unfolding block_behind
block_of prev tail = if left_ok prev then block_behind tail else none

-- The loop over the occurrences of a keyword, from left to right. An occurrence is passed over
-- as a whole: `skip` is what is left of it, and `prev` is the character before the text.
unfoldable pub search_block : Str → Option ℕ → ℕ → Str → Option Str
unfolding block_of
search_block needle prev skip [] = none
search_block needle prev (suc skip) (c ∷ s) = search_block needle (some c) skip s
search_block needle prev zero (c ∷ s) =
    let found = starts_with needle (to_ascii_lowercase (c ∷ s)) in
    let later = search_block needle (some c) (if found then length needle - 1 else 0) s in
    if found then or_else (block_of prev (drop (length needle) (c ∷ s))) later else later

unfoldable pub extract_block : Str → List Str → Option Str
unfolding search_block
extract_block source [] = none
extract_block source (kw ∷ keywords) =
    or_else (search_block (to_ascii_lowercase kw) none 0 source) (extract_block source keywords)

abbrev pub or_self {ℓ} : {A : Type ℓ} → A → Option A → A
or_self s none = s
or_self s (some t) = t

unfoldable pub strip_braces : Str → Str
strip_braces block =
    let t = trim block in
    let u = or_self t (strip_prefix (b'{' ∷ []) t) in trim (or_self u (strip_suffix (b'}' ∷ []) u))

-- The graph of a block; without one, or for an empty one, it is empty.
unfoldable pub block_graph : Option Str → Result Graph
block_graph none = ok new_graph
block_graph (some s) = if not (is_empty s) then parse_ntriples (strip_braces s) else ok new_graph

unfoldable pub where_graph : Option Str → Result Graph
where_graph none = ok new_graph
where_graph (some wc) =
    if not (is_empty (trim wc)) then parse_ntriples (strip_braces wc) else ok new_graph

abbrev pub insert_block : Str → Option Str
insert_block patch =
    extract_block patch (text "insert" ∷ text "inserts" ∷ text "solid:inserts" ∷ [])

abbrev pub delete_block : Str → Option Str
delete_block patch =
    extract_block patch (text "delete" ∷ text "deletes" ∷ text "solid:deletes" ∷ [])

abbrev pub where_block : Str → Option Str
where_block patch = extract_block patch (text "where" ∷ text "solid:where" ∷ [])

unfoldable pub patched : Graph → Graph → Graph → Graph → Result PatchOutcome
patched target ins del wh =
    if all (contains target) wh.triples
    then ok (record {
      graph = extend (subtract target del) ins;
      inserted = len ins;
      deleted = length (filter (contains target) del.triples);
    })
    else err precondition_failed

unfoldable pub apply_n3_patch : Graph → Str → Result PatchOutcome
unfolding patched
apply_n3_patch target patch = block_graph (insert_block patch) >>= λ ins.
    block_graph (delete_block patch) >>= λ del.
    where_graph (where_block patch) >>= λ wh. patched target ins del wh

pub data PatchDialect : Type 0 where
  n3 sparql_update json_patch : PatchDialect

first_or_empty : List Str → Str
first_or_empty [] = []
first_or_empty (s ∷ ss) = s

unfoldable pub patch_dialect_from_mime : Str → Option PatchDialect
unfolding first_or_empty
patch_dialect_from_mime mime =
    let m = to_ascii_lowercase (trim (first_or_empty (split b';' mime))) in
    if str_eq m (text "text/n3") || str_eq m (text "application/n3")
    then some n3
    else if str_eq m (text "application/sparql-update")
        || str_eq m (text "application/sparql-update+update")
    then some sparql_update
    else if str_eq m (text "application/json-patch+json")
    then some json_patch
    else none

pub data PatchCreateOutcome : Type 0 where
  created : (inserted : ℕ) (graph : Graph) → PatchCreateOutcome
  applied : (inserted deleted : ℕ) (graph : Graph) → PatchCreateOutcome

-- `apply_sparql_patch` is an argument.
unfoldable pub apply_patch_to_absent :
    (Graph → Str → Result PatchOutcome) → PatchDialect → Str → Result PatchCreateOutcome
apply_patch_to_absent apply_sparql_patch n3 body =
    apply_n3_patch new_graph body >>= λ o. ok (created o.inserted o.graph)
apply_patch_to_absent apply_sparql_patch sparql_update body =
    apply_sparql_patch new_graph body >>= λ o. ok (created o.inserted o.graph)
apply_patch_to_absent apply_sparql_patch json_patch body = err unsupported
