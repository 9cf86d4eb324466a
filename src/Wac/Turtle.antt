-- ===== src/Wac/Turtle.antt =====
-- The scanners of the Turtle ACL parser (crates/solid-pod-rs/src/wac/parser.rs). Depths are natural
-- numbers: those of the source are 32 bits wide, so texts of 2^31 brackets are out of scope.
pub mod Conditions
pub mod Rules
pub mod Write
pub mod Objects
pub mod Fuel
use solid_pod_rs.Prelude.{
  ℕ, zero, suc, ◌+◌, ◌-◌, Bool, true, false, not, ◌&&◌, ◌||◌, Option, none, some, List, [], ◌∷◌,
  ◌++◌, ◌==◌, if◌then◌else◌, length,
}
use solid_pod_rs.Text.{
  Str, text, str_eq, is_empty, is_whitespace, starts_with, strip_prefix, trim, trim_start,
  trim_start_matches, trim_end_matches, break_at, lines, split_once,
}
use solid_pod_rs.Text.Map.{Map, lookup, insert_key}

-- One line up to a `#` outside of an IRI.
uncommented : Str → Bool → Str
uncommented [] in_iri = []
uncommented (c ∷ cs) in_iri =
    let rest = uncommented cs (if c == b'<' then true else if c == b'>' then false else in_iri) in
    if c == b'#' && not in_iri then [] else c ∷ rest

with_breaks : List Str → Str
with_breaks [] = []
with_breaks (l ∷ ls) = l ++ 10 ∷ with_breaks ls

uncommented_all : List Str → List Str
unfolding uncommented
uncommented_all [] = []
uncommented_all (l ∷ ls) = uncommented l false ∷ uncommented_all ls

unfoldable pub strip_turtle_comments : Str → Str
unfolding with_breaks uncommented_all
strip_turtle_comments input = with_breaks (uncommented_all (lines input))

-- The variables of the two splitters: the depth of the brackets, and whether a string is open.
pub record Scan : Type 0 where
  pub depth : ℕ
  pub in_str : Bool

abbrev pub scan_start : Scan
scan_start = record { depth = 0; in_str = false }

-- Which characters open and close a bracket, and which one separates.
pub record Signs : Type 0 where
  pub opening : ℕ
  pub closing : ℕ
  pub separator : ℕ

abbrev pub scan_step : Signs → ℕ → Scan → Scan
scan_step g c s =
    if c == g.opening && not s.in_str
    then record s { depth = s.depth + 1 }
    else if c == g.closing && not s.in_str
    then record s { depth = s.depth - 1 }
    else if c == b'"'
    then record s { in_str = not s.in_str }
    else s

abbrev pub separates : Signs → ℕ → Scan → Bool
separates g c s = c == g.separator && (s.depth == 0 && not s.in_str)

-- The loop that both splitters share; `cur` is the part that is being read.
unfoldable pub split_scan : Signs → Str → Scan → Str → List Str
split_scan g [] s cur = if is_empty (trim cur) then [] else cur ∷ []
split_scan g (c ∷ cs) s cur = elim (separates g c s) [
  | true ↦ cur ∷ split_scan g cs s []
  | false ↦ split_scan g cs (scan_step g c s) (cur ++ c ∷ [])
]

abbrev pub statement_signs : Signs
statement_signs = record { opening = b'<'; closing = b'>'; separator = b'.' }

abbrev pub predicate_signs : Signs
predicate_signs = record { opening = b'['; closing = b']'; separator = b';' }

unfoldable pub split_turtle_statements : Str → List Str
unfolding split_scan
split_turtle_statements input = split_scan statement_signs input scan_start []

unfoldable pub split_predicate_list : Str → List Str
unfolding split_scan
split_predicate_list input = split_scan predicate_signs input scan_start []

abbrev pub ends_token : ℕ → Bool
ends_token c = is_whitespace c || (c == b',' || (c == b';' || (c == b']' || c == b')')))

closed_iri : Str × Str → Option (Str × Str)
closed_iri (iri, []) = none
closed_iri (iri, c ∷ rest) = some (iri, rest)

pop_bare : Str → Option (Str × Str)
pop_bare input = if starts_with (b'"' ∷ []) input then none else some (break_at ends_token input)

pop_trimmed : Str → Option Str → Option (Str × Str)
unfolding closed_iri pop_bare
pop_trimmed input (some rest) = closed_iri (break_at (λ c. c == b'>') rest)
pop_trimmed input none = pop_bare input

-- The first term of a text and what follows it.
unfoldable pub turtle_pop_term : Str → Option (Str × Str)
unfolding pop_trimmed
turtle_pop_term input = let t = trim_start input in pop_trimmed t (strip_prefix (b'<' ∷ []) t)

module _ (prefixes : Map Str) where
  expanded : Str → Option Str → Str → Str
  expanded tok none local = tok
  expanded tok (some base) local = base ++ local

  expand_parts : Str → Option (Str × Str) → Str
  unfolding expanded
  expand_parts tok none = tok
  expand_parts tok (some (p, local)) =
      if starts_with (b'<' ∷ []) p then tok else expanded tok (lookup p prefixes) local

  unfoldable pub expand_curie_or_iri : Str → Str
  unfolding expand_parts
  expand_curie_or_iri token =
      let tok = trim token in
      if str_eq tok (b'a' ∷ []) then b'a' ∷ [] else expand_parts tok (split_once (b':' ∷ []) tok)

  popped_object : Option (Str × Str) → Option (Str × Option Str)
  popped_object none = none
  popped_object (some (tok, rest)) =
      some (expand_curie_or_iri tok, strip_prefix (b',' ∷ []) (trim_start rest))

  -- A round of the loop: the object, and the text behind a comma if there is one.
  unfoldable pub next_object : Str → Option (Str × Option Str)
  unfolding popped_object
  next_object remaining =
      let r = trim_start remaining in if is_empty r then none else popped_object (turtle_pop_term r)

  unfoldable pub objects_from : (fuel : ℕ) → Str → List Str
  objects_from zero remaining = []
  objects_from (suc n) remaining = elim (next_object remaining) [
    | none ↦ []
    | some (object, none) ↦ object ∷ []
    | some (object, some more) ↦ object ∷ objects_from n more
  ]

  -- Each round but the last passes a comma.
  unfoldable pub parse_object_list : Str → List Str
  unfolding objects_from
  parse_object_list input = let t = trim input in objects_from (suc (length t)) t
