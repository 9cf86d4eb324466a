-- ===== src/Ldp/NTriples.antt =====
-- N-Triples: the writer and the reader (crates/solid-pod-rs/src/ldp.rs). The reader of literals walks
-- over UTF-8 bytes and takes each byte for a character; here it appends the bytes of each character.
pub mod Literal
pub mod Terms
pub mod Ends
pub mod RoundTrip
pub mod Parse
pub mod Lines
use solid_pod_rs.Prelude.{
  ℕ, ◌+◌, ◌-◌, ◌*◌, ◌/◌, ◌%◌, ◌≡◌, Bool, true, false, ◌&&◌, ◌||◌, Option, none, some, List, [], ◌∷◌,
  ◌++◌, ltb, ◌==◌, if◌then◌else◌,
}
use solid_pod_rs.Error.{unsupported, Result, ok, err, ◌>>=◌}
use solid_pod_rs.Text.{
  lines, Str, text, is_empty, is_whitespace, trim, trim_start, trim_end_matches, strip_prefix,
  starts_with, break_at, split, ends_with,
}
use solid_pod_rs.Ldp.Graph.{Term, iri, blank_node, literal, Triple, Graph, new_graph, insert}

abbrev pub escape_char : ℕ → Str → Str
escape_char c rest =
    if c == b'\\'
    then b'\\' ∷ b'\\' ∷ rest
    else if c == b'"'
    then b'\\' ∷ b'"' ∷ rest
    else if c == 10
    then b'\\' ∷ b'n' ∷ rest
    else if c == 13
    then b'\\' ∷ b'r' ∷ rest
    else if c == 9
    then b'\\' ∷ b't' ∷ rest
    else c ∷ rest

unfoldable pub escape : Str → Str
escape [] = []
escape (c ∷ s) = escape_char c (escape s)

unfoldable pub write_suffix : Option Str → Option Str → Str
write_suffix datatype (some lang) = b'@' ∷ lang
write_suffix (some dt) none = text "^^<" ++ (dt ++ text ">")
write_suffix none none = []

unfoldable pub write_ntriples : Term → Str
unfolding escape write_suffix
write_ntriples (iri i) = b'<' ∷ (i ++ b'>' ∷ [])
write_ntriples (blank_node b) = text "_:" ++ b
write_ntriples (literal value datatype language) =
    b'"' ∷ (escape value ++ b'"' ∷ write_suffix datatype language)

unfoldable pub write_triple : Triple → Str
unfolding write_ntriples
write_triple t =
    write_ntriples t.subject
    ++ b' ' ∷ (write_ntriples t.predicate ++ b' ' ∷ (write_ntriples t.object ++ text " ."))

unfoldable pub write_lines : List Triple → Str
unfolding write_triple
write_lines [] = []
write_lines (t ∷ ts) = write_triple t ++ 10 ∷ write_lines ts

unfoldable pub to_ntriples : Graph → Str
unfolding write_lines
to_ntriples g = write_lines g.triples

-- The UTF-8 bytes of a character.
unfoldable pub utf8 : ℕ → List ℕ
utf8 c =
    if ltb c 0x80
    then c ∷ []
    else if ltb c 0x800
    then (0xc0 + c / 64) ∷ (0x80 + c % 64) ∷ []
    else if ltb c 0x10000
    then (0xe0 + c / 4096) ∷ (0x80 + c / 64 % 64) ∷ (0x80 + c % 64) ∷ []
    else (0xf0 + c / 262144) ∷ (0x80 + c / 4096 % 64) ∷ (0x80 + c / 64 % 64) ∷ (0x80 + c % 64) ∷ []

abbrev pub unescape : ℕ → List ℕ
unescape c =
    if c == b'n'
    then 10 ∷ []
    else if c == b't'
    then 9 ∷ []
    else if c == b'r'
    then 13 ∷ []
    else utf8 c

abbrev prepend : List ℕ → Str × Str → Str × Str
prepend bs (value, rest) = (bs ++ value, rest)

-- The loop of `read_literal`, behind the opening quote: the value, and the text behind the closing one.
unfoldable pub read_value : Str → Str × Str
unfolding utf8
read_value [] = ([], [])
read_value (c ∷ []) = if c == b'"' then ([], []) else (utf8 c, [])
read_value (c ∷ d ∷ s) =
    let plain = prepend (utf8 c) (read_value (d ∷ s)) in
    let escaped = prepend (unescape d) (read_value s) in
    if c == b'\\' then escaped else if c == b'"' then ([], d ∷ s) else plain

abbrev pub stops : ℕ → Bool
stops c = is_whitespace c || c == b'.'

-- `find(c)` and the texts before and behind the character.
cut_behind : Str × Str → Option (Str × Str)
cut_behind (before, []) = none
cut_behind (before, c ∷ behind) = some (before, behind)

unfoldable pub until_gt : Str → Option (Str × Str)
unfolding break_at cut_behind
until_gt s = cut_behind (break_at (λ c. c == b'>') s)

with_datatype : Str → Option (Str × Str) → Option (Term × Str)
with_datatype value none = none
with_datatype value (some (dt, rest)) = some (literal value (some dt) none, rest)

with_language : Str → Str × Str → Term × Str
with_language value (lang, rest) = (literal value none (some lang), rest)

after_caret : Str → Str → Option Str → Option (Term × Str)
unfolding with_language
after_caret value rest (some r) = some (with_language value (break_at stops r))
after_caret value rest none = some (literal value none none, rest)

literal_suffix : Str → Str → Option Str → Option (Term × Str)
unfolding with_datatype until_gt
literal_suffix value rest (some r) = with_datatype value (until_gt r)
literal_suffix value rest none = after_caret value rest (strip_prefix (b'@' ∷ []) rest)

read_literal : Str × Str → Option (Term × Str)
read_literal (value, rest) = literal_suffix value rest (strip_prefix (text "^^<") rest)

iri_term : Option (Str × Str) → Option (Term × Str)
iri_term none = none
iri_term (some (i, rest)) = some (iri i, rest)

blank_term : Str × Str → Option (Term × Str)
blank_term (b, rest) = some (blank_node b, rest)

-- The three tests of `read_term` on a text without leading space; `none` is `Err`.
blank_or_literal : Str → Option Str → Option (Term × Str)
unfolding blank_term
blank_or_literal s (some rest) = blank_term (break_at stops rest)
blank_or_literal [] none = none
blank_or_literal (c ∷ s) none = if c == b'"' then read_literal (read_value s) else none

term_of : Str → Option Str → Option (Term × Str)
unfolding iri_term
term_of s (some rest) = iri_term (until_gt rest)
term_of s none = blank_or_literal s (strip_prefix (text "_:") s)

unfoldable pub read_term : Str → Option (Term × Str)
unfolding term_of blank_or_literal read_literal literal_suffix after_caret
read_term input = let s = trim_start input in term_of s (strip_prefix (b'<' ∷ []) s)

infixl 5 ◌>>?◌
abbrev pub ◌>>?◌ {ℓ κ} : {A : Type ℓ} {B : Type κ} → Option A → (A → Option B) → Option B
none >>? f = none
some a >>? f = f a

unfoldable pub parse_nt_line : Str → Option Triple
unfolding read_term
parse_nt_line line = read_term (trim (trim_end_matches b'.' line)) >>? λ s.
    read_term (trim_start s.1) >>? λ p. read_term (trim_start p.1) >>? λ o.
    some (record { subject = s.0; predicate = p.0; object = o.0 })

add_triple : Graph → Option Triple → Result Graph
add_triple g none = err unsupported
add_triple g (some t) = ok (insert g t)

-- One round of the loop of `parse_ntriples`.
unfoldable pub parse_line : Graph → Str → Result Graph
unfolding add_triple parse_nt_line
parse_line g l =
    let line = trim l in
    if is_empty line || starts_with (b'#' ∷ []) line
    then ok g
    else add_triple g (parse_nt_line line)

unfoldable pub parse_lines : Graph → List Str → Result Graph
unfolding parse_line
parse_lines g [] = ok g
parse_lines g (l ∷ ls) = parse_line g l >>= λ h. parse_lines h ls

unfoldable pub parse_ntriples : Str → Result Graph
unfolding parse_lines lines
parse_ntriples input = parse_lines new_graph (lines input)
