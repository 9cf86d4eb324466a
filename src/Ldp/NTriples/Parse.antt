-- ===== src/Ldp/NTriples/Parse.antt =====
-- The reader on all that the writer gives for a graph.
use solid_pod_rs.Prelude.{◌≡◌, refl, true, List, [], ◌∷◌, Memᴰ, map}
use solid_pod_rs.Error.{ok}
use solid_pod_rs.Text.{lines, split, split_by}
use solid_pod_rs.Ldp.Graph.{
  Term, iri, blank_node, literal, Triple, Graph, new_graph, insert, insert_all, contains,
  contains_in,
}
use solid_pod_rs.Ldp.Graph.Sets.{contains-insert_all}
use solid_pod_rs.Ldp.NTriples.{
  write_triple, write_lines, to_ntriples, parse_line, add_triple, parse_lines, parse_ntriples,
}
use solid_pod_rs.Ldp.NTriples.Literal.{is_ascii, as_bytes_of_is_ascii}
use solid_pod_rs.Ldp.NTriples.Terms.{read_back}
use solid_pod_rs.Ldp.NTriples.RoundTrip.{AllWritable, read_back_triple, parse_nt_line-write}
use solid_pod_rs.Ldp.NTriples.Lines.{lines-write, line_kept}

parse_line-write :
    (g : Graph) (t : Triple)
    → AllWritable t
    → parse_line g (write_triple t) ≡ ok (insert g (read_back_triple t))
unfolding parse_line add_triple
parse_line-write g t h =
    let (kept, full, plain) = line_kept t in rw (kept, full, plain, parse_nt_line-write t h) refl

parse_lines-write :
    (g : Graph) (ts : List Triple)
    → ((t : Triple) → Memᴰ t ts → AllWritable t)
    → parse_lines g (lines (write_lines ts)) ≡ ok (insert_all g (map read_back_triple ts))
unfolding write_lines parse_lines insert_all
parse_lines-write g [] h = unfold lines split split_by in refl
parse_lines-write g (t ∷ ts) h =
    let first = h t (Memᴰ.head refl) in
    rw (lines-write t (write_lines ts) first, parse_line-write g t first)
      (parse_lines-write (insert g (read_back_triple t)) ts (λ u m. h u (Memᴰ.tail m)))

-- What is read for a written graph of writable triples: each triple, with the bytes of its values.
pub parse_ntriples-bytes :
    (g : Graph)
    → ((t : Triple) → Memᴰ t g.triples → AllWritable t)
    → parse_ntriples (to_ntriples g) ≡ ok (insert_all new_graph (map read_back_triple g.triples))
unfolding parse_ntriples to_ntriples
parse_ntriples-bytes g h = parse_lines-write new_graph g.triples h

abbrev pub IsAsciiTerm : Term → Type 0
IsAsciiTerm (iri i) = Unit
IsAsciiTerm (blank_node b) = Unit
IsAsciiTerm (literal v d l) = is_ascii v ≡ true

-- The literal values of the triple are ASCII.
abbrev pub IsAsciiTriple : Triple → Type 0
IsAsciiTriple t = IsAsciiTerm t.subject × IsAsciiTerm t.predicate × IsAsciiTerm t.object

read_back-ascii : (t : Term) → IsAsciiTerm t → read_back t ≡ t
unfolding read_back
read_back-ascii (iri i) h = refl
read_back-ascii (blank_node b) h = refl
read_back-ascii (literal v d l) h = rw (as_bytes_of_is_ascii v h) refl

read_back_triple-ascii : (t : Triple) → IsAsciiTriple t → read_back_triple t ≡ t
unfolding read_back_triple
read_back_triple-ascii t (s, p, o) =
    rw (read_back-ascii t.subject s, read_back-ascii t.predicate p, read_back-ascii t.object o) refl

all_ascii :
    (ts : List Triple) → ((t : Triple) → Memᴰ t ts → IsAsciiTriple t) → map read_back_triple ts ≡ ts
all_ascii [] h = refl
all_ascii (t ∷ ts) h =
    rw (read_back_triple-ascii t (h t (Memᴰ.head refl)), all_ascii ts (λ u m. h u (Memᴰ.tail m)))
      refl

-- For a graph whose terms the format can carry (no closing bracket or line break in an IRI or a
-- datatype, no space or dot in a label or a language, not both a datatype and a language) and
-- whose literal values are ASCII, the text that the writer gives is read as a graph with exactly
-- the same triples.
pub parse_ntriples-write :
    (g : Graph)
    → ((t : Triple) → Memᴰ t g.triples → AllWritable t × IsAsciiTriple t)
    → (h : Graph) × (parse_ntriples (to_ntriples g) ≡ ok h)
      × ((x : Triple) → contains h x ≡ contains g x)
unfolding contains contains_in
parse_ntriples-write g h = (
  insert_all new_graph (map read_back_triple g.triples),
  parse_ntriples-bytes g (λ t m. (h t m).0),
  λ x. rw (all_ascii g.triples (λ t m. (h t m).1)) (contains-insert_all new_graph g.triples x),
)
