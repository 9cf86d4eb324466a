-- ===== src/Ldp/NTriples/RoundTrip.antt =====
-- A graph that was written as N-Triples, read back.
use mathlib.Core.List.{append_assoc, append-nil}
use solid_pod_rs.Prelude.{◌≡◌, refl, ap, sym, ◌∙◌, some, [], ◌∷◌, ◌++◌, ◌==◌}
use solid_pod_rs.Text.{
  Str, text, is_whitespace, trim, trim_start, trim_end, trim_start_by, trim_end_by,
  trim_end_matches,
}
use solid_pod_rs.Ldp.Graph.{Term, Triple}
use solid_pod_rs.Ldp.NTriples.{write_ntriples, write_triple, read_term, parse_nt_line}
use solid_pod_rs.Ldp.NTriples.Terms.{IsWritable, read_back, read_term-write}
use solid_pod_rs.Ldp.NTriples.Ends.{
  EndsOff, EndsOff-append, trim_end_by-off, trim_end_by-on, trim_end_by-EndsOff, term_ends,
  trim_start-write,
}

-- The text of a triple without the space and the dot at its end.
pub core : Triple → Str
core t =
    write_ntriples t.subject ++ 32 ∷ (write_ntriples t.predicate ++ 32 ∷ write_ntriples t.object)

pub core-dot : (t : Triple) → write_triple t ≡ (core t ++ 32 ∷ []) ++ b'.' ∷ []
unfolding write_triple core text
core-dot t =
    let a = write_ntriples t.subject in
    let b = write_ntriples t.predicate in
    let c = write_ntriples t.object in
    rw
      (
        append_assoc a (32 ∷ (b ++ 32 ∷ c)) (32 ∷ []),
        append_assoc a ((32 ∷ (b ++ 32 ∷ c)) ++ 32 ∷ []) (b'.' ∷ []),
        append_assoc b (32 ∷ c) (32 ∷ []),
        append_assoc b (32 ∷ c ++ 32 ∷ []) (b'.' ∷ []),
        append_assoc c (32 ∷ []) (b'.' ∷ []),
      )
      refl

abbrev pub AllWritable : Triple → Type 0
AllWritable t = IsWritable t.subject × IsWritable t.predicate × IsWritable t.object

core-EndsOff : (t : Triple) → IsWritable t.object → EndsOff is_whitespace (core t)
unfolding core
core-EndsOff t h = EndsOff-append is_whitespace (write_ntriples t.subject) _ (
    EndsOff-append is_whitespace (32 ∷ write_ntriples t.predicate) (32 ∷ write_ntriples t.object)
      (EndsOff-append is_whitespace (32 ∷ []) (write_ntriples t.object) (term_ends t.object h)))

trim-core :
    (t : Triple) → IsWritable t.object → trim (trim_end_matches b'.' (write_triple t)) ≡ core t
unfolding trim trim_end_matches trim_end is_whitespace
trim-core t h =
    let dotless : trim_end_by (λ x. x == b'.') (write_triple t) ≡ core t ++ 32 ∷ [] =
      ap (trim_end_by (λ x. x == b'.')) (core-dot t)
      ∙ trim_end_by-on (λ x. x == b'.') (core t ++ 32 ∷ []) b'.' refl
      ∙ trim_end_by-off (λ x. x == b'.') (core t) 32 refl in
    let spaceless : trim_end_by is_whitespace (core t ++ 32 ∷ []) ≡ core t =
      trim_end_by-on is_whitespace (core t) 32 refl
      ∙ trim_end_by-EndsOff is_whitespace (core t) (core-EndsOff t h) in
    rw (dotless, spaceless) (unfold core in trim_start-write t.subject _)

space_trimmed :
    (t : Term) (rest : Str)
    → trim_start (32 ∷ (write_ntriples t ++ rest)) ≡ write_ntriples t ++ rest
unfolding trim_start trim_start_by is_whitespace
space_trimmed t rest = trim_start-write t rest

-- The triple that is read for a triple that was written.
unfoldable pub read_back_triple : Triple → Triple
unfolding read_back
read_back_triple t = record {
  subject = read_back t.subject;
  predicate = read_back t.predicate;
  object = read_back t.object;
}

read_object :
    (t : Term)
    → IsWritable t
    → read_term (trim_start (32 ∷ write_ntriples t)) ≡ some (read_back t, [])
read_object t h =
    ap (λ s. read_term (trim_start (32 ∷ s))) (sym (append-nil (write_ntriples t)))
    ∙ ap read_term (space_trimmed t [])
    ∙ read_term-write t [] h tt

-- The line of a writable triple is read back, up to the bytes of its literal values.
pub parse_nt_line-write :
    (t : Triple) → AllWritable t → parse_nt_line (write_triple t) ≡ some (read_back_triple t)
unfolding parse_nt_line read_back_triple core
parse_nt_line-write t (hs, hp, ho) =
    rw
      (
        trim-core t ho,
        read_term-write t.subject
            (32 ∷ (write_ntriples t.predicate ++ 32 ∷ write_ntriples t.object)) hs refl,
        space_trimmed t.predicate (32 ∷ write_ntriples t.object),
        read_term-write t.predicate (32 ∷ write_ntriples t.object) hp refl,
        read_object t.object ho,
      )
      refl
