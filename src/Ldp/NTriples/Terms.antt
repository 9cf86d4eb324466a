-- ===== src/Ldp/NTriples/Terms.antt =====
-- The reader of terms on the texts that the writer gives.
use mathlib.Core.List.{append_assoc, append-nil}
use solid_pod_rs.Prelude.{◌≡◌, refl, ap, ◌∙◌, false, Option, none, some, [], ◌∷◌, ◌++◌, ◌==◌, any}
use solid_pod_rs.Text.{Str, text, is_whitespace, trim_start, strip_prefix, break_at, has}
use solid_pod_rs.Text.Affix.{strip_prefix-append}
use solid_pod_rs.Text.Laws.{break_at-append, break_at-none}
use solid_pod_rs.Ldp.Graph.{Term, iri, blank_node, literal}
use solid_pod_rs.Ldp.NTriples.{
  escape, write_suffix, write_ntriples, read_value, stops, cut_behind, until_gt, with_datatype,
  with_language, after_caret, literal_suffix, read_literal, iri_term, blank_term, blank_or_literal,
  term_of, read_term,
}
use solid_pod_rs.Ldp.NTriples.Literal.{as_bytes, read_value-escape}

-- What the format can carry: no closing bracket in an IRI, no space or dot in a label, not both a
-- datatype and a language, and no line break outside of literal values.
abbrev pub IsWritable : Term → Type 0
IsWritable (iri i) = (has b'>' i ≡ false) × (has 10 i ≡ false)
IsWritable (blank_node b) = any stops b ≡ false
IsWritable (literal v none none) = Unit
IsWritable (literal v (some dt) none) = (has b'>' dt ≡ false) × (has 10 dt ≡ false)
IsWritable (literal v none (some l)) = any stops l ≡ false
IsWritable (literal v (some dt) (some l)) = ⊥

-- What stands behind a term: nothing, or a space.
abbrev pub IsDelimited : Str → Type 0
IsDelimited [] = Unit
IsDelimited (c ∷ s) = c ≡ 32

-- The term that is read for a term that was written.
unfoldable pub read_back : Term → Term
unfolding as_bytes
read_back (iri i) = iri i
read_back (blank_node b) = blank_node b
read_back (literal v d l) = literal (as_bytes v) d l

break_at-stops :
    (s rest : Str) → any stops s ≡ false → IsDelimited rest → break_at stops (s ++ rest) ≡ (s, rest)
unfolding is_whitespace
break_at-stops s [] h d = ap (break_at stops) (append-nil s) ∙ break_at-none stops s h
break_at-stops s (c ∷ r) h d = rw d (break_at-append stops s 32 r h refl)

until_gt-append : (s r : Str) → has b'>' s ≡ false → until_gt (s ++ b'>' ∷ r) ≡ some (s, r)
unfolding until_gt cut_behind
until_gt-append s r h = rw (break_at-append (λ c. c == b'>') s b'>' r h refl)

no_caret : (rest : Str) → IsDelimited rest → strip_prefix (text "^^<") rest ≡ none
unfolding strip_prefix text
no_caret [] d = refl
no_caret (c ∷ s) d = rw d

no_at : (rest : Str) → IsDelimited rest → strip_prefix (b'@' ∷ []) rest ≡ none
unfolding strip_prefix
no_at [] d = refl
no_at (c ∷ s) d = rw d

literal-plain :
    (v rest : Str) → IsDelimited rest → read_literal (v, rest) ≡ some (literal v none none, rest)
unfolding read_literal literal_suffix after_caret
literal-plain v rest d = rw (no_caret rest d, no_at rest d)

literal-datatype :
    (v dt rest : Str)
    → has b'>' dt ≡ false
    → read_literal (v, text "^^<" ++ (dt ++ b'>' ∷ rest)) ≡ some (literal v (some dt) none, rest)
unfolding read_literal literal_suffix with_datatype
literal-datatype v dt rest h =
    rw (strip_prefix-append (text "^^<") (dt ++ b'>' ∷ rest), until_gt-append dt rest h)

literal-language :
    (v l rest : Str)
    → any stops l ≡ false
    → IsDelimited rest
    → read_literal (v, b'@' ∷ (l ++ rest)) ≡ some (literal v none (some l), rest)
unfolding read_literal literal_suffix after_caret with_language strip_prefix text
literal-language v l rest h d = rw (break_at-stops l rest h d)

read_quoted : (s : Str) → read_term (b'"' ∷ s) ≡ read_literal (read_value s)
unfolding read_term term_of blank_or_literal trim_start is_whitespace strip_prefix text
read_quoted s = refl

literal-append :
    (v rest suffix : Str)
    → (b'"' ∷ (escape v ++ b'"' ∷ suffix)) ++ rest ≡ b'"' ∷ (escape v ++ b'"' ∷ (suffix ++ rest))
literal-append v rest suffix = ap (λ s. b'"' ∷ s) (append_assoc (escape v) (b'"' ∷ suffix) rest)

read_literal-write :
    (v : Str) (d l : Option Str) (rest : Str)
    → read_term (write_ntriples (literal v d l) ++ rest)
      ≡ read_literal (as_bytes v, write_suffix d l ++ rest)
unfolding write_ntriples
read_literal-write v d l rest =
    ap read_term (literal-append v rest (write_suffix d l))
    ∙ read_quoted (escape v ++ b'"' ∷ (write_suffix d l ++ rest))
    ∙ ap read_literal (read_value-escape v (write_suffix d l ++ rest))

suffix-datatype :
    (dt rest : Str) → write_suffix (some dt) none ++ rest ≡ text "^^<" ++ (dt ++ b'>' ∷ rest)
unfolding write_suffix text
suffix-datatype dt rest = ap (λ s. text "^^<" ++ s) (append_assoc dt (b'>' ∷ []) rest)

read_iri :
    (i rest : Str) → has b'>' i ≡ false → read_term (b'<' ∷ (i ++ b'>' ∷ rest)) ≡ some (iri i, rest)
unfolding read_term term_of iri_term trim_start is_whitespace strip_prefix
read_iri i rest h = rw (until_gt-append i rest h)

read_blank :
    (b rest : Str)
    → any stops b ≡ false
    → IsDelimited rest
    → read_term (text "_:" ++ (b ++ rest)) ≡ some (blank_node b, rest)
unfolding read_term term_of blank_or_literal blank_term trim_start is_whitespace strip_prefix text
read_blank b rest h d = rw (break_at-stops b rest h d)

-- A term that was written before a space, or at the end, is read back up to the bytes of its value.
pub read_term-write :
    (t : Term) (rest : Str)
    → IsWritable t
    → IsDelimited rest
    → read_term (write_ntriples t ++ rest) ≡ some (read_back t, rest)
unfolding read_back
read_term-write (iri i) rest (h, k) d =
    unfold write_ntriples in
    ap (λ s. read_term (b'<' ∷ s)) (append_assoc i (b'>' ∷ []) rest) ∙ read_iri i rest h
read_term-write (blank_node b) rest h d =
    unfold write_ntriples text in
    ap (λ s. read_term s) (append_assoc (text "_:") b rest) ∙ read_blank b rest h d
read_term-write (literal v none none) rest h d =
    read_literal-write v none none rest ∙ unfold write_suffix in literal-plain (as_bytes v) rest d
read_term-write (literal v (some dt) none) rest (h, k) d =
    read_literal-write v (some dt) none rest
    ∙ ap (λ s. read_literal (as_bytes v, s)) (suffix-datatype dt rest)
    ∙ literal-datatype (as_bytes v) dt rest h
read_term-write (literal v none (some l)) rest h d =
    read_literal-write v none (some l) rest
    ∙ unfold write_suffix in literal-language (as_bytes v) l rest h d
read_term-write (literal v (some dt) (some l)) rest h d = absurd h
