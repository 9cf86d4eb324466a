-- ===== src/Ldp/NTriples/Lines.antt =====
-- The lines of a graph that was written as N-Triples.
use solid_pod_rs.Prelude.{
  ℕ, ◌≡◌, refl, ap, ◌∙◌, false, Option, none, some, List, [], ◌∷◌, ◌++◌, ◌==◌, arith, any,
  any-append, Bool-cases, inl, inr,
}
use solid_pod_rs.Text.{
  lines, lines_of, strip_cr, Str, text, is_empty, is_whitespace, trim, trim_start, trim_end,
  trim_start_by, trim_end_by, has, starts_with, strip_prefix, split, split_by,
}
use solid_pod_rs.Ldp.Graph.{Term, iri, blank_node, literal, Triple}
use solid_pod_rs.Ldp.NTriples.{
  escape, escape_char, write_suffix, write_ntriples, write_triple, stops,
}
use solid_pod_rs.Ldp.NTriples.Terms.{IsWritable}
use solid_pod_rs.Ldp.NTriples.Ends.{any_of_stops, any_whitespace-feed, trim_end_by-off}
use solid_pod_rs.Ldp.NTriples.RoundTrip.{core-dot, AllWritable}

escape_char-feed : (c : ℕ) (s : Str) → has 10 s ≡ false → has 10 (escape_char c s) ≡ false
escape_char-feed c s h = ground arith

escape-feed : (v : Str) → has 10 (escape v) ≡ false
unfolding escape
escape-feed [] = refl
escape-feed (c ∷ v) = escape_char-feed c (escape v) (escape-feed v)

stops-feed : (s : Str) → any stops s ≡ false → has 10 s ≡ false
stops-feed s h = any_whitespace-feed s (any_of_stops s h)

feed-append : (a b : Str) → has 10 a ≡ false → has 10 b ≡ false → has 10 (a ++ b) ≡ false
feed-append a b h k = any-append (λ x. x == 10) a b ∙ rw (h, k) refl

suffix-feed :
    (v : Str) (d l : Option Str) → IsWritable (literal v d l) → has 10 (write_suffix d l) ≡ false
unfolding write_suffix text
suffix-feed v none none h = refl
suffix-feed v (some dt) none (h, k) = feed-append dt (b'>' ∷ []) k refl
suffix-feed v none (some l) h = stops-feed l h
suffix-feed v (some dt) (some l) h = absurd h

-- No line break stands in a written term.
term-feed : (t : Term) → IsWritable t → has 10 (write_ntriples t) ≡ false
unfolding write_ntriples text
term-feed (iri i) (h, k) = feed-append i (b'>' ∷ []) k refl
term-feed (blank_node b) h = stops-feed b h
term-feed (literal v d l) h =
    feed-append (escape v) (b'"' ∷ write_suffix d l) (escape-feed v) (suffix-feed v d l h)

triple-feed : (t : Triple) → AllWritable t → has 10 (write_triple t) ≡ false
unfolding write_triple text
triple-feed t (hs, hp, ho) = feed-append (write_ntriples t.subject) _ (term-feed t.subject hs) (
    feed-append (write_ntriples t.predicate) _ (term-feed t.predicate hp)
      (feed-append (write_ntriples t.object) (text " .") (term-feed t.object ho) refl))

split-append : (w rest : Str) → has 10 w ≡ false → split 10 (w ++ 10 ∷ rest) ≡ w ∷ split 10 rest
unfolding split split_by
split-append [] rest h = refl
split-append (x ∷ w) rest h = rw (split-append w rest (ground arith)) (ground arith)

split-cons : (s : Str) → (m : Str) × (ls : List Str) × (split 10 s ≡ m ∷ ls)
unfolding split split_by
split-cons [] = ([], [], refl)
split-cons (x ∷ s) =
    let (m, ls, e) = split-cons s in
    elim (Bool-cases (x == 10)) [
      | inl h ↦ ([], split 10 s, rw h refl)
      | inr h ↦ (x ∷ m, ls, rw (h, e) refl)
    ]

lines_of-cons : (l m : Str) (ls : List Str) → lines_of (l ∷ m ∷ ls) ≡ strip_cr l ∷ lines_of (m ∷ ls)
lines_of-cons [] m ls = refl
lines_of-cons (x ∷ l) m ls = refl

strip_cr-dot : (s : Str) → strip_cr (s ++ b'.' ∷ []) ≡ s ++ b'.' ∷ []
strip_cr-dot [] = refl
strip_cr-dot (x ∷ []) = refl
strip_cr-dot (x ∷ y ∷ s) = ap (λ r. x ∷ r) (strip_cr-dot (y ∷ s))

-- The first line of a written graph is the text of its first triple.
pub lines-write :
    (t : Triple) (rest : Str)
    → AllWritable t
    → lines (write_triple t ++ 10 ∷ rest) ≡ write_triple t ∷ lines rest
unfolding lines
lines-write t rest h =
    let (m, ls, e) = split-cons rest in
    let kept : strip_cr (write_triple t) ≡ write_triple t = rw (core-dot t) (strip_cr-dot _) in
    rw
      (
        split-append (write_triple t) rest (triple-feed t h),
        e,
        lines_of-cons (write_triple t) m ls,
        kept,
      )
      refl

-- The line of a triple is not trimmed, and is neither empty nor a comment.
first_kept :
    (t : Term) (rest : Str)
    → (trim_start (write_ntriples t ++ rest) ≡ write_ntriples t ++ rest)
      × (is_empty (write_ntriples t ++ rest) ≡ false)
      × (starts_with (b'#' ∷ []) (write_ntriples t ++ rest) ≡ false)
unfolding write_ntriples trim_start is_whitespace text trim_start_by starts_with strip_prefix
first_kept (iri i) rest = (refl, refl, refl)
first_kept (blank_node b) rest = (refl, refl, refl)
first_kept (literal v d l) rest = (refl, refl, refl)

triple_kept :
    (t : Triple)
    → (trim_start (write_triple t) ≡ write_triple t)
      × (is_empty (write_triple t) ≡ false)
      × (starts_with (b'#' ∷ []) (write_triple t) ≡ false)
unfolding write_triple
triple_kept t = first_kept t.subject _

pub line_kept :
    (t : Triple)
    → (trim (write_triple t) ≡ write_triple t)
      × (is_empty (write_triple t) ≡ false)
      × (starts_with (b'#' ∷ []) (write_triple t) ≡ false)
unfolding trim trim_end is_whitespace
line_kept t =
    let ends : trim_end_by is_whitespace (write_triple t) ≡ write_triple t =
      rw (core-dot t) (trim_end_by-off is_whitespace _ b'.' refl) in
    let (a, b, c) = triple_kept t in (rw ends a, b, c)
