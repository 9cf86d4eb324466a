-- ===== src/Ldp/NTriples/Ends.antt =====
-- Where the texts that the writer gives begin and end.
use mathlib.Core.List.{append_assoc}
use solid_pod_rs.Prelude.{
  ℕ, ◌≡◌, refl, ap, sym, ◌∙◌, Bool, true, false, Option, none, some, [], ◌∷◌, ◌++◌, arith, any,
}
use solid_pod_rs.Text.{Str, text, is_whitespace, trim_start, trim_start_by, trim_end_by, has}
use solid_pod_rs.Ldp.Graph.{Term, iri, blank_node, literal}
use solid_pod_rs.Ldp.NTriples.{escape, write_suffix, write_ntriples, stops}
use solid_pod_rs.Ldp.NTriples.Terms.{IsWritable}

-- The last character of a text fails a test.
abbrev pub EndsOff : (ℕ → Bool) → Str → Type 0
EndsOff p s = (t : Str) × (c : ℕ) × (s ≡ t ++ c ∷ []) × (p c ≡ false)

EndsOff-of_any :
    (p : ℕ → Bool) (x : ℕ) (s : Str) → p x ≡ false → any p s ≡ false → EndsOff p (x ∷ s)
EndsOff-of_any p x [] h k = ([], x, refl, h)
EndsOff-of_any p x (y ∷ s) h k =
    let (t, c, e, off) = EndsOff-of_any p y s (ground arith) (ground arith) in
    (x ∷ t, c, ap (λ r. x ∷ r) e, off)

pub EndsOff-append : (p : ℕ → Bool) (r s : Str) → EndsOff p s → EndsOff p (r ++ s)
EndsOff-append p r s (t, c, e, off) =
    (r ++ t, c, ap (λ x. r ++ x) e ∙ sym (append_assoc r t (c ∷ [])), off)

pub trim_end_by-off :
    (p : ℕ → Bool) (s : Str) (c : ℕ) → p c ≡ false → trim_end_by p (s ++ c ∷ []) ≡ s ++ c ∷ []
unfolding trim_end_by
trim_end_by-off p [] c h = ground arith
trim_end_by-off p (x ∷ []) c h = ground arith
trim_end_by-off p (x ∷ y ∷ s) c h = rw (trim_end_by-off p (y ∷ s) c h) (ground arith)

pub trim_end_by-on :
    (p : ℕ → Bool) (s : Str) (c : ℕ) → p c ≡ true → trim_end_by p (s ++ c ∷ []) ≡ trim_end_by p s
unfolding trim_end_by
trim_end_by-on p [] c h = ground arith
trim_end_by-on p (x ∷ s) c h = rw (trim_end_by-on p s c h) refl

pub trim_end_by-EndsOff : (p : ℕ → Bool) (s : Str) → EndsOff p s → trim_end_by p s ≡ s
trim_end_by-EndsOff p s (t, c, e, off) = rw e (trim_end_by-off p t c off)

pub any_of_stops : (s : Str) → any stops s ≡ false → any is_whitespace s ≡ false
any_of_stops [] h = refl
any_of_stops (x ∷ s) h = ground (arith, any_of_stops s)

pub any_whitespace-feed : (s : Str) → any is_whitespace s ≡ false → has 10 s ≡ false
unfolding is_whitespace
any_whitespace-feed [] h = refl
any_whitespace-feed (x ∷ s) h = ground (arith, any_whitespace-feed s)

suffix_ends :
    (d l : Option Str) (v : Str)
    → IsWritable (literal v d l)
    → EndsOff is_whitespace (b'"' ∷ write_suffix d l)
unfolding write_suffix is_whitespace text
suffix_ends none none v h = ([], b'"', refl, refl)
suffix_ends (some dt) none v h =
    EndsOff-append is_whitespace (b'"' ∷ text "^^<") (dt ++ b'>' ∷ []) (dt, b'>', refl, refl)
suffix_ends none (some l) v h =
    EndsOff-append is_whitespace (b'"' ∷ []) (b'@' ∷ l)
      (EndsOff-of_any is_whitespace b'@' l refl (any_of_stops l h))
suffix_ends (some dt) (some l) v h = absurd h

pub term_ends : (t : Term) → IsWritable t → EndsOff is_whitespace (write_ntriples t)
unfolding write_ntriples is_whitespace text
term_ends (iri i) h = (b'<' ∷ i, b'>', refl, refl)
term_ends (blank_node b) h =
    EndsOff-append is_whitespace (b'_' ∷ []) (b':' ∷ b)
      (EndsOff-of_any is_whitespace b':' b refl (any_of_stops b h))
term_ends (literal v d l) h =
    EndsOff-append is_whitespace (b'"' ∷ escape v) (b'"' ∷ write_suffix d l) (suffix_ends d l v h)

-- A written term does not begin with a character to trim.
pub trim_start-write :
    (t : Term) (rest : Str) → trim_start (write_ntriples t ++ rest) ≡ write_ntriples t ++ rest
unfolding write_ntriples trim_start is_whitespace text trim_start_by
trim_start-write (iri i) rest = refl
trim_start-write (blank_node b) rest = refl
trim_start-write (literal v d l) rest = refl
