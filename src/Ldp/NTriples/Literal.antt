-- ===== src/Ldp/NTriples/Literal.antt =====
-- What the reader makes of the literals that the writer writes.
use solid_pod_rs.Prelude.{
  ℕ, ◌≡◌, refl, ap, ◌∙◌, Bool, true, false, [], ◌∷◌, ◌++◌, ltb, ◌==◌, ==_iff, arith, all,
  Bool-cases, inl, inr,
}
use mathlib.Core.List.{append-nil}
use solid_pod_rs.Text.{Str}
use solid_pod_rs.Ldp.NTriples.{escape, escape_char, utf8, unescape, prepend, read_value}

-- The value that is read back: each character by its UTF-8 bytes, as characters.
unfoldable pub as_bytes : Str → Str
as_bytes [] = []
as_bytes (c ∷ s) = utf8 c ++ as_bytes s

abbrev pub is_ascii : Str → Bool
is_ascii s = all (λ c. ltb c 0x80) s

read_value-plain :
    (c : ℕ) (s : Str)
    → (c == b'\\') ≡ false
    → (c == b'"') ≡ false
    → read_value (c ∷ s) ≡ prepend (utf8 c) (read_value s)
unfolding read_value
read_value-plain c [] h k = ground (arith, append-nil (utf8 c))
read_value-plain c (d ∷ s) h k = ground arith

read_value-escaped :
    (d : ℕ) (s : Str) → read_value (b'\\' ∷ d ∷ s) ≡ prepend (unescape d) (read_value s)
unfolding read_value
read_value-escaped d s = refl

read_value-end : (s : Str) → read_value (b'"' ∷ s) ≡ ([], s)
unfolding read_value
read_value-end [] = refl
read_value-end (d ∷ s) = refl

read_value-char :
    (c : ℕ) (rest : Str) → read_value (escape_char c rest) ≡ prepend (utf8 c) (read_value rest)
unfolding utf8
read_value-char c rest = elim (Bool-cases (c == b'\\')) [
  | inl e ↦ rw ((==_iff c b'\\').0 e) (read_value-escaped b'\\' rest)
  | inr backslash ↦ elim (Bool-cases (c == b'"')) [
    | inl e ↦ rw ((==_iff c b'"').0 e) (read_value-escaped b'"' rest)
    | inr quote ↦ elim (Bool-cases (c == 10)) [
      | inl e ↦ rw ((==_iff c 10).0 e) (read_value-escaped b'n' rest)
      | inr newline ↦ elim (Bool-cases (c == 13)) [
        | inl e ↦ rw ((==_iff c 13).0 e) (read_value-escaped b'r' rest)
        | inr return ↦ elim (Bool-cases (c == 9)) [
          | inl e ↦ rw ((==_iff c 9).0 e) (read_value-escaped b't' rest)
          | inr tab ↦
              rw (backslash, quote, newline, return, tab) (read_value-plain c rest backslash quote)
        ]
      ]
    ]
  ]
]

escape_char-append : (c : ℕ) (s t : Str) → escape_char c s ++ t ≡ escape_char c (s ++ t)
escape_char-append c s t = ground arith

-- The reader gives the UTF-8 bytes of the value that was written, and goes on behind the quote.
pub read_value-escape : (v rest : Str) → read_value (escape v ++ b'"' ∷ rest) ≡ (as_bytes v, rest)
unfolding escape as_bytes
read_value-escape [] rest = read_value-end rest
read_value-escape (c ∷ s) rest =
    ap read_value (escape_char-append c (escape s) (b'"' ∷ rest))
    ∙ read_value-char c (escape s ++ b'"' ∷ rest)
    ∙ ap (prepend (utf8 c)) (read_value-escape s rest)

pub as_bytes_of_is_ascii : (v : Str) → is_ascii v ≡ true → as_bytes v ≡ v
unfolding as_bytes utf8
as_bytes_of_is_ascii [] h = refl
as_bytes_of_is_ascii (c ∷ s) h = ground (arith, as_bytes_of_is_ascii s)
