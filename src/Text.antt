-- ===== src/Text.antt =====
-- Rust's `str`: a text is the list of its Unicode scalar values, and the functions are those of
-- the standard library that the program calls (`starts_with`, `strip_prefix`, `trim`, `split`, …).
-- `byte_len` is `str::len`, the length of the UTF-8 encoding.
pub mod Laws
pub mod Affix
pub mod Decimal
pub mod Map
use Prim.Native.Char.{code}
use solid_pod_rs.Prelude.{
  ℕ, ◌+◌, ◌-◌, ◌≡◌, Bool, true, false, not, ◌&&◌, ◌||◌, Option, none, some, List, [], ◌∷◌, ◌++◌,
  reverse, String, ltb, leb, ◌==◌, if◌then◌else◌, any, all, length,
}

abbrev pub Str : Type 0
Str = List ℕ

-- A literal of the source. It computes only where `text` is unfolded.
unfoldable pub text : String → Str
text String.[] = []
text (String.◌∷◌ c s) = code c ∷ text s

unfoldable pub str_eq : Str → Str → Bool
str_eq [] [] = true
str_eq [] (y ∷ ys) = false
str_eq (x ∷ xs) [] = false
str_eq (x ∷ xs) (y ∷ ys) = x == y && str_eq xs ys

abbrev pub opt_str_eq : Option Str → Option Str → Bool
opt_str_eq none none = true
opt_str_eq none (some b) = false
opt_str_eq (some a) none = false
opt_str_eq (some a) (some b) = str_eq a b

-- `[..].contains(&s)`, and `matches!(s, "a" | "b")`.
abbrev pub elem : Str → List Str → Bool
elem s xs = any (str_eq s) xs

abbrev pub is_empty {ℓ} : {A : Type ℓ} → List A → Bool
is_empty [] = true
is_empty (x ∷ xs) = false

unfoldable pub strip_prefix : Str → Str → Option Str
strip_prefix [] s = some s
strip_prefix (p ∷ ps) [] = none
strip_prefix (p ∷ ps) (x ∷ xs) = let rest = strip_prefix ps xs in if p == x then rest else none

abbrev pub is_some {ℓ} : {A : Type ℓ} → Option A → Bool
is_some none = false
is_some (some a) = true

unfoldable pub starts_with : Str → Str → Bool
unfolding strip_prefix
starts_with p s = is_some (strip_prefix p s)

unfoldable pub ends_with : Str → Str → Bool
unfolding starts_with
ends_with p s = starts_with (reverse p) (reverse s)

abbrev reverse_opt : Option Str → Option Str
reverse_opt none = none
reverse_opt (some s) = some (reverse s)

unfoldable pub strip_suffix : Str → Str → Option Str
unfolding strip_prefix
strip_suffix p s = reverse_opt (strip_prefix (reverse p) (reverse s))

unfoldable pub trim_start_by : (ℕ → Bool) → Str → Str
trim_start_by p [] = []
trim_start_by p (x ∷ xs) = let rest = trim_start_by p xs in if p x then rest else x ∷ xs

unfoldable pub trim_end_by : (ℕ → Bool) → Str → Str
trim_end_by p [] = []
trim_end_by p (x ∷ xs) =
    let rest = trim_end_by p xs in if p x && is_empty rest then [] else x ∷ rest

unfoldable pub trim_start_matches : ℕ → Str → Str
unfolding trim_start_by
trim_start_matches c s = trim_start_by (λ x. x == c) s

unfoldable pub trim_end_matches : ℕ → Str → Str
unfolding trim_end_by
trim_end_matches c s = trim_end_by (λ x. x == c) s

-- `char::is_whitespace`: the Unicode property White_Space.
unfoldable pub is_whitespace : ℕ → Bool
is_whitespace c =
    (leb 9 c && leb c 13)
    || c == 32
    || c == 0x85
    || c == 0xa0
    || c == 0x1680
    || (leb 0x2000 c && leb c 0x200a)
    || c == 0x2028
    || c == 0x2029
    || c == 0x202f
    || c == 0x205f
    || c == 0x3000

unfoldable pub trim_start : Str → Str
unfolding trim_start_by is_whitespace
trim_start s = trim_start_by is_whitespace s

unfoldable pub trim_end : Str → Str
unfolding trim_end_by is_whitespace
trim_end s = trim_end_by is_whitespace s

unfoldable pub trim : Str → Str
unfolding trim_start trim_end
trim s = trim_start (trim_end s)

unfoldable pub trim_matches : ℕ → Str → Str
unfolding trim_start_matches trim_end_matches
trim_matches c s = trim_start_matches c (trim_end_matches c s)

-- `contains` of a character.
abbrev pub has : ℕ → Str → Bool
has c s = any (λ x. x == c) s

-- `contains` of a text.
unfoldable pub contains : Str → Str → Bool
unfolding starts_with
contains p [] = is_empty p
contains p (x ∷ xs) = starts_with p (x ∷ xs) || contains p xs

-- The first part of a text up to a character that passes the test, and the rest from there.
unfoldable pub break_at : (ℕ → Bool) → Str → Str × Str
break_at p [] = ([], [])
break_at p (x ∷ xs) = let rest = break_at p xs in if p x then ([], x ∷ xs) else (x ∷ rest.0, rest.1)

abbrev pub push_head : ℕ → List Str → List Str
push_head x [] = (x ∷ []) ∷ []
push_head x (p ∷ ps) = (x ∷ p) ∷ ps

-- `split(c)`: one part more than there are separators.
unfoldable pub split_by : (ℕ → Bool) → Str → List Str
split_by p [] = [] ∷ []
split_by p (x ∷ xs) = let rest = split_by p xs in if p x then [] ∷ rest else push_head x rest

unfoldable pub split : ℕ → Str → List Str
unfolding split_by
split c s = split_by (λ x. x == c) s

unfoldable pub drop_empty : List Str → List Str
drop_empty [] = []
drop_empty (s ∷ ss) = let rest = drop_empty ss in if is_empty s then rest else s ∷ rest

unfoldable pub split_whitespace : Str → List Str
unfolding split_by drop_empty is_whitespace
split_whitespace s = drop_empty (split_by is_whitespace s)

abbrev pub is_ascii_digit : ℕ → Bool
is_ascii_digit c = leb 48 c && leb c 57

abbrev pub is_ascii_alphabetic : ℕ → Bool
is_ascii_alphabetic c = (leb 65 c && leb c 90) || (leb 97 c && leb c 122)

abbrev pub is_ascii_alphanumeric : ℕ → Bool
is_ascii_alphanumeric c = is_ascii_alphabetic c || is_ascii_digit c

unfoldable pub ascii_lower : ℕ → ℕ
ascii_lower c = if leb 65 c && leb c 90 then c + 32 else c

unfoldable pub to_ascii_lowercase : Str → Str
unfolding ascii_lower
to_ascii_lowercase [] = []
to_ascii_lowercase (x ∷ xs) = ascii_lower x ∷ to_ascii_lowercase xs

unfoldable pub eq_ignore_ascii_case : Str → Str → Bool
unfolding str_eq to_ascii_lowercase
eq_ignore_ascii_case a b = str_eq (to_ascii_lowercase a) (to_ascii_lowercase b)

unfoldable pub char_len : ℕ → ℕ
char_len c = if ltb c 0x80 then 1 else if ltb c 0x800 then 2 else if ltb c 0x10000 then 3 else 4

unfoldable pub byte_len : Str → ℕ
unfolding char_len
byte_len [] = 0
byte_len (x ∷ xs) = char_len x + byte_len xs

-- `join(sep)`.
unfoldable pub join : Str → List Str → Str
join sep [] = []
join sep (p ∷ []) = p
join sep (p ∷ q ∷ ps) = p ++ (sep ++ join sep (q ∷ ps))

abbrev pub ascii_upper : ℕ → ℕ
ascii_upper c = if leb 97 c && leb c 122 then c - 32 else c

unfoldable pub to_ascii_uppercase : Str → Str
to_ascii_uppercase [] = []
to_ascii_uppercase (x ∷ xs) = ascii_upper x ∷ to_ascii_uppercase xs

-- `split_once`: the texts before and after the first occurrence of a separator.
abbrev around : ℕ → Str → Option Str → Option (Str × Str) → Option (Str × Str)
around c s (some after) rest = some ([], after)
around c s none none = none
around c s none (some (before, after)) = some (c ∷ before, after)

unfoldable pub split_once : Str → Str → Option (Str × Str)
unfolding strip_prefix
split_once sep [] = none
split_once sep (c ∷ s) = around c s (strip_prefix sep (c ∷ s)) (split_once sep s)

-- `str::lines`: no last line if it is empty, and no carriage return at the end of a line.
abbrev pub strip_cr : Str → Str
strip_cr [] = []
strip_cr (c ∷ []) = if c == 13 then [] else c ∷ []
strip_cr (c ∷ d ∷ s) = c ∷ strip_cr (d ∷ s)

abbrev pub lines_of : List Str → List Str
lines_of [] = []
lines_of ([] ∷ []) = []
lines_of ((c ∷ s) ∷ []) = (c ∷ s) ∷ []
lines_of (l ∷ m ∷ ls) = strip_cr l ∷ lines_of (m ∷ ls)

unfoldable pub lines : Str → List Str
unfolding split
lines s = lines_of (split 10 s)
