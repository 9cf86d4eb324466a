-- ===== src/Text/Decimal.antt =====
-- Unsigned numbers as decimal text: `Display` of an integer and `str::parse` into one.
use solid_pod_rs.Prelude.{
  ℕ, zero, suc, ◌+◌, ◌-◌, ◌*◌, ◌/◌, ◌%◌, ◌<◌, ◌≤◌, ◌≡◌, refl, sym, ◌∙◌, ap, Bool, true, false, ◌&&◌,
  Option, none, some, [], ◌∷◌, arith, ltb, leb, ◌==◌, if◌then◌else◌, Bool-cases, inl, inr, all, any,
}
use solid_pod_rs.Text.{Str, is_ascii_digit, is_empty}

decimal_from : ℕ → ℕ → Str → Str
decimal_from zero n acc = acc
decimal_from (suc fuel) n acc =
    let acc' = (48 + n % 10) ∷ acc in
    let rest = decimal_from fuel (n / 10) acc' in if ltb n 10 then acc' else rest

unfoldable pub decimal : ℕ → Str
unfolding decimal_from
decimal n = decimal_from (suc n) n []

-- Reading stops with `none` at a character that is no digit and when the value passes `max`.
unfoldable pub parse_digits : ℕ → ℕ → Str → Option ℕ
parse_digits max acc [] = some acc
parse_digits max acc (c ∷ s) =
    let acc' = acc * 10 + (c - 48) in
    let rest = parse_digits max acc' s in if is_ascii_digit c && leb acc' max then rest else none

after_sign : ℕ → Str → Option ℕ
after_sign max [] = none
after_sign max (c ∷ s) = parse_digits max 0 (c ∷ s)

-- `from_str` of an unsigned type whose largest value is `max`: one leading `+` is accepted.
unfoldable pub parse_unsigned : ℕ → Str → Option ℕ
unfolding parse_digits after_sign
parse_unsigned max [] = none
parse_unsigned max (c ∷ s) = if c == b'+' then after_sign max s else after_sign max (c ∷ s)

abbrev pub u64_max : ℕ
u64_max = 18446744073709551615

unfoldable pub parse_u64 : Str → Option ℕ
unfolding parse_unsigned
parse_u64 s = parse_unsigned u64_max s

parse_digits_step :
    (max a n : ℕ) (acc : Str)
    → a * 10 + n % 10 ≤ max
    → parse_digits max a ((48 + n % 10) ∷ acc) ≡ parse_digits max (a * 10 + n % 10) acc
unfolding parse_digits
parse_digits_step max a n acc h =
    let e : 48 + n % 10 - 48 ≡ n % 10 = omega arith in rw e (ground arith)

parse_digits-decimal_from :
    (fuel max n : ℕ) (acc : Str)
    → n < fuel
    → n ≤ max
    → parse_digits max 0 (decimal_from fuel n acc) ≡ parse_digits max n acc
unfolding decimal_from
parse_digits-decimal_from zero max n acc h le = absurd (omega arith)
parse_digits-decimal_from (suc fuel) max n acc h le = elim (Bool-cases (ltb n 10)) [
  | inl e ↦
      let small : 0 * 10 + n % 10 ≡ n = ground arith in
      rw e (
        parse_digits_step max 0 n acc (omega (arith, small))
        ∙ ap (λ k. parse_digits max k acc) small)
  | inr e ↦
      let big : 10 ≤ n = ground arith in
      let whole : n / 10 * 10 + n % 10 ≡ n = omega arith in
      rw e (
        parse_digits-decimal_from fuel max (n / 10) ((48 + n % 10) ∷ acc) (omega arith)
          (omega arith)
        ∙ parse_digits_step max (n / 10) n acc (omega arith)
        ∙ ap (λ k. parse_digits max k acc) whole)
]

decimal_from-cons :
    (fuel n : ℕ) (acc : Str)
    → (c : ℕ) × (s : Str) × (decimal_from (suc fuel) n acc ≡ c ∷ s) × (is_ascii_digit c ≡ true)
unfolding decimal_from
decimal_from-cons zero n acc = (48 + n % 10, acc, ground arith, ground arith)
decimal_from-cons (suc fuel) n acc = elim (Bool-cases (ltb n 10)) [
  | inl e ↦ (48 + n % 10, acc, rw e, ground arith)
  | inr e ↦
      let (c, s, p, d) = decimal_from-cons fuel (n / 10) ((48 + n % 10) ∷ acc) in (c, s, rw e p, d)
]

-- A number in range is read back from its decimal text.
pub parse_unsigned-decimal : (max n : ℕ) → n ≤ max → parse_unsigned max (decimal n) ≡ some n
unfolding decimal parse_unsigned
parse_unsigned-decimal max n h =
    let (c, s, p, d) = decimal_from-cons n n [] in
    let plain : (c == b'+') ≡ false = ground arith in
    rw (p, plain)
      (ap (parse_digits max 0) (sym p) ∙ parse_digits-decimal_from (suc n) max n [] (omega arith) h)

digits_from :
    (fuel n : ℕ) (acc : Str)
    → all is_ascii_digit acc ≡ true
    → all is_ascii_digit (decimal_from fuel n acc) ≡ true
unfolding decimal_from
digits_from zero n acc h = h
digits_from (suc fuel) n acc h = elim (Bool-cases (ltb n 10)) [
  | inl e ↦ rw e (ground arith)
  | inr e ↦ rw e (digits_from fuel (n / 10) ((48 + n % 10) ∷ acc) (ground arith))
]

-- The decimal text of a number holds nothing but digits.
pub decimal-digits : (n : ℕ) → all is_ascii_digit (decimal n) ≡ true
unfolding decimal
decimal-digits n = digits_from (suc n) n [] refl

pub decimal-nonempty : (n : ℕ) → is_empty (decimal n) ≡ false
unfolding decimal
decimal-nonempty n = let (c, s, p, d) = decimal_from-cons n n [] in rw p

-- A character test that refuses every digit finds nothing in a text of digits.
pub any_of_digits :
    (p : ℕ → Bool) (s : Str)
    → ((c : ℕ) → is_ascii_digit c ≡ true → p c ≡ false)
    → all is_ascii_digit s ≡ true
    → any p s ≡ false
any_of_digits p [] h d = refl
any_of_digits p (c ∷ s) h d = ground (arith, h c, any_of_digits p s h)
