-- ===== src/Ldp/Range/RoundTrip.antt =====
-- A range that a client writes is the range that the server reads.
use solid_pod_rs.Prelude.{
  ℕ, ◌-◌, ◌≤◌, ◌<◌, ◌≡◌, refl, Bool, true, false, some, ◌∷◌, ◌++◌, ◌==◌, min, arith, any,
  any-append,
}
use solid_pod_rs.Error.{ok}
use solid_pod_rs.Text.{Str, text, is_ascii_digit, is_whitespace, has, split_once}
use solid_pod_rs.Text.Laws.{trim-none, split_once-append}
use solid_pod_rs.Text.Affix.{strip_prefix-append}
use solid_pod_rs.Text.Decimal.{
  decimal, parse_u64, u64_max, parse_unsigned-decimal, decimal-digits, decimal-nonempty,
  any_of_digits,
}
use solid_pod_rs.Ldp.Range.{
  end_of, prefix_range_v2, parse_spec_v2, header_value, parse_value_v2, parse_range_header_v2,
  partial,
}

-- `start-end`, behind the unit.
abbrev range_spec : ℕ → ℕ → Str
range_spec start end = decimal start ++ b'-' ∷ decimal end

abbrev pub range_header : ℕ → ℕ → Str
range_header start end = text "bytes=" ++ range_spec start end

spec-clean :
    (p : ℕ → Bool) (start end : ℕ)
    → ((c : ℕ) → is_ascii_digit c ≡ true → p c ≡ false)
    → p b'-' ≡ false
    → any p (range_spec start end) ≡ false
spec-clean p start end h dash = ground (
  arith,
  any-append p (decimal start) (b'-' ∷ decimal end),
  any_of_digits p (decimal start) h (decimal-digits start),
  any_of_digits p (decimal end) h (decimal-digits end),
)

digit-not-whitespace : (c : ℕ) → is_ascii_digit c ≡ true → is_whitespace c ≡ false
unfolding is_whitespace
digit-not-whitespace c h = ground arith

header-clean : (start end : ℕ) → any is_whitespace (range_header start end) ≡ false
unfolding text is_whitespace
header-clean start end = spec-clean is_whitespace start end digit-not-whitespace refl

header_value-range :
    (start end : ℕ) → header_value (some (range_header start end)) ≡ some (range_header start end)
unfolding header_value text
header_value-range start end = rw (trim-none (range_header start end) (header-clean start end))

split-spec :
    (start end : ℕ)
    → split_once (text "-") (range_spec start end) ≡ some (decimal start, decimal end)
unfolding text
split-spec start end =
    split_once-append b'-' (decimal start) (decimal end)
      (any_of_digits (λ x. x == b'-') (decimal start) (λ c h. ground arith) (decimal-digits start))

parse_u64-decimal : (n : ℕ) → n ≤ u64_max → parse_u64 (decimal n) ≡ some n
unfolding parse_u64
parse_u64-decimal n h = parse_unsigned-decimal u64_max n h

prefix-decimal :
    (start end total : ℕ)
    → start ≤ end
    → end ≤ u64_max
    → start < total
    → prefix_range_v2 (decimal start) (decimal end) total
      ≡ ok (partial (record { start = start; end = min end (total - 1) }))
unfolding prefix_range_v2 end_of
prefix-decimal start end total a b c =
    rw (parse_u64-decimal start (omega arith), decimal-nonempty end, parse_u64-decimal end b)
      (ground arith)

-- The header `bytes=start-end`, for `start ≤ end` below 2^64 and a start inside the resource, is
-- read as the range from `start` to `end`, cut to the last byte of the resource.
pub parse_range_header_v2-range_header :
    (start end total : ℕ)
    → start ≤ end
    → end ≤ u64_max
    → start < total
    → parse_range_header_v2 (some (range_header start end)) total
      ≡ ok (partial (record { start = start; end = min end (total - 1) }))
unfolding parse_range_header_v2 parse_value_v2 parse_spec_v2
parse_range_header_v2-range_header start end total a b c =
    let positive : (total == 0) ≡ false = ground arith in
    let no_comma : has b',' (range_spec start end) ≡ false =
      spec-clean (λ x. x == b',') start end (λ c h. ground arith) refl in
    rw
      (
        header_value-range start end,
        strip_prefix-append (text "bytes=") (range_spec start end),
        no_comma,
        split-spec start end,
        positive,
        decimal-nonempty start,
      )
      (prefix-decimal start end total a b c)
