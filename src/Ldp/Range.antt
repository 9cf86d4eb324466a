-- ===== src/Ldp/Range.antt =====
-- Byte ranges: `parse_range_header`, `parse_range_header_v2` and `slice_range`
-- (crates/solid-pod-rs/src/ldp.rs). `usize` has 64 bits, as `u64` has.
pub mod Bounds
pub mod RoundTrip
use solid_pod_rs.Prelude.{
  ℕ, ◌+◌, ◌-◌, ◌%◌, ◌≡◌, Bool, true, false, not, ◌||◌, Option, none, some, List, [], ◌∷◌, ◌++◌, ltb,
  leb, ◌==◌, if◌then◌else◌, min, take, drop, length,
}
use solid_pod_rs.Error.{PodError, unsupported, precondition_failed, Result, ok, err, ◌>>=◌, ◌>>◌}
use solid_pod_rs.Text.{Str, text, is_empty, trim, strip_prefix, has, split_once}
use solid_pod_rs.Text.Decimal.{decimal, parse_u64}

pub record ByteRange : Type 0 where
  pub start : ℕ
  pub end : ℕ

abbrev pub u64_mod : ℕ
u64_mod = 18446744073709551616

unfoldable pub range_length : ByteRange → ℕ
range_length r = (r.end - r.start + 1) % u64_mod

unfoldable pub content_range : ByteRange → ℕ → Str
content_range r total =
    text "bytes " ++ (decimal r.start ++ (b'-' ∷ (decimal r.end ++ (b'/' ∷ decimal total))))

-- `ok_or_else(|| PodError::Unsupported(..))`, and `parse().map_err(..)`.
abbrev pub or_unsupported {ℓ} : {A : Type ℓ} → Option A → Result A
or_unsupported none = err unsupported
or_unsupported (some a) = ok a

abbrev pub guard : Bool → PodError → Result (Unit {0})
guard true e = ok tt
guard false e = err e

-- `end_s` is empty, or a number that is cut to the last byte.
end_of : Str → ℕ → Result ℕ
end_of end_s total =
    if is_empty end_s
    then ok (total - 1)
    else do v ← or_unsupported (parse_u64 end_s); ok (min v (total - 1))

suffix_range : Str → ℕ → Result ByteRange
suffix_range end_s total = do
  suffix ← or_unsupported (parse_u64 end_s)
  guard (not (suffix == 0)) precondition_failed
  ok (record { start = total - suffix; end = total - 1 })

prefix_range : Str → Str → ℕ → Result ByteRange
unfolding end_of
prefix_range start_s end_s total = do
  start ← or_unsupported (parse_u64 start_s)
  end ← end_of end_s total
  guard (not (ltb end start)) precondition_failed
  guard (not (leb total start)) precondition_failed
  ok (record { start = start; end = end })

parse_spec : Str → ℕ → Result ByteRange
unfolding suffix_range prefix_range
parse_spec raw total = do
  spec ← or_unsupported (strip_prefix (text "bytes=") raw)
  guard (not (has b',' spec)) unsupported
  parts ← or_unsupported (split_once (text "-") spec)
  guard (not (total == 0)) precondition_failed
  if is_empty parts.0 then suffix_range parts.1 total else prefix_range parts.0 parts.1 total

-- The header without the space around it; `none` where it is absent or blank.
unfoldable pub header_value : Option Str → Option Str
header_value none = none
header_value (some v) = if not (is_empty (trim v)) then some (trim v) else none

parse_value : Option Str → ℕ → Result (Option ByteRange)
parse_value none total = ok none
parse_value (some raw) total = do r ← parse_spec raw total; ok (some r)

unfoldable pub parse_range_header : Option Str → ℕ → Result (Option ByteRange)
unfolding parse_value parse_spec header_value
parse_range_header header total = parse_value (header_value header) total

pub data RangeOutcome : Type 0 where
  full : RangeOutcome
  partial : ByteRange → RangeOutcome
  not_satisfiable : RangeOutcome

suffix_range_v2 : Str → ℕ → Result RangeOutcome
suffix_range_v2 end_s total = do
  suffix ← or_unsupported (parse_u64 end_s)
  if suffix == 0
      then ok not_satisfiable
      else ok (partial (record { start = total - suffix; end = total - 1 }))

prefix_range_v2 : Str → Str → ℕ → Result RangeOutcome
unfolding end_of
prefix_range_v2 start_s end_s total = do
  start ← or_unsupported (parse_u64 start_s)
  end ← end_of end_s total
  if ltb end start || leb total start
      then ok not_satisfiable
      else ok (partial (record { start = start; end = end }))

parse_spec_v2 : Str → ℕ → Result RangeOutcome
unfolding suffix_range_v2 prefix_range_v2
parse_spec_v2 raw total = do
  spec ← or_unsupported (strip_prefix (text "bytes=") raw)
  guard (not (has b',' spec)) unsupported
  parts ← or_unsupported (split_once (text "-") spec)
  if total == 0
      then ok not_satisfiable
      else if is_empty parts.0
      then suffix_range_v2 parts.1 total
      else prefix_range_v2 parts.0 parts.1 total

parse_value_v2 : Option Str → ℕ → Result RangeOutcome
parse_value_v2 none total = ok full
parse_value_v2 (some raw) total = parse_spec_v2 raw total

unfoldable pub parse_range_header_v2 : Option Str → ℕ → Result RangeOutcome
unfolding parse_value_v2 parse_spec_v2 header_value
parse_range_header_v2 header total = parse_value_v2 (header_value header) total

-- `&body[start..end_excl]`.
unfoldable pub slice_range : List ℕ → ByteRange → List ℕ
slice_range body range =
    let end_excl = min ((range.end + 1) % u64_mod) (length body) in
    let start = min range.start end_excl in take (end_excl - start) (drop start body)
