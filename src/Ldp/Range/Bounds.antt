-- ===== src/Ldp/Range/Bounds.antt =====
-- Every range that the parsers give lies within the resource, and the two parsers agree.
use solid_pod_rs.Prelude.{
  ℕ, ◌+◌, ◌-◌, ◌%◌, ◌≤◌, ◌<◌, ◌≡◌, refl, subst, Bool, true, false, not, ◌||◌, Option, none, some,
  List, ltb, leb, ◌==◌, if◌then◌else◌, min, take, drop, length, length-take, length-drop, arith,
  Option-cases, Bool-cases, inl, inr,
}
use solid_pod_rs.Error.{unsupported, precondition_failed, Result, ok, err, ◌>>=◌, ◌>>◌}
use solid_pod_rs.Text.{Str, text, is_empty, strip_prefix, has, split_once}
use solid_pod_rs.Text.Decimal.{parse_u64, u64_max}
use solid_pod_rs.Ldp.Range.{
  ByteRange, u64_mod, range_length, or_unsupported, guard, end_of, suffix_range, prefix_range,
  parse_spec, header_value, parse_value, parse_range_header, RangeOutcome, full, partial,
  not_satisfiable, suffix_range_v2, prefix_range_v2, parse_spec_v2, parse_value_v2,
  parse_range_header_v2, slice_range,
}

-- A range of bytes of a resource of `total` bytes.
pub record IsWithin (total : ℕ) (r : ByteRange) : Type 0 where
  pub ordered : r.start ≤ r.end
  pub inside : r.end < total

abbrev WithinOutcome : ℕ → Result RangeOutcome → Type 0
WithinOutcome total (ok (partial r)) = IsWithin total r
WithinOutcome total (ok full) = Unit
WithinOutcome total (ok not_satisfiable) = Unit
WithinOutcome total (err e) = Unit

WithinOutcome-bind :
    {A : Type 0} (total : ℕ) (m : Result A) (f : A → Result RangeOutcome)
    → ((a : A) → WithinOutcome total (f a))
    → WithinOutcome total (m >>= f)
WithinOutcome-bind total (ok a) f h = h a
WithinOutcome-bind total (err e) f h = tt

WithinOutcome-if :
    (total : ℕ) (b : Bool) (m n : Result RangeOutcome)
    → (b ≡ true → WithinOutcome total m)
    → (b ≡ false → WithinOutcome total n)
    → WithinOutcome total (if b then m else n)
WithinOutcome-if total true m n hm hn = hm refl
WithinOutcome-if total false m n hm hn = hn refl

suffix_range_v2-Within :
    (end_s : Str) (total : ℕ)
    → (total == 0) ≡ false
    → WithinOutcome total (suffix_range_v2 end_s total)
unfolding suffix_range_v2
suffix_range_v2-Within end_s total pos =
    WithinOutcome-bind total (or_unsupported (parse_u64 end_s)) _ λ suffix.
      WithinOutcome-if total (suffix == 0) (ok not_satisfiable)
        (ok (partial (record { start = total - suffix; end = total - 1 }))) (λ _. tt)
        (λ e. record { ordered = ground arith; inside = ground arith })

end_of-lt :
    (end_s : Str) (total v : ℕ) → (total == 0) ≡ false → end_of end_s total ≡ ok v → v < total
unfolding end_of
end_of-lt end_s total v pos h = ground arith

prefix_range_v2-Within :
    (start_s end_s : Str) (total : ℕ)
    → (total == 0) ≡ false
    → WithinOutcome total (prefix_range_v2 start_s end_s total)
unfolding prefix_range_v2
prefix_range_v2-Within start_s end_s total pos =
    WithinOutcome-bind total (or_unsupported (parse_u64 start_s)) _
      λ start. go start (end_of end_s total) (end_of-lt end_s total)
  where
    go :
        (start : ℕ) (r : Result ℕ)
        → ((v : ℕ) → (total == 0) ≡ false → r ≡ ok v → v < total)
        → WithinOutcome total (
            r >>= λ end.
            if ltb end start || leb total start
            then ok not_satisfiable
            else ok (partial (record { start = start; end = end })))
    go start (err e) h = tt
    go start (ok end) h =
        WithinOutcome-if total (ltb end start || leb total start) (ok not_satisfiable)
          (ok (partial (record { start = start; end = end }))) (λ _. tt)
          (λ e. record { ordered = ground arith; inside = h end pos refl })

parse_spec_v2-Within : (raw : Str) (total : ℕ) → WithinOutcome total (parse_spec_v2 raw total)
unfolding parse_spec_v2
parse_spec_v2-Within raw total =
    WithinOutcome-bind total (or_unsupported (strip_prefix (text "bytes=") raw)) _ λ spec.
      WithinOutcome-bind total (guard (not (has b',' spec)) unsupported) _ λ _.
        WithinOutcome-bind total (or_unsupported (split_once (text "-") spec)) _ λ parts.
          WithinOutcome-if total (total == 0) (ok not_satisfiable) _ (λ _. tt)
            λ pos.
              WithinOutcome-if total (is_empty parts.0) (suffix_range_v2 parts.1 total)
                (prefix_range_v2 parts.0 parts.1 total)
                (λ _. suffix_range_v2-Within parts.1 total pos)
                (λ _. prefix_range_v2-Within parts.0 parts.1 total pos)

parse_value_v2-Within : (o : Option Str) (total : ℕ) → WithinOutcome total (parse_value_v2 o total)
unfolding parse_value_v2
parse_value_v2-Within none total = tt
parse_value_v2-Within (some raw) total = parse_spec_v2-Within raw total

-- A partial answer is a non-empty range of bytes that lies within the resource.
pub parse_range_header_v2-IsWithin :
    (header : Option Str) (total : ℕ) (r : ByteRange)
    → parse_range_header_v2 header total ≡ ok (partial r)
    → IsWithin total r
unfolding parse_range_header_v2
parse_range_header_v2-IsWithin header total r h =
    subst (WithinOutcome total) h (parse_value_v2-Within (header_value header) total)

-- For a range within a body of at most 2^64 - 1 bytes, the slice has exactly the length that the
-- range states, which is `end - start + 1`, and it is what stands in the body from the start on.
pub slice_range_lem :
    (body : List ℕ) (r : ByteRange)
    → length body ≤ u64_max
    → IsWithin (length body) r
    → (length (slice_range body r) ≡ range_length r)
      × (range_length r ≡ r.end - r.start + 1)
      × (slice_range body r ≡ take (r.end - r.start + 1) (drop r.start body))
unfolding slice_range range_length
slice_range_lem body r cap w =
    let end_excl : min ((r.end + 1) % u64_mod) (length body) ≡ r.end + 1 = omega arith in
    let start : min r.start (r.end + 1) ≡ r.start = omega arith in
    let size : r.end + 1 - r.start ≡ r.end - r.start + 1 = omega arith in
    (
      rw (end_excl, start)
          (omega (
            arith,
            length-take {0} (r.end + 1 - r.start) (drop r.start body),
            length-drop {0} r.start body,
          )),
      omega arith,
      rw (end_excl, start, size),
    )

-- What the newer parser says, in the answers of the older one.
abbrev pub old_answer : Result RangeOutcome → Result (Option ByteRange)
old_answer (ok full) = ok none
old_answer (ok (partial r)) = ok (some r)
old_answer (ok not_satisfiable) = err precondition_failed
old_answer (err e) = err e

abbrev as_some : Result ByteRange → Result (Option ByteRange)
as_some m = m >>= λ r. ok (some r)

suffix_range-v2 :
    (end_s : Str) (total : ℕ)
    → as_some (suffix_range end_s total) ≡ old_answer (suffix_range_v2 end_s total)
unfolding suffix_range suffix_range_v2
suffix_range-v2 end_s total = go (parse_u64 end_s)
  where
    go :
        (o : Option ℕ)
        → as_some (
            or_unsupported o >>= λ suffix.
            guard (not (suffix == 0)) precondition_failed
            >> ok (record { start = total - suffix; end = total - 1 }))
          ≡ old_answer (
              or_unsupported o >>= λ suffix.
              if suffix == 0
              then ok not_satisfiable
              else ok (partial (record { start = total - suffix; end = total - 1 })))
    go none = refl
    go (some n) = ground arith

prefix_range-v2 :
    (start_s end_s : Str) (total : ℕ)
    → as_some (prefix_range start_s end_s total) ≡ old_answer (prefix_range_v2 start_s end_s total)
unfolding prefix_range prefix_range_v2
prefix_range-v2 start_s end_s total = go (parse_u64 start_s) (end_of end_s total)
  where
    go :
        (o : Option ℕ) (e : Result ℕ)
        → as_some (
            or_unsupported o >>= λ start. e >>= λ end.
            guard (not (ltb end start)) precondition_failed
            >> (guard (not (leb total start)) precondition_failed
                >> ok (record { start = start; end = end })))
          ≡ old_answer (
              or_unsupported o >>= λ start. e >>= λ end.
              if ltb end start || leb total start
              then ok not_satisfiable
              else ok (partial (record { start = start; end = end })))
    go none e = refl
    go (some n) (err x) = refl
    go (some n) (ok v) = ground arith

parse_spec-v2 :
    (raw : Str) (total : ℕ) → as_some (parse_spec raw total) ≡ old_answer (parse_spec_v2 raw total)
unfolding parse_spec parse_spec_v2
parse_spec-v2 raw total = elim (Option-cases (strip_prefix (text "bytes=") raw)) [
  | inl e ↦ rw e
  | inr (spec, e) ↦ rw e (elim (Bool-cases (has b',' spec)) [
    | inl c ↦ rw c
    | inr c ↦ rw c (elim (Option-cases (split_once (text "-") spec)) [
      | inl p ↦ rw p
      | inr (parts, p) ↦ rw p (elim (Bool-cases (total == 0)) [
        | inl z ↦ rw z
        | inr z ↦ rw z (elim (Bool-cases (is_empty parts.0)) [
          | inl q ↦ rw q (suffix_range-v2 parts.1 total)
          | inr q ↦ rw q (prefix_range-v2 parts.0 parts.1 total)
        ])
      ])
    ])
  ])
]

-- The two parsers accept the same headers and give the same ranges and errors: they differ only
-- in that the older answers `precondition_failed` where the newer says `not_satisfiable`.
pub parse_range_header-v2 :
    (header : Option Str) (total : ℕ)
    → parse_range_header header total ≡ old_answer (parse_range_header_v2 header total)
unfolding parse_range_header parse_range_header_v2 parse_value parse_value_v2
parse_range_header-v2 header total = elim (Option-cases (header_value header)) [
  | inl e ↦ rw e
  | inr (raw, e) ↦ rw e (parse_spec-v2 raw total)
]
