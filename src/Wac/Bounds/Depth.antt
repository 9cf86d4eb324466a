-- ===== src/Wac/Bounds/Depth.antt =====
-- `check_json_depth` against the deepest nesting of the brackets that are left when the string
-- literals are taken out.
use solid_pod_rs.Prelude.{
  ℕ, ◌+◌, ◌-◌, ◌≤◌, ◌<◌, ◌≡◌, ◌↔◌, refl, ap, ◌∙◌, Bool, true, false, not, ◌||◌, ◌==◌, Option, none,
  some, List, [], ◌∷◌, ltb, min, max, if◌then◌else◌, length, arith, Bool-cases, inl, inr, ◌⊎◌,
}
use solid_pod_rs.Error.{bad_request, payload_too_large, ok, err}
use solid_pod_rs.Wac.Document.{AclDocument}
use solid_pod_rs.Wac.Bounds.{
  usize_max, Scanner, scanner_start, step, opens, check_from, check_json_depth,
  parse_jsonld_acl_with_limits, or_default, parse_jsonld_acl, max_acl_bytes,
}

-- The greatest depth over a whole body, from a state of the scanner.
peak_from : List ℕ → Scanner → ℕ
peak_from [] s = s.depth
peak_from (b ∷ body) s = max s.depth (peak_from body (step b s))

peak_depth : List ℕ → ℕ
unfolding peak_from step
peak_depth body = peak_from body scanner_start

-- Only an opening bracket outside of strings makes the depth grow.
step-depth-le : (b : ℕ) (s : Scanner) → opens b s ≡ false → (step b s).depth ≤ s.depth
unfolding step
step-depth-le b s h = ground arith

depth-le-peak_from : (body : List ℕ) (s : Scanner) → s.depth ≤ peak_from body s
unfolding peak_from
depth-le-peak_from [] s = omega arith
depth-le-peak_from (b ∷ body) s = omega arith

check_from-ok :
    (body : List ℕ) (m : ℕ) (s : Scanner)
    → s.depth ≤ m
    → check_from body m s ≡ (if ltb m (peak_from body s) then err bad_request else ok tt)
unfolding check_from peak_from
check_from-ok [] m s h = ground arith
check_from-ok (b ∷ body) m s h = elim (Bool-cases (opens b s)) [
  | inl e ↦
      rw e (ground (arith, check_from-ok body m (step b s), depth-le-peak_from body (step b s)))
  | inr e ↦ rw e (ground (arith, step-depth-le b s e, check_from-ok body m (step b s)))
]

-- Where a byte stands: outside of the string literals, inside of one, or behind a backslash there.
pub data Place : Type 0 where
  outside inside escaped : Place

next_place : Place → ℕ → Place
next_place outside b = if b == b'"' then inside else outside
next_place inside b = if b == b'\\' then escaped else if b == b'"' then outside else inside
next_place escaped b = inside

is_kept : Place → ℕ → Bool
is_kept outside b = not (b == b'"')
is_kept _ b = false

-- The bytes outside of the string literals.
unquoted : Place → List ℕ → List ℕ
unfolding next_place is_kept
unquoted p [] = []
unquoted p (b ∷ body) =
    let rest = unquoted (next_place p b) body in if is_kept p b then b ∷ rest else rest

-- The depth behind a byte: a bracket that closes nothing is passed over, and the count stops at the
-- largest `usize`.
bracketed : ℕ → ℕ → ℕ
bracketed b depth =
    if b == b'{' || b == b'['
    then min (depth + 1) usize_max
    else if b == b'}' || b == b']'
    then depth - 1
    else depth

-- The greatest depth along a text without string literals.
nesting : ℕ → List ℕ → ℕ
unfolding bracketed
nesting depth [] = depth
nesting depth (b ∷ body) = max depth (nesting (bracketed b depth) body)

unfoldable pub json_depth : List ℕ → ℕ
unfolding nesting unquoted
json_depth body = nesting 0 (unquoted outside body)

scanner_at : Place → ℕ → Scanner
scanner_at outside d = record { depth = d; in_str = false; esc = false }
scanner_at inside d = record { depth = d; in_str = true; esc = false }
scanner_at escaped d = record { depth = d; in_str = true; esc = true }

depth-scanner_at : (p : Place) (d : ℕ) → (scanner_at p d).depth ≡ d
unfolding scanner_at
depth-scanner_at outside d = refl
depth-scanner_at inside d = refl
depth-scanner_at escaped d = refl

step-scanner_at :
    (p : Place) (b d : ℕ)
    → step b (scanner_at p d)
      ≡ scanner_at (next_place p b) (if is_kept p b then bracketed b d else d)
unfolding step scanner_at next_place is_kept bracketed
step-scanner_at outside b d = ground arith
step-scanner_at inside b d = ground arith
step-scanner_at escaped b d = ground arith

le-nesting : (d : ℕ) (body : List ℕ) → d ≤ nesting d body
unfolding nesting
le-nesting d [] = omega arith
le-nesting d (b ∷ body) = omega arith

peak_from-step :
    (b : ℕ) (body : List ℕ) (p : Place) (d : ℕ)
    → peak_from (b ∷ body) (scanner_at p d)
      ≡ max d
          (peak_from body (scanner_at (next_place p b) (if is_kept p b then bracketed b d else d)))
unfolding peak_from
peak_from-step b body p d =
    ap (λ s. max ((scanner_at p d).depth) (peak_from body s)) (step-scanner_at p b d)
    ∙ ap
        (λ n.
          max n (
            peak_from body
              (scanner_at (next_place p b) (if is_kept p b then bracketed b d else d))))
        (depth-scanner_at p d)

peak_from-nesting :
    (body : List ℕ) (p : Place) (d : ℕ)
    → peak_from body (scanner_at p d) ≡ nesting d (unquoted p body)
unfolding nesting unquoted
peak_from-nesting [] p d = unfold peak_from in depth-scanner_at p d
peak_from-nesting (b ∷ body) p d = elim (Bool-cases (is_kept p b)) [
  | inl e ↦
      rw (peak_from-step b body p d, e)
        (ap (max d) (peak_from-nesting body (next_place p b) (bracketed b d)))
  | inr e ↦
      let ih = peak_from-nesting body (next_place p b) d in
      let least = le-nesting d (unquoted (next_place p b) body) in
      rw (peak_from-step b body p d, e) (ap (max d) ih ∙ omega (arith, least))
]

json_depth-peak : (body : List ℕ) → peak_depth body ≡ json_depth body
unfolding peak_depth json_depth
json_depth-peak body =
    let start : scanner_start ≡ scanner_at outside 0 = unfold scanner_at in refl in
    ap (peak_from body) start ∙ peak_from-nesting body outside 0

-- A body passes exactly if the deepest bracket nesting outside of string literals, over the whole
-- body, is at most `max`; any other body is answered by `bad_request`.
pub check_json_depth-peak :
    (body : List ℕ) (m : ℕ)
    → check_json_depth body m ≡ (if ltb m (json_depth body) then err bad_request else ok tt)
unfolding check_json_depth peak_depth
check_json_depth-peak body m =
    check_from-ok body m scanner_start (omega arith)
    ∙ ap (λ n. if ltb m n then err bad_request else ok tt) (json_depth-peak body)

-- A body longer than the byte limit is refused with `payload_too_large`, else one whose brackets
-- outside of string literals nest deeper than the depth limit with `bad_request`; a document is
-- returned exactly if both limits are kept and the JSON parser gives that document. A string
-- literal ends at a quote with no backslash of its own before it; a bracket that closes nothing
-- leaves the depth at 0, and the depth is counted up to 2^64 - 1.
pub parse_jsonld_acl_with_limits_lem :
    (from_slice : List ℕ → Option AclDocument) (body : List ℕ) (max_bytes max_depth : ℕ)
    → (max_bytes < length body
        → parse_jsonld_acl_with_limits from_slice body max_bytes max_depth ≡ err payload_too_large)
      × (length body ≤ max_bytes
          → max_depth < json_depth body
          → parse_jsonld_acl_with_limits from_slice body max_bytes max_depth ≡ err bad_request)
      × ((doc : AclDocument)
          → (parse_jsonld_acl_with_limits from_slice body max_bytes max_depth ≡ ok doc) ↔ (
              (length body ≤ max_bytes)
              × (json_depth body ≤ max_depth)
              × (from_slice body ≡ some doc)))
unfolding parse_jsonld_acl_with_limits
parse_jsonld_acl_with_limits_lem from_slice body max_bytes max_depth = (
  λ h. ground arith,
  λ h k. ground (arith, check_json_depth-peak body max_depth),
  λ doc. (
    λ e. ground (arith, check_json_depth-peak body max_depth),
    λ (a, b, c). ground (arith, check_json_depth-peak body max_depth),
  ),
)

-- The limit on the bytes of a body: what the environment sets, or the default.
abbrev pub IsByteLimit : Option ℕ → ℕ → Type 0
IsByteLimit env_bytes limit =
    (env_bytes ≡ some limit) ⊎ ((env_bytes ≡ none) × (limit ≡ max_acl_bytes))

pub parse_jsonld_acl-large :
    (from_slice : List ℕ → Option AclDocument) (env_bytes env_depth : Option ℕ) (body : List ℕ)
    (limit : ℕ)
    → IsByteLimit env_bytes limit
    → limit < length body
    → parse_jsonld_acl from_slice env_bytes env_depth body ≡ err payload_too_large
unfolding parse_jsonld_acl parse_jsonld_acl_with_limits or_default
parse_jsonld_acl-large from_slice env_bytes env_depth body limit (inl e) h = rw e (ground arith)
parse_jsonld_acl-large from_slice env_bytes env_depth body limit (inr (e, same)) h =
    rw e (ground arith)
