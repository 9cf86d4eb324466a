-- ===== src/Wac/Bounds.antt =====
-- The bounds that guard the ACL parsers (crates/solid-pod-rs/src/wac/mod.rs). A body is a list of
-- bytes; `serde_json::from_slice` is a parameter. The environment variables that
-- `parse_jsonld_acl` reads are its arguments.
pub mod Depth
use solid_pod_rs.Prelude.{
  ℕ, ◌+◌, ◌-◌, ◌≡◌, Bool, true, false, Option, none, some, List, [], ◌∷◌, ltb, leb, ◌==◌, ◌||◌, min,
  if◌then◌else◌, length,
}
use solid_pod_rs.Error.{
  PodError, acl_parse, bad_request, payload_too_large, Result, ok, err, ◌>>=◌, ◌>>◌,
}
use solid_pod_rs.Wac.Document.{AclDocument}

abbrev pub max_acl_bytes : ℕ
max_acl_bytes = 1048576

abbrev pub max_acl_json_depth : ℕ
max_acl_json_depth = 32

-- `usize` has 64 bits.
abbrev pub usize_max : ℕ
usize_max = 18446744073709551615

-- The three variables of the loop.
pub record Scanner : Type 0 where
  pub depth : ℕ
  pub in_str : Bool
  pub esc : Bool

abbrev pub scanner_start : Scanner
scanner_start = record { depth = 0; in_str = false; esc = false }

-- The round of the loop inside a string literal.
unfoldable pub step_string : ℕ → Scanner → Scanner
step_string b s =
    if s.esc
    then record s { esc = false }
    else if b == b'\\'
    then record s { esc = true }
    else if b == b'"'
    then record s { in_str = false }
    else s

unfoldable pub step_plain : ℕ → Scanner → Scanner
step_plain b s =
    if b == b'"'
    then record s { in_str = true }
    else if b == b'{' || b == b'['
    then record s { depth = min (s.depth + 1) usize_max }
    else if b == b'}' || b == b']'
    then record s { depth = s.depth - 1 }
    else s

unfoldable pub step : ℕ → Scanner → Scanner
unfolding step_string step_plain
step b s = if s.in_str then step_string b s else step_plain b s

abbrev pub opens : ℕ → Scanner → Bool
opens b s = if s.in_str then false else (b == b'{' || b == b'[')

check_from : List ℕ → ℕ → Scanner → Result (Unit {0})
check_from [] max s = ok tt
check_from (b ∷ body) max s =
    let next = step b s in
    let rest = check_from body max next in
    if opens b s then (if ltb max next.depth then err bad_request else rest) else rest

unfoldable pub check_json_depth : List ℕ → ℕ → Result (Unit {0})
unfolding check_from step
check_json_depth body max = check_from body max scanner_start

module _ (from_slice : List ℕ → Option AclDocument) where
  parsed : Option AclDocument → Result AclDocument
  parsed none = err acl_parse
  parsed (some doc) = ok doc

  unfoldable pub parse_jsonld_acl_with_limits : List ℕ → ℕ → ℕ → Result AclDocument
  unfolding check_json_depth parsed
  parse_jsonld_acl_with_limits body max_bytes max_depth =
      if ltb max_bytes (length body)
      then err payload_too_large
      else do check_json_depth body max_depth; parsed (from_slice body)

  or_default : Option ℕ → ℕ → ℕ
  or_default none d = d
  or_default (some n) d = n

  -- The two limits that the environment sets, where it sets them to numbers.
  unfoldable pub parse_jsonld_acl : Option ℕ → Option ℕ → List ℕ → Result AclDocument
  unfolding parse_jsonld_acl_with_limits or_default
  parse_jsonld_acl env_bytes env_depth body =
      parse_jsonld_acl_with_limits body (or_default env_bytes max_acl_bytes)
        (or_default env_depth max_acl_json_depth)
