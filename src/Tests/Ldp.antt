-- ===== src/Tests/Ldp.antt =====
-- The LDP theorems at concrete requests.
use solid_pod_rs.Prelude.{inl, ◌≡◌, ◌≢◌, refl, none, some, [], ◌∷◌, ◌++◌, length, arith, Memᴰ}
use solid_pod_rs.Error.{bad_request, ok, err}
use solid_pod_rs.Text.{
  Str, text, byte_len, contains, str_eq, ends_with, trim, split, strip_prefix, split_once,
  trim_matches, to_ascii_uppercase,
}
use solid_pod_rs.Text.Decimal.{parse_u64}
use solid_pod_rs.Wac.Resolver.{acl_key}
use solid_pod_rs.Ldp.Path.{acl_link, link_headers, resolve_slug, join_path}
use solid_pod_rs.Ldp.Path.Slug.{IsJoined, resolve_slug_lem}
use solid_pod_rs.Ldp.Path.Sidecar.{acl_key-of_container}
use solid_pod_rs.Ldp.Precondition.{evaluate_preconditions, not_modified, parse_etag_list}
use solid_pod_rs.Ldp.Precondition.Table.{IfNoneMatchHolds, evaluate_preconditions_iff}
use solid_pod_rs.Ldp.Range.{ByteRange, parse_range_header_v2, partial, slice_range, range_length}
use solid_pod_rs.Ldp.Range.Bounds.{IsWithin, parse_range_header_v2-IsWithin, slice_range_lem}
use solid_pod_rs.Ldp.Range.RoundTrip.{range_header, parse_range_header_v2-range_header}

not_modified_get :
    evaluate_preconditions (text "get") (some (text "abc")) none (some (text " \"x\", W/\"abc\" "))
    ≡ not_modified
unfolding evaluate_preconditions text str_eq parse_etag_list trim split strip_prefix trim_matches
    to_ascii_uppercase
not_modified_get = refl

evaluate_preconditions_iff_example :
    ¬ IfNoneMatchHolds (some (text "abc")) (some (text " \"x\", W/\"abc\" "))
evaluate_preconditions_iff_example =
    ((evaluate_preconditions_iff (text "get") (some (text "abc")) none
        (some (text " \"x\", W/\"abc\" "))).1.0
      not_modified_get).1

resolve_slug_lem_example :
    (target : Str) × (resolve_slug (text "u") (text "/c/") none ≡ ok target)
    × IsJoined (text "/c/") (text "u") target
resolve_slug_lem_example = (resolve_slug_lem (text "u") (text "/c/") none).1 (inl refl)

slug_refused : resolve_slug (text "u") (text "/c/") (some (text "a..b")) ≡ err bad_request
unfolding resolve_slug text contains byte_len
slug_refused = refl

slug_taken : resolve_slug (text "u") (text "/c") (some (text "a.b")) ≡ ok (text "/c/a.b")
unfolding resolve_slug text contains byte_len join_path ends_with
slug_taken = refl

acl_key-of_container_example :
    (acl_key (b'/' ∷ [] ++ b'a' ∷ b'/' ∷ []) ≡ (b'/' ∷ [] ++ b'a' ∷ []) ++ text ".acl")
    × (acl_key (b'/' ∷ [] ++ b'a' ∷ b'/' ∷ []) ≢ (b'/' ∷ [] ++ b'a' ∷ b'/' ∷ []) ++ text ".acl")
    × Memᴰ
        (acl_link ((b'/' ∷ [] ++ b'a' ∷ b'/' ∷ []) ++ text ".acl"))
        (link_headers (b'/' ∷ [] ++ b'a' ∷ b'/' ∷ []))
acl_key-of_container_example = acl_key-of_container (b'/' ∷ []) b'a' refl

abbrev ten : ByteRange
ten = record { start = 2; end = 4 }

partial_read : parse_range_header_v2 (some (text " bytes=2-99")) 5 ≡ ok (partial ten)
unfolding parse_range_header_v2 text trim strip_prefix split_once parse_u64
partial_read = refl

parse_range_header_v2-IsWithin_example : IsWithin 5 ten
parse_range_header_v2-IsWithin_example =
    parse_range_header_v2-IsWithin (some (text " bytes=2-99")) 5 ten partial_read

slice_range_lem_example :
    (length (slice_range (7 ∷ 8 ∷ 9 ∷ 10 ∷ 11 ∷ []) ten) ≡ range_length ten)
    × (range_length ten ≡ 3)
    × (slice_range (7 ∷ 8 ∷ 9 ∷ 10 ∷ 11 ∷ []) ten ≡ 9 ∷ 10 ∷ 11 ∷ [])
slice_range_lem_example = slice_range_lem (7 ∷ 8 ∷ 9 ∷ 10 ∷ 11 ∷ []) ten (omega arith) (omega arith)

parse_range_header_v2-range_header_example :
    parse_range_header_v2 (some (range_header 2 99)) 5
    ≡ ok (partial (record { start = 2; end = 4 }))
parse_range_header_v2-range_header_example =
    parse_range_header_v2-range_header 2 99 5 (omega arith) (omega arith) (omega arith)
