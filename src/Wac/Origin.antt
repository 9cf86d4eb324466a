-- ===== src/Wac/Origin.antt =====
-- The `acl:origin` gate (crates/solid-pod-rs/src/wac/origin.rs). `url::Url::parse` is the crate
-- `url`: a parameter that gives what the code reads of a URL.
pub mod Keys
pub mod Dedup
use solid_pod_rs.Prelude.{
  ℕ, Bool, true, false, not, ◌&&◌, ◌||◌, Option, none, some, List, [], ◌∷◌, ◌++◌, if◌then◌else◌,
  any, ◌<◌, length, ltb,
}
use solid_pod_rs.Text.{
  Str, text, str_eq, elem, is_empty, strip_prefix, ends_with, trim, to_ascii_lowercase, has,
  is_whitespace, byte_len, split_once,
}
use solid_pod_rs.Text.Decimal.{decimal}
use solid_pod_rs.Wac.Document.{get_ids, AclAuthorization, AclDocument}

-- `scheme()`, `host_str()` and `port()` of a parsed URL.
pub record Url : Type 0 where
  pub scheme : Str
  pub host_str : Option Str
  pub port : Option ℕ

abbrev pub UrlParser : Type 0
UrlParser = Str → Option Url

pub record Origin : Type 0 where
  pub as_str : Str

with_port : Str → Option ℕ → Str
with_port origin none = origin
with_port origin (some p) = origin ++ (b':' ∷ decimal p)

origin_of : Url → Option Str → Option Origin
origin_of url none = none
origin_of url (some host) = some (record {
  as_str =
      with_port (to_ascii_lowercase url.scheme ++ (text "://" ++ to_ascii_lowercase host)) url.port;
})

unfoldable pub from_url : Url → Option Origin
unfolding origin_of with_port
from_url url = origin_of url url.host_str

abbrev from_parsed : Option Url → Option Origin
from_parsed none = none
from_parsed (some url) = from_url url

unfoldable pub parse_origin : UrlParser → Str → Option Origin
unfolding from_url
parse_origin url_parse s =
    let trimmed = trim s in if is_empty trimmed then none else from_parsed (url_parse trimmed)

pub data OriginPattern : Type 0 where
  exact : Origin → OriginPattern
  wildcard : (scheme suffix : Str) → OriginPattern
  any_origin : OriginPattern

unfoldable pub parse_wildcard : Str → Str → Option OriginPattern
parse_wildcard scheme suffix_part =
    if is_empty suffix_part
    then none
    else if any is_whitespace suffix_part || has b'*' suffix_part
    then none
    else if has b'/' suffix_part
    then none
    else some (wildcard scheme (to_ascii_lowercase suffix_part))

exact_if : Str → Option Origin → Option OriginPattern
exact_if trimmed none = none
exact_if trimmed (some origin) =
    if not (str_eq origin.as_str (to_ascii_lowercase trimmed)) then none else some (exact origin)

parse_exact : UrlParser → Str → Option OriginPattern
unfolding exact_if
parse_exact url_parse trimmed =
    if ends_with (text "/") trimmed then none else exact_if trimmed (parse_origin url_parse trimmed)

after_https : UrlParser → Str → Option Str → Option OriginPattern
after_https url_parse trimmed (some rest) = parse_wildcard (text "http") rest
after_https url_parse trimmed none = parse_exact url_parse trimmed

after_any : UrlParser → Str → Option Str → Option OriginPattern
unfolding after_https
after_any url_parse trimmed (some rest) = parse_wildcard (text "https") rest
after_any url_parse trimmed none =
    after_https url_parse trimmed (strip_prefix (text "http://*.") trimmed)

unfoldable pub parse_pattern : UrlParser → Str → Option OriginPattern
unfolding after_any parse_exact
parse_pattern url_parse s =
    let trimmed = trim s in
    if is_empty trimmed
    then none
    else if str_eq trimmed (text "*")
    then some any_origin
    else after_any url_parse trimmed (strip_prefix (text "https://*.") trimmed)

host_part : Str → Option (Str × Str) → Str
host_part whole none = whole
host_part whole (some (host, port)) = host

unfoldable pub without_port : Str → Str
unfolding host_part
without_port s = host_part s (split_once (text ":") s)

subdomain_of : Str → Str → Option (Str × Str) → Bool
subdomain_of scheme suffix none = false
subdomain_of scheme suffix (some (req_scheme, req_rest)) =
    if not (str_eq req_scheme scheme)
    then false
    else let req_host = without_port req_rest in
      let needle = b'.' ∷ without_port suffix in
      ends_with needle req_host && ltb (byte_len needle) (byte_len req_host)

unfoldable pub matches : OriginPattern → Origin → Bool
unfolding subdomain_of
matches any_origin origin = true
matches (exact expected) origin = str_eq expected.as_str origin.as_str
matches (wildcard scheme suffix) origin =
    subdomain_of scheme suffix (split_once (text "://") origin.as_str)

abbrev push_pattern : Option OriginPattern → List OriginPattern → List OriginPattern
push_pattern none ps = ps
push_pattern (some p) ps = p ∷ ps

patterns_in : UrlParser → List Str → List OriginPattern
patterns_in url_parse [] = []
patterns_in url_parse (id ∷ ids) =
    push_pattern (parse_pattern url_parse id) (patterns_in url_parse ids)

unfoldable pub extract_origin_patterns : UrlParser → AclAuthorization → List OriginPattern
unfolding patterns_in
extract_origin_patterns url_parse auth = patterns_in url_parse (get_ids auth.origin)

pub data OriginDecision : Type 0 where
  no_policy_set permitted rejected_mismatch rejected_no_origin : OriginDecision

unfoldable pub pattern_key : OriginPattern → Str
pattern_key any_origin = text "*"
pattern_key (exact o) = text "exact:" ++ o.as_str
pattern_key (wildcard scheme suffix) = text "wild:" ++ (scheme ++ (text "://*." ++ suffix))

-- The three variables of the loop in `check_origin`.
pub record Scan : Type 0 where
  pub any_patterns : Bool
  pub matched : Bool
  pub seen : List Str

abbrev request_matches : Option Origin → OriginPattern → Bool
request_matches none p = false
request_matches (some req) p = matches p req

unfoldable pub scan_pattern : Option Origin → OriginPattern → Scan → Scan
scan_pattern req p s =
    let key = pattern_key p in
    if elem key s.seen then s else record {
      any_patterns = true;
      matched = if request_matches req p then true else s.matched;
      seen = key ∷ s.seen;
    }

unfoldable pub scan_patterns : Option Origin → List OriginPattern → Scan → Scan
scan_patterns req [] s = s
scan_patterns req (p ∷ ps) s = scan_patterns req ps (scan_pattern req p s)

unfoldable pub scan_graph : UrlParser → Option Origin → List AclAuthorization → Scan → Scan
scan_graph url_parse req [] s = s
scan_graph url_parse req (auth ∷ graph) s =
    scan_graph url_parse req graph (scan_patterns req (extract_origin_patterns url_parse auth) s)

abbrev pub decide_origin : Option Origin → Bool → Bool → OriginDecision
decide_origin req false matched = no_policy_set
decide_origin req true true = permitted
decide_origin none true false = rejected_no_origin
decide_origin (some o) true false = rejected_mismatch

abbrev pub scan_start : Scan
scan_start = record { any_patterns = false; matched = false; seen = [] }

check_graph : UrlParser → Option Origin → Option (List AclAuthorization) → OriginDecision
check_graph url_parse req none = no_policy_set
check_graph url_parse req (some graph) =
    let s = scan_graph url_parse req graph scan_start in decide_origin req s.any_patterns s.matched

unfoldable pub check_origin : UrlParser → AclDocument → Option Origin → OriginDecision
unfolding check_graph
check_origin url_parse acl req = check_graph url_parse req acl.graph
