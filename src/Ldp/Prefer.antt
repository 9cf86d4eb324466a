-- ===== src/Ldp/Prefer.antt =====
-- The header `Prefer` and the formats of RDF (crates/solid-pod-rs/src/ldp.rs).
use solid_pod_rs.Prelude.{
  ◌≡◌, refl, Bool, true, false, Option, none, some, List, [], ◌∷◌, if◌then◌else◌,
}
use solid_pod_rs.Text.{
  trim_start, trim_end, trim_start_by, trim_end_by, is_whitespace, split_by, ascii_lower, Str, text,
  str_eq, elem, is_empty, trim, trim_matches, split, split_whitespace, strip_prefix,
  eq_ignore_ascii_case, to_ascii_lowercase,
}
use solid_pod_rs.Security.Ssrf.{first_part}

pub data ContainerRepresentation : Type 0 where
  full minimal_container contained_iris_only : ContainerRepresentation

pub record PreferHeader : Type 0 where
  pub representation : ContainerRepresentation
  pub include_minimal : Bool
  pub include_contained_iris : Bool
  pub omit_membership : Bool

abbrev pub default_prefer : PreferHeader
default_prefer = record {
  representation = full;
  include_minimal = false;
  include_contained_iris = false;
  omit_membership = false;
}

include_iri : PreferHeader → Str → PreferHeader
include_iri out iri =
    if str_eq iri (text "http://www.w3.org/ns/ldp#PreferMinimalContainer")
    then record out { include_minimal = true; representation = minimal_container }
    else if str_eq iri (text "http://www.w3.org/ns/ldp#PreferContainedIRIs")
    then record out { include_contained_iris = true; representation = contained_iris_only }
    else out

omit_iri : PreferHeader → Str → PreferHeader
omit_iri out iri =
    if str_eq iri (text "http://www.w3.org/ns/ldp#PreferMembership")
    then record out { omit_membership = true }
    else out

each : (PreferHeader → Str → PreferHeader) → PreferHeader → List Str → PreferHeader
each f out [] = out
each f out (s ∷ ss) = each f (f out s) ss

-- `strip_prefix(a).or_else(|| strip_prefix(b))`.
either_prefix : Option Str → Option Str → Option Str
either_prefix none other = other
either_prefix (some v) other = some v

iris_in : Str → List Str
iris_in val = split_whitespace (trim_matches b'"' (trim val))

prefer_token : PreferHeader → (included omitted : Option Str) → PreferHeader
unfolding each include_iri omit_iri iris_in
prefer_token out (some val) omitted = each include_iri out (iris_in val)
prefer_token out none (some val) = each omit_iri out (iris_in val)
prefer_token out none none = out

read_token : PreferHeader → Str → PreferHeader
unfolding either_prefix prefer_token
read_token out part =
    let token = trim part in
    prefer_token out
      (either_prefix (strip_prefix (text "include=") token) (strip_prefix (text "include =") token))
      (either_prefix (strip_prefix (text "omit=") token) (strip_prefix (text "omit =") token))

read_parts : PreferHeader → List Str → PreferHeader
unfolding each read_token
read_parts out [] = out
read_parts out (head ∷ parts) =
    if eq_ignore_ascii_case (trim head) (text "return=representation")
    then each read_token out parts
    else out

read_preference : PreferHeader → Str → PreferHeader
unfolding read_parts
read_preference out preference =
    let pref = trim preference in if is_empty pref then out else read_parts out (split b';' pref)

unfoldable pub parse_prefer : Str → PreferHeader
unfolding each read_preference
parse_prefer value = each read_preference default_prefer (split b',' value)

pub data RdfFormat : Type 0 where
  turtle json_ld n_triples rdf_xml : RdfFormat

unfoldable pub mime_of : RdfFormat → Str
mime_of turtle = text "text/turtle"
mime_of json_ld = text "application/ld+json"
mime_of n_triples = text "application/n-triples"
mime_of rdf_xml = text "application/rdf+xml"

unfoldable pub from_mime : Str → Option RdfFormat
from_mime mime =
    let m = to_ascii_lowercase (trim (first_part (split b';' mime))) in
    if elem m (text "text/turtle" ∷ text "application/turtle" ∷ text "application/x-turtle" ∷ [])
    then some turtle
    else if elem m (text "application/ld+json" ∷ text "application/json+ld" ∷ [])
    then some json_ld
    else if elem m (text "application/n-triples" ∷ text "text/plain+ntriples" ∷ [])
    then some n_triples
    else if elem m (text "application/rdf+xml" ∷ [])
    then some rdf_xml
    else none

-- Every format is found again by its own type.
pub from_mime-mime_of : (f : RdfFormat) → from_mime (mime_of f) ≡ some f
unfolding from_mime mime_of text trim trim_start trim_end trim_start_by trim_end_by is_whitespace
    split split_by to_ascii_lowercase ascii_lower str_eq
from_mime-mime_of turtle = refl
from_mime-mime_of json_ld = refl
from_mime-mime_of n_triples = refl
from_mime-mime_of rdf_xml = refl
