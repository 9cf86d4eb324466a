-- ===== src/Wac/Turtle/Rules/Statements.antt =====
-- A rule that was written stays whole in the splitter of statements, and the rules of a document are
-- read back one by one.
use solid_pod_rs.Prelude.{
  ℕ, ◌≡◌, Bool, true, false, not, ◌&&◌, ◌||◌, none, some, List, [], ◌∷◌, ◌++◌, ◌==◌, all,
}
use solid_pod_rs.Text.{Str, text, has, starts_with}
use solid_pod_rs.Text.Map.{Map, lookup}
use solid_pod_rs.Wac.Document.{AclAuthorization}
use solid_pod_rs.Wac.Turtle.{Scan, statement_signs, scan_start, split_scan}
use solid_pod_rs.Wac.Turtle.Rules.RoundTrip.{acl_namespace, fields, all_carried}

-- The splitter runs over the text and is then as it was before.
Passes : Str → Type 0
Passes t =
    (cs cur : Str)
    → split_scan statement_signs (t ++ cs) scan_start cur
      ≡ split_scan statement_signs cs scan_start (cur ++ t)

abbrev is_calm : ℕ → Bool
is_calm c = not (c == b'.' || (c == b'<' || (c == b'>' || c == b'"')))

abbrev inside : Scan
inside = record { depth = 1; in_str = false }

-- An identifier with no dot outside of an IRI.
abbrev pub is_uncut : Str → Bool
is_uncut r = starts_with (text "http") r || not (has b'.' r)

abbrev pub all_uncut : List (Str × List Str) → Bool
all_uncut [] = true
all_uncut ((pred, ids) ∷ fs) = all is_uncut ids && all_uncut fs

module _ (prefixes : Map Str) (acl : lookup (text "acl") prefixes ≡ some acl_namespace) where
  -- The conditions under which the writer carries a rule over.
  pub record IsCarriedRule (auth : AclAuthorization) : Type 0 where
    pub no_conditions : auth.condition ≡ none
    pub carried : all_carried (fields auth) ≡ true
    pub uncut : all_uncut (fields auth) ≡ true

  abbrev pub AllRules : List AclAuthorization → Type 0
  AllRules [] = Unit
  AllRules (auth ∷ graph) = IsCarriedRule auth × AllRules graph
