-- ===== src/Wac/Origin/Keys.antt =====
-- The keys by which `check_origin` tells patterns apart, and the patterns that the parser gives.
use solid_pod_rs.Prelude.{
  ℕ, ◌≡◌, refl, ap, ◌⊎◌, inl, inr, Bool, true, false, not, ◌||◌, Option, none, some, List, [], ◌∷◌,
  arith, if◌then◌else◌, any, drop, Memᴰ, zero, suc, ◌==◌,
}
use solid_pod_rs.Text.{
  Str, text, str_eq, is_empty, trim, has, is_whitespace, to_ascii_lowercase, ends_with,
}
use solid_pod_rs.Wac.Document.{get_ids, AclAuthorization}
use solid_pod_rs.Wac.Origin.{
  UrlParser, Origin, OriginPattern, exact, wildcard, any_origin, parse_wildcard, parse_exact,
  exact_if, parse_origin, after_https, after_any, parse_pattern, push_pattern, patterns_in,
  extract_origin_patterns, pattern_key,
}

-- The schemes that the parser gives to a wildcard.
abbrev pub IsKnown : OriginPattern → Type 0
IsKnown (wildcard scheme suffix) = (scheme ≡ text "http") ⊎ (scheme ≡ text "https")
IsKnown (exact o) = Unit
IsKnown any_origin = Unit

abbrev nth : ℕ → Str → ℕ
nth n [] = 0
nth zero (c ∷ s) = c
nth (suc n) (c ∷ s) = nth n s

differ : (m k : ℕ) → (m == k) ≡ false → m ≡ k → ⊥
differ m k h e = ground arith

wildcard_key :
    (s t a b : Str)
    → (s ≡ text "http") ⊎ (s ≡ text "https")
    → (t ≡ text "http") ⊎ (t ≡ text "https")
    → pattern_key (wildcard s a) ≡ pattern_key (wildcard t b)
    → wildcard s a ≡ wildcard t b
unfolding pattern_key text
wildcard_key s t a b (inl p) (inl q) e =
    let same : a ≡ b = ap (drop 14) (rw (p, q) at e) in rw (p, q, same)
wildcard_key s t a b (inl p) (inr q) e =
    absurd (differ b':' b's' refl (ap (nth 9) (rw (p, q) at e)))
wildcard_key s t a b (inr p) (inl q) e =
    absurd (differ b's' b':' refl (ap (nth 9) (rw (p, q) at e)))
wildcard_key s t a b (inr p) (inr q) e =
    let same : a ≡ b = ap (drop 15) (rw (p, q) at e) in rw (p, q, same)

-- The key tells the patterns apart that a document can declare.
pub pattern_key-injective :
    (p q : OriginPattern) → IsKnown p → IsKnown q → pattern_key p ≡ pattern_key q → p ≡ q
unfolding pattern_key text
pattern_key-injective (exact o) (exact u) kp kq e = ap (λ s. exact (record { as_str = drop 6 s })) e
pattern_key-injective (wildcard s a) (wildcard t b) kp kq e = wildcard_key s t a b kp kq e
pattern_key-injective any_origin any_origin kp kq e = refl
pattern_key-injective (exact o) (wildcard t b) kp kq e =
    absurd (differ b'e' b'w' refl (ap (nth 0) e))
pattern_key-injective (exact o) any_origin kp kq e = absurd (differ b'e' b'*' refl (ap (nth 0) e))
pattern_key-injective (wildcard s a) (exact u) kp kq e =
    absurd (differ b'w' b'e' refl (ap (nth 0) e))
pattern_key-injective (wildcard s a) any_origin kp kq e =
    absurd (differ b'w' b'*' refl (ap (nth 0) e))
pattern_key-injective any_origin (exact u) kp kq e = absurd (differ b'*' b'e' refl (ap (nth 0) e))
pattern_key-injective any_origin (wildcard t b) kp kq e =
    absurd (differ b'*' b'w' refl (ap (nth 0) e))

abbrev KnownOpt : Option OriginPattern → Type 0
KnownOpt none = Unit
KnownOpt (some p) = IsKnown p

KnownOpt-if : (b : Bool) (o : Option OriginPattern) → KnownOpt o → KnownOpt (if b then none else o)
KnownOpt-if true o h = tt
KnownOpt-if false o h = h

parse_wildcard-Known :
    (s a : Str) → (s ≡ text "http") ⊎ (s ≡ text "https") → KnownOpt (parse_wildcard s a)
unfolding parse_wildcard
parse_wildcard-Known s a h = KnownOpt-if (is_empty a) _ (
    KnownOpt-if (any is_whitespace a || has b'*' a) _
      (KnownOpt-if (has b'/' a) (some (wildcard s (to_ascii_lowercase a))) h))

exact_if-Known : (t : Str) (o : Option Origin) → KnownOpt (exact_if t o)
unfolding exact_if
exact_if-Known t none = tt
exact_if-Known t (some o) =
    KnownOpt-if (not (str_eq o.as_str (to_ascii_lowercase t))) (some (exact o)) tt

parse_exact-Known : (url_parse : UrlParser) (t : Str) → KnownOpt (parse_exact url_parse t)
unfolding parse_exact
parse_exact-Known url_parse t =
    KnownOpt-if (ends_with (text "/") t) _ (exact_if-Known t (parse_origin url_parse t))

after_https-Known :
    (url_parse : UrlParser) (t : Str) (o : Option Str) → KnownOpt (after_https url_parse t o)
unfolding after_https
after_https-Known url_parse t none = parse_exact-Known url_parse t
after_https-Known url_parse t (some rest) = parse_wildcard-Known _ rest (inl refl)

after_any-Known :
    (url_parse : UrlParser) (t : Str) (o : Option Str) → KnownOpt (after_any url_parse t o)
unfolding after_any
after_any-Known url_parse t none = after_https-Known url_parse t _
after_any-Known url_parse t (some rest) = parse_wildcard-Known _ rest (inr refl)

KnownOpt-any :
    (b : Bool) (o : Option OriginPattern) → KnownOpt o → KnownOpt (if b then some any_origin else o)
KnownOpt-any true o h = tt
KnownOpt-any false o h = h

parse_pattern-Known : (url_parse : UrlParser) (s : Str) → KnownOpt (parse_pattern url_parse s)
unfolding parse_pattern
parse_pattern-Known url_parse s =
    KnownOpt-if (is_empty (trim s)) _
      (KnownOpt-any (str_eq (trim s) (text "*")) _ (after_any-Known url_parse (trim s) _))

abbrev pub AllKnown : List OriginPattern → Type 0
AllKnown ps = (p : OriginPattern) → Memᴰ p ps → IsKnown p

AllKnown-push :
    (o : Option OriginPattern) (ps : List OriginPattern)
    → KnownOpt o
    → AllKnown ps
    → AllKnown (push_pattern o ps)
AllKnown-push none ps k h p m = h p m
AllKnown-push (some q) ps k h p (Memᴰ.head e) = rw e k
AllKnown-push (some q) ps k h p (Memᴰ.tail m) = h p m

patterns_in-Known : (url_parse : UrlParser) (ids : List Str) → AllKnown (patterns_in url_parse ids)
unfolding patterns_in
patterns_in-Known url_parse [] p m = elim m [ ]
patterns_in-Known url_parse (id ∷ ids) p m =
    AllKnown-push (parse_pattern url_parse id) (patterns_in url_parse ids)
      (parse_pattern-Known url_parse id) (patterns_in-Known url_parse ids) p m

pub extract_origin_patterns-Known :
    (url_parse : UrlParser) (auth : AclAuthorization)
    → AllKnown (extract_origin_patterns url_parse auth)
unfolding extract_origin_patterns
extract_origin_patterns-Known url_parse auth = patterns_in-Known url_parse (get_ids auth.origin)
