-- ===== src/Wac/Resolver/Paths.antt =====
-- What the walk does to paths: the key of a level's ACL and the level above.
use solid_pod_rs.Prelude.{
  ℕ, if◌then◌else◌, ◌≡◌, ◌≢◌, refl, ap, ◌∙◌, Bool, true, false, ◌&&◌, none, some, [], ◌∷◌, ◌++◌,
  ◌==◌, ==_iff, all, Bool-cases, Option-cases, inl, inr, ◌⊎◌, arith,
}
use solid_pod_rs.Text.{Str, text, str_eq, is_empty, has, trim_end_by, trim_end_matches}
use solid_pod_rs.Text.Laws.{str_eq_iff}
use solid_pod_rs.Wac.Target.{slash}
use solid_pod_rs.Wac.Resolver.{before_last, acl_key, container_of, parent}

-- The path without the slashes at its end.
abbrev pub IsTrimmed : (path stem : Str) → Type 0
IsTrimmed path stem =
    ((tail : Str) × (path ≡ stem ++ tail) × (all (λ c. c == b'/') tail ≡ true))
    × ((t : Str) → stem ≢ t ++ b'/' ∷ [])

-- The ACL of the root is `/.acl`; that of another path stands beside it.
abbrev pub IsAclKey : (path key : Str) → Type 0
IsAclKey path key =
    ((path ≡ b'/' ∷ []) × (key ≡ text "/.acl"))
    ⊎ ((path ≢ b'/' ∷ []) × ((stem : Str) × IsTrimmed path stem × (key ≡ stem ++ text ".acl")))

-- The path above is that without the last segment, or the root if nothing else is left.
abbrev pub IsAbove : (path up : Str) → Type 0
IsAbove path up =
    (stem : Str) × IsTrimmed path stem
    × (((before name : Str) × (stem ≡ before ++ b'/' ∷ name)
          × (has b'/' name ≡ false)
          × (((before ≡ []) × (up ≡ b'/' ∷ [])) ⊎ ((before ≢ []) × (up ≡ before))))
        ⊎ ((has b'/' stem ≡ false) × (up ≡ b'/' ∷ [])))

trim_end_by-tail :
    (p : ℕ → Bool) (s : Str) → (tail : Str) × (s ≡ trim_end_by p s ++ tail) × (all p tail ≡ true)
unfolding trim_end_by
trim_end_by-tail p [] = ([], refl, refl)
trim_end_by-tail p (x ∷ xs) =
    let (tail, whole, passes) = trim_end_by-tail p xs in
    elim (Bool-cases (p x && is_empty (trim_end_by p xs))) [
      | inl e ↦ rw e (x ∷ xs, refl, cut (p x) (trim_end_by p xs) tail e whole passes)
      | inr e ↦ rw e (tail, ap (λ t. x ∷ t) whole, passes)
    ]
  where
    cut :
        (b : Bool) (kept tail : Str)
        → (b && is_empty kept) ≡ true
        → xs ≡ kept ++ tail
        → all p tail ≡ true
        → (b && all p xs) ≡ true
    cut true [] tail e whole passes = rw whole passes
    cut true (c ∷ kept) tail e whole passes = cc
    cut false kept tail e whole passes = cc

trim_end_by-last : (p : ℕ → Bool) (s t : Str) (c : ℕ) → trim_end_by p s ≡ t ++ c ∷ [] → p c ≡ false
unfolding trim_end_by
trim_end_by-last p [] [] c h = cc
trim_end_by-last p [] (y ∷ t) c h = cc
trim_end_by-last p (x ∷ xs) [] c h = ground arith
trim_end_by-last p (x ∷ xs) (y ∷ t) c h = elim (Bool-cases (p x && is_empty (trim_end_by p xs))) [
  | inl e ↦ let bad = rw e at h in cc
  | inr e ↦ let left = rw e at h in trim_end_by-last p xs t c (cc)
]

trim_end-IsTrimmed : (path : Str) → IsTrimmed path (trim_end_matches b'/' path)
unfolding trim_end_matches
trim_end-IsTrimmed path = (
  trim_end_by-tail (λ c. c == b'/') path,
  λ t h. let no = trim_end_by-last (λ c. c == b'/') path t b'/' h in cc,
)

before_last-none : (c : ℕ) (s : Str) → before_last c s ≡ none → has c s ≡ false
unfolding before_last
before_last-none c [] h = refl
before_last-none c (x ∷ xs) h = elim (Option-cases (before_last c xs)) [
  | inl e ↦
      let ih = before_last-none c xs e in
      let at : (if x == c then some [] else none) ≡ none = rw (before_last, e) at h in
      ground (arith, ih)
  | inr (u, e) ↦ let bad = rw (before_last, e) at h in cc
]

before_last-some :
    (c : ℕ) (s u : Str)
    → before_last c s ≡ some u
    → (name : Str) × (s ≡ u ++ c ∷ name) × (has c name ≡ false)
unfolding before_last
before_last-some c [] u h = cc
before_last-some c (x ∷ xs) u h = elim (Option-cases (before_last c xs)) [
  | inl e ↦ found (x == c) refl (rw (before_last, e) at h) (before_last-none c xs e)
  | inr (v, e) ↦
      let (name, whole, plain) = before_last-some c xs v e in
      let same : x ∷ v ≡ u = unsome (rw (before_last, e) at h) in
      (name, ap (λ t. x ∷ t) whole ∙ ap (λ t. t ++ c ∷ name) same, plain)
]
  where
    unsome : {a b : Str} → some a ≡ some b → a ≡ b
    unsome k = cc

    found :
        (b : Bool)
        → (x == c) ≡ b
        → (if b then some [] else none) ≡ some u
        → has c xs ≡ false
        → (name : Str) × (x ∷ xs ≡ u ++ c ∷ name) × (has c name ≡ false)
    found true same k plain =
        let empty : [] ≡ u = unsome k in
        (xs, ap (λ d. d ∷ xs) ((==_iff x c).0 same) ∙ ap (λ t. t ++ c ∷ xs) empty, plain)
    found false same k plain = cc

pub acl_key-IsAclKey : (path : Str) → IsAclKey path (acl_key path)
unfolding acl_key
acl_key-IsAclKey path = elim (Bool-cases (str_eq path slash)) [
  | inl e ↦ rw e (inl ((str_eq_iff path slash).0 e, refl))
  | inr e ↦ rw e (
      inr (
        λ same. cc (e, (str_eq_iff path slash).1 same),
        (trim_end_matches b'/' path, trim_end-IsTrimmed path, refl),
      ))
]

above :
    (before : Str)
    → ((before ≡ []) × (container_of (some before) ≡ b'/' ∷ []))
      ⊎ ((before ≢ []) × (container_of (some before) ≡ before))
unfolding container_of
above [] = inl (refl, refl)
above (c ∷ s) = inr (λ h. cc, refl)

pub parent-IsAbove : (path : Str) → IsAbove path (parent path)
unfolding parent
parent-IsAbove path =
    let stem = trim_end_matches b'/' path in
    (
      stem,
      trim_end-IsTrimmed path,
      elim (Option-cases (before_last b'/' stem)) [
        | inl e ↦ rw e (inr (before_last-none b'/' stem e, unfold container_of in refl))
        | inr (before, e) ↦
            let (name, whole, plain) = before_last-some b'/' stem before e in
            rw e (inl (before, name, whole, plain, above before))
      ],
    )
