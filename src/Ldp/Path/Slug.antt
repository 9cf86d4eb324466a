-- ===== src/Ldp/Path/Slug.antt =====
-- What `resolve_slug` accepts.
use solid_pod_rs.Prelude.{
  ℕ, ◌⊎◌, ◌∙◌, ◌++◌, sym, subst, Memᴰ, Bool-cases, ◌≤◌, ◌≡◌, ◌≢◌, ◌↔◌, refl, true, false, Option,
  none, some, [], ◌∷◌, all, arith, inl, inr,
}
use solid_pod_rs.Error.{PodError, bad_request, ok, err, Result-cases}
use solid_pod_rs.Text.{Str, text, contains, has, byte_len, ends_with}
use solid_pod_rs.Text.Affix.{ends_with_iff}
use solid_pod_rs.Ldp.Path.{max_slug_bytes, join_path, is_slug_char, checked_slug, resolve_slug}

-- Letters and digits of ASCII, the full stop, the underscore and the dash.
abbrev pub IsSlugChar : ℕ → Type 0
IsSlugChar c =
    ((b'0' ≤ c) × (c ≤ b'9'))
    ⊎ ((b'A' ≤ c) × (c ≤ b'Z'))
    ⊎ ((b'a' ≤ c) × (c ≤ b'z'))
    ⊎ (c ≡ b'.')
    ⊎ (c ≡ b'_')
    ⊎ (c ≡ b'-')

-- The path of a segment in a container: one slash is put between them if the container has none.
abbrev pub IsJoined : (container segment target : Str) → Type 0
IsJoined container segment target =
    (((r : Str) × (container ≡ r ++ b'/' ∷ [])) × (target ≡ container ++ segment))
    ⊎ ((¬ ((r : Str) × (container ≡ r ++ b'/' ∷ []))) × (target ≡ container ++ b'/' ∷ segment))

is_slug_char_iff : (c : ℕ) → (is_slug_char c ≡ true) ↔ IsSlugChar c
is_slug_char_iff c = ground arith

all_slug_iff : (s : Str) → (all is_slug_char s ≡ true) ↔ ((c : ℕ) → Memᴰ c s → IsSlugChar c)
all_slug_iff [] = (λ h c m. elim m [ ], λ h. refl)
all_slug_iff (x ∷ s) = (
  λ h c. elim [
    | Memᴰ.head e ↦ rw e ((is_slug_char_iff x).0 (ground arith))
    | Memᴰ.tail m ↦ (all_slug_iff s).0 (ground arith) c m
  ],
  λ h.
      let first = (is_slug_char_iff x).1 (h x (Memᴰ.head refl)) in
      let rest = (all_slug_iff s).1 (λ c m. h c (Memᴰ.tail m)) in rw (first, rest) refl,
)

join_path-IsJoined :
    (container segment : Str) → IsJoined container segment (join_path container segment)
unfolding join_path text
join_path-IsJoined container segment =
    let (fwd, bwd) = ends_with_iff (b'/' ∷ []) container in
    elim (Bool-cases (ends_with (b'/' ∷ []) container)) [
      | inl e ↦ inl (fwd e, rw e refl)
      | inr e ↦ inr (λ h. let t = bwd h in cc (t, e), rw e refl)
    ]

IsJoined-unique :
    (container segment a b : Str)
    → IsJoined container segment a
    → IsJoined container segment b
    → a ≡ b
IsJoined-unique container segment a b (inl (r, e)) (inl (s, f)) = e ∙ sym f
IsJoined-unique container segment a b (inl (r, e)) (inr (n, f)) = absurd (n r)
IsJoined-unique container segment a b (inr (n, e)) (inl (s, f)) = absurd (n s)
IsJoined-unique container segment a b (inr (n, e)) (inr (m, f)) = e ∙ sym f

-- A slug that may become the last segment of a path.
pub record IsSlug (s : Str) : Type 0 where
  pub short : byte_len s ≤ max_slug_bytes
  pub plain : (c : ℕ) → Memᴰ c s → IsSlugChar c
  pub no_dots : contains (text "..") s ≡ false

-- The allowed characters leave out the slash and the zero byte.
all_slug-has : (s : Str) → all is_slug_char s ≡ true → (has b'/' s ≡ false) × (has 0 s ≡ false)
all_slug-has [] h = (refl, refl)
all_slug-has (c ∷ s) h = let (a, b) = all_slug-has s (ground arith) in (ground arith, ground arith)

checked_slug_iff :
    (container s target : Str)
    → (checked_slug container s ≡ ok target) ↔ (IsSlug s × IsJoined container s target)
unfolding checked_slug
checked_slug_iff container s target = (
  λ h.
      let same : target ≡ join_path container s = ground arith in
      (
        record {
          short = ground arith;
          plain = (all_slug_iff s).0 (ground arith);
          no_dots = ground arith;
        },
        subst (IsJoined container s) (sym same) (join_path-IsJoined container s),
      ),
  λ (v, e).
      let all_plain = (all_slug_iff s).1 v.plain in
      let (a, b) = all_slug-has s all_plain in
      let short = v.short in
      let no_dots = v.no_dots in
      let same =
        IsJoined-unique container s target (join_path container s) e
          (join_path-IsJoined container s) in
      ground arith,
)

checked_slug_error :
    (container s : Str) (e : PodError) → checked_slug container s ≡ err e → e ≡ bad_request
unfolding checked_slug
checked_slug_error container s e h = ground arith

checked_slug-refused : (container s : Str) → ¬ IsSlug s → checked_slug container s ≡ err bad_request
checked_slug-refused container s refuted = elim (Result-cases (checked_slug container s)) [
  | inl (t, e) ↦ absurd (refuted ((checked_slug_iff container s t).0 e).0)
  | inr (x, e) ↦ rw e (rw (checked_slug_error container s x e))
]

-- A POST with a non-empty slug gets a target exactly if the slug has at most 255 bytes, only
-- characters of `[A-Za-z0-9._-]` and no `..`; the target is then the container with that one
-- segment, which holds no slash, behind the slash of the container or one that is put there, and
-- any other non-empty slug is answered by `bad_request`. Without a slug, or with an empty one,
-- the segment is the UUID.
pub resolve_slug_lem :
    (uuid container : Str) (slug : Option Str)
    → ((s : Str)
        → slug ≡ some s
        → s ≢ []
        → ((target : Str)
            → (resolve_slug uuid container slug ≡ ok target)
              ↔ (IsSlug s × IsJoined container s target))
          × (IsSlug s → has b'/' s ≡ false)
          × (¬ IsSlug s → resolve_slug uuid container slug ≡ err bad_request))
      × (((slug ≡ none) ⊎ (slug ≡ some []))
          → (target : Str) × (resolve_slug uuid container slug ≡ ok target)
            × IsJoined container uuid target)
unfolding resolve_slug
resolve_slug_lem uuid container slug = (
  λ s e ne. rw e (go s ne),
  elim [
    | inl e ↦ rw e (join_path container uuid, refl, join_path-IsJoined container uuid)
    | inr e ↦ rw e (join_path container uuid, refl, join_path-IsJoined container uuid)
  ],
)
  where
    go :
        (s : Str)
        → s ≢ []
        → ((target : Str)
            → (resolve_slug uuid container (some s) ≡ ok target)
              ↔ (IsSlug s × IsJoined container s target))
          × (IsSlug s → has b'/' s ≡ false)
          × (¬ IsSlug s → resolve_slug uuid container (some s) ≡ err bad_request)
    go [] ne = absurd (ne refl)
    go (c ∷ s) ne = (
      checked_slug_iff container (c ∷ s),
      λ v. (all_slug-has (c ∷ s) ((all_slug_iff (c ∷ s)).1 v.plain)).0,
      checked_slug-refused container (c ∷ s),
    )
