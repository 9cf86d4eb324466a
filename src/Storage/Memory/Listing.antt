-- ===== src/Storage/Memory/Listing.antt =====
-- The listing of a container.
use Prim.Native.Nat.{Ordering}
use solid_pod_rs.Prelude.{
  ℕ, true, false, if◌then◌else◌, ◌==◌, ==_iff, ◌++◌, ◌∙◌, ◌≡◌, ◌≢◌, refl, ap, sym, subst, Option,
  none, some, List, [], ◌∷◌, Memᴰ, ◌↔◌, inl, inr, ◌⊎◌, Bool-cases, Option-cases, arith,
}
use solid_pod_rs.Text.{Str, text, is_empty, has, starts_with, ends_with, strip_prefix, break_at}
use solid_pod_rs.Text.Laws.{break_at-cases, break_at-append, break_at-none}
use solid_pod_rs.Text.Affix.{strip_prefix_iff, eq_of_strip_prefix, ends_with_iff}
use solid_pod_rs.Text.Map.{keys}
use solid_pod_rs.Ldp.Graph.{str_cmp, is_eq}
use solid_pod_rs.Ldp.Graph.Order.{str_cmp_sound}
use solid_pod_rs.Storage.Memory.{
  MemoryBackend, normalize, child_of, place_name, insert_name, insert_child, children, list,
  with_slash, child_name,
}

place_name-elim :
    (x n m : Str) (seen later : List Str) (o : Ordering)
    → (Memᴰ x later → (x ≡ n) ⊎ Memᴰ x seen)
    → Memᴰ x (place_name o n m seen later)
    → (x ≡ n) ⊎ Memᴰ x (m ∷ seen)
unfolding place_name
place_name-elim x n m seen later Ordering.lt ih (Memᴰ.head e) = inl e
place_name-elim x n m seen later Ordering.lt ih (Memᴰ.tail k) = inr k
place_name-elim x n m seen later Ordering.eq ih k = inr k
place_name-elim x n m seen later Ordering.gt ih (Memᴰ.head e) = inr (Memᴰ.head e)
place_name-elim x n m seen later Ordering.gt ih (Memᴰ.tail k) = elim (ih k) [
  | inl e ↦ inl e
  | inr k2 ↦ inr (Memᴰ.tail k2)
]

insert_name-elim :
    (x n : Str) (seen : List Str) → Memᴰ x (insert_name n seen) → (x ≡ n) ⊎ Memᴰ x seen
unfolding insert_name
insert_name-elim x n [] (Memᴰ.head e) = inl e
insert_name-elim x n [] (Memᴰ.tail k) = inr k
insert_name-elim x n (m ∷ seen) k =
    place_name-elim x n m seen (insert_name n seen) (str_cmp n m) (insert_name-elim x n seen) k

place_name-old :
    (x n m : Str) (seen later : List Str) (o : Ordering)
    → (Memᴰ x seen → Memᴰ x later)
    → Memᴰ x (m ∷ seen)
    → Memᴰ x (place_name o n m seen later)
unfolding place_name
place_name-old x n m seen later Ordering.lt ih k = Memᴰ.tail k
place_name-old x n m seen later Ordering.eq ih k = k
place_name-old x n m seen later Ordering.gt ih (Memᴰ.head e) = Memᴰ.head e
place_name-old x n m seen later Ordering.gt ih (Memᴰ.tail k) = Memᴰ.tail (ih k)

place_name-new :
    (n m : Str) (seen later : List Str) (o : Ordering)
    → (is_eq o ≡ true → n ≡ m)
    → Memᴰ n later
    → Memᴰ n (place_name o n m seen later)
unfolding place_name
place_name-new n m seen later Ordering.lt same k = Memᴰ.head refl
place_name-new n m seen later Ordering.eq same k = Memᴰ.head (same refl)
place_name-new n m seen later Ordering.gt same k = Memᴰ.tail k

insert_name-old : (x n : Str) (seen : List Str) → Memᴰ x seen → Memᴰ x (insert_name n seen)
unfolding insert_name
insert_name-old x n [] k = Memᴰ.tail k
insert_name-old x n (m ∷ seen) k =
    place_name-old x n m seen (insert_name n seen) (str_cmp n m) (insert_name-old x n seen) k

insert_name-new : (n : Str) (seen : List Str) → Memᴰ n (insert_name n seen)
unfolding insert_name
insert_name-new n [] = Memᴰ.head refl
insert_name-new n (m ∷ seen) =
    place_name-new n m seen (insert_name n seen) (str_cmp n m) (str_cmp_sound n m)
      (insert_name-new n seen)

insert_child-elim :
    (x : Str) (o : Option Str) (seen : List Str)
    → Memᴰ x (insert_child o seen)
    → (o ≡ some x) ⊎ Memᴰ x seen
insert_child-elim x none seen k = inr k
insert_child-elim x (some n) seen k = elim (insert_name-elim x n seen k) [
  | inl e ↦ inl (ap some (sym e))
  | inr m ↦ inr m
]

insert_child-old :
    (x : Str) (o : Option Str) (seen : List Str) → Memᴰ x seen → Memᴰ x (insert_child o seen)
insert_child-old x none seen k = k
insert_child-old x (some n) seen k = insert_name-old x n seen k

-- The name that a key shows below a directory: the rest of the key, if it is not empty and has no
-- slash, and else the rest up to its first slash and with it.
abbrev pub Shows : (dir key x : Str) → Type 0
Shows dir key x =
    ((x ≢ []) × (has b'/' x ≡ false) × (key ≡ dir ++ x))
    ⊎ ((name rest : Str) × (has b'/' name ≡ false)
        × (key ≡ dir ++ (name ++ b'/' ∷ rest))
        × (x ≡ name ++ b'/' ∷ []))

-- The path with a slash in front.
abbrev pub IsRooted : (path rooted : Str) → Type 0
IsRooted path rooted =
    ((rest : Str) × (path ≡ b'/' ∷ rest) × (rooted ≡ path))
    ⊎ ((¬ ((rest : Str) × (path ≡ b'/' ∷ rest))) × (rooted ≡ b'/' ∷ path))

-- The path of a container with a slash in front and one behind.
abbrev pub IsDirectory : (container dir : Str) → Type 0
IsDirectory container dir =
    (rooted : Str) × IsRooted container rooted
    × (((rest : Str) × (rooted ≡ rest ++ b'/' ∷ []) × (dir ≡ rooted))
        ⊎ ((¬ ((rest : Str) × (rooted ≡ rest ++ b'/' ∷ []))) × (dir ≡ rooted ++ b'/' ∷ [])))

-- Some key shows the name.
abbrev pub IsChild : (container x : Str) → List Str → Type 0
IsChild container x ks =
    (dir : Str) × IsDirectory container dir × (key : Str) × Memᴰ key ks × Shows dir key x

normalize-IsRooted : (path : Str) → IsRooted path (normalize path)
unfolding normalize text starts_with strip_prefix
normalize-IsRooted [] = inr (λ (rest, e). cc, refl)
normalize-IsRooted (c ∷ path) = elim (Bool-cases (b'/' == c)) [
  | inl e ↦ rw e (inl (path, ap (λ d. d ∷ path) (sym ((==_iff b'/' c).0 e)), refl))
  | inr e ↦ rw e (inr (λ (rest, same). ground arith, refl))
]

IsRooted-unique : (path a b : Str) → IsRooted path a → IsRooted path b → a ≡ b
IsRooted-unique path a b (inl (r, e, f)) (inl (s, g, h)) = f ∙ sym h
IsRooted-unique path a b (inl (r, e, f)) (inr (n, h)) = absurd (n (r, e))
IsRooted-unique path a b (inr (n, f)) (inl (s, g, h)) = absurd (n (s, g))
IsRooted-unique path a b (inr (n, f)) (inr (m, h)) = f ∙ sym h

-- The two cases of `with_slash`.
abbrev Ends : (rooted dir : Str) → Type 0
Ends rooted dir =
    ((rest : Str) × (rooted ≡ rest ++ b'/' ∷ []) × (dir ≡ rooted))
    ⊎ ((¬ ((rest : Str) × (rooted ≡ rest ++ b'/' ∷ []))) × (dir ≡ rooted ++ b'/' ∷ []))

slash_end_iff :
    (rooted : Str)
    → (ends_with (b'/' ∷ []) rooted ≡ true) ↔ ((rest : Str) × (rooted ≡ rest ++ b'/' ∷ []))
slash_end_iff rooted = ends_with_iff (b'/' ∷ []) rooted

with_slash-Ends : (rooted : Str) → Ends rooted (with_slash rooted)
unfolding text
with_slash-Ends rooted = elim (Bool-cases (ends_with (b'/' ∷ []) rooted)) [
  | inl e ↦ let (rest, same) = (slash_end_iff rooted).0 e in inl (rest, same, rw e refl)
  | inr e ↦ inr (λ h. let t = (slash_end_iff rooted).1 h in ground arith, rw e refl)
]

Ends-unique : (rooted a b : Str) → Ends rooted a → Ends rooted b → a ≡ b
Ends-unique rooted a b (inl (r, e, f)) (inl (s, g, h)) = f ∙ sym h
Ends-unique rooted a b (inl (r, e, f)) (inr (n, h)) = absurd (n (r, e))
Ends-unique rooted a b (inr (n, f)) (inl (s, g, h)) = absurd (n (s, g))
Ends-unique rooted a b (inr (n, f)) (inr (m, h)) = f ∙ sym h

with_slash-IsDirectory :
    (container : Str) → IsDirectory container (with_slash (normalize container))
with_slash-IsDirectory container =
    (normalize container, normalize-IsRooted container, with_slash-Ends (normalize container))

IsDirectory-unique :
    (container dir : Str) → IsDirectory container dir → dir ≡ with_slash (normalize container)
IsDirectory-unique container dir (rooted, is_rooted, ends) =
    let same =
      IsRooted-unique container rooted (normalize container) is_rooted
        (normalize-IsRooted container) in
    Ends-unique (normalize container) dir (with_slash (normalize container))
      (subst (λ r. Ends r dir) same ends) (with_slash-Ends (normalize container))

-- The child that the rest of a key shows.
part_of : Str → Option Str
part_of remainder =
    if is_empty remainder then none else some (child_name (break_at (λ c. c == b'/') remainder))

child_of-part :
    (dir key x : Str)
    → (child_of dir key ≡ some x) ↔ ((rest : Str) × (key ≡ dir ++ rest) × (part_of rest ≡ some x))
unfolding child_of part_of
child_of-part dir key x = (
  λ h. elim (Option-cases (strip_prefix dir key)) [
    | inl e ↦ let bad = rw (child_of, e) at h in cc
    | inr (rest, e) ↦ (rest, eq_of_strip_prefix dir key rest e, rw (child_of, e) at h)
  ],
  λ (rest, e, h). rw (child_of, (strip_prefix_iff dir key rest).1 e) h,
)

part_of-plain : (rest : Str) → rest ≢ [] → has b'/' rest ≡ false → part_of rest ≡ some rest
unfolding part_of child_name
part_of-plain [] ne h = absurd (ne refl)
part_of-plain (c ∷ rest) ne h = rw (break_at-none (λ d. d == b'/') (c ∷ rest) h) refl

nonempty_middle : (n : Str) (c : ℕ) (r : Str) → is_empty (n ++ c ∷ r) ≡ false
nonempty_middle [] c r = refl
nonempty_middle (d ∷ n) c r = refl

part_of-slash : (n r : Str) → has b'/' n ≡ false → part_of (n ++ b'/' ∷ r) ≡ some (n ++ b'/' ∷ [])
unfolding part_of child_name
part_of-slash n r h =
    rw (nonempty_middle n b'/' r, break_at-append (λ d. d == b'/') n b'/' r h refl) refl

child_of-Shows : (dir key x : Str) → (child_of dir key ≡ some x) ↔ Shows dir key x
child_of-Shows dir key x = (
  λ h.
      let (rest, e, part) = (child_of-part dir key x).0 h in
      elim (break_at-cases (λ c. c == b'/') rest) [
        | inl plain ↦ shows_plain rest e part plain
        | inr (n, c, r, before, at, whole) ↦
            let same = (==_iff c b'/').0 at in
            let here : rest ≡ n ++ b'/' ∷ r = whole ∙ ap (λ d. n ++ d ∷ r) same in
            let found = part_of-slash n r before in
            let named : x ≡ n ++ b'/' ∷ [] = unsome (sym part ∙ ap part_of here ∙ found) in
            inr (n, r, before, e ∙ ap (λ t. dir ++ t) here, named)
      ],
  elim [
    | inl (ne, plain, e) ↦ (child_of-part dir key x).1 (x, e, part_of-plain x ne plain)
    | inr (n, r, before, e, named) ↦
        (child_of-part dir key x).1
          (n ++ b'/' ∷ r, e, part_of-slash n r before ∙ ap some (sym named))
  ],
)
  where
    unsome : {a b : Str} → some a ≡ some b → a ≡ b
    unsome h = cc

    shows_plain :
        (rest : Str)
        → key ≡ dir ++ rest
        → part_of rest ≡ some x
        → has b'/' rest ≡ false
        → Shows dir key x
    shows_plain [] e part plain = unfold part_of in cc
    shows_plain (c ∷ rest) e part plain =
        let ne : c ∷ rest ≢ [] = λ h. cc in
        let same : c ∷ rest ≡ x = unsome (sym (part_of-plain (c ∷ rest) ne plain) ∙ part) in
        subst (λ t. Shows dir key t) same (inl (ne, plain, e))

-- The name comes from some key.
ComesFrom : Str → Str → List Str → Type 0
ComesFrom container x ks = (key : Str) × Memᴰ key ks × (child_of container key ≡ some x)

children-elim : (c x : Str) (ks : List Str) → Memᴰ x (children c ks) → ComesFrom c x ks
unfolding children ComesFrom
children-elim c x [] k = elim k [ ]
children-elim c x (key ∷ ks) k = elim (insert_child-elim x (child_of c key) (children c ks) k) [
  | inl e ↦ (key, Memᴰ.head refl, e)
  | inr m ↦ let (j, mem, e) = children-elim c x ks m in (j, Memᴰ.tail mem, e)
]

children-intro :
    (c x key : Str) (ks : List Str) → Memᴰ key ks → child_of c key ≡ some x → Memᴰ x (children c ks)
unfolding children
children-intro c x key [] m h = elim m [ ]
children-intro c x key (j ∷ ks) (Memᴰ.head e) h = rw (← e, h) (insert_name-new x (children c ks))
children-intro c x key (j ∷ ks) (Memᴰ.tail m) h =
    insert_child-old x (child_of c j) (children c ks) (children-intro c x key ks m h)

-- A name is listed for a container exactly if some stored key lies below the container, whose
-- path is taken with a slash in front and one behind, put there where it has none, and the name
-- is what follows in that key: all of the rest, if that is not empty and has no slash, or else
-- the rest up to its first slash and with it.
pub list_iff :
    (s : MemoryBackend) (container x : Str)
    → Memᴰ x (list s container) ↔ IsChild container x (keys s.store)
unfolding list ComesFrom
list_iff s container x = (
  λ h.
      let dir = with_slash (normalize container) in
      let (key, m, e) = children-elim dir x (keys s.store) h in
      (dir, with_slash-IsDirectory container, key, m, (child_of-Shows dir key x).0 e),
  λ (dir, is_dir, key, m, shown).
      let same = IsDirectory-unique container dir is_dir in
      children-intro (with_slash (normalize container)) x key (keys s.store) m (
        (child_of-Shows (with_slash (normalize container)) key x).1
          (subst (λ d. Shows d key x) same shown)),
)
