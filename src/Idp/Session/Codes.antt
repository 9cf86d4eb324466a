-- ===== src/Idp/Session/Codes.antt =====
-- The life of an authorisation code.
use solid_pod_rs.Prelude.{
  ℕ, ◌≡◌, refl, ◌∙◌, Bool, true, not, Option, none, some, List, [], ◌∷◌, if◌then◌else◌, ltb, arith,
  Bool-cases, inl, inr, all,
}
use solid_pod_rs.Text.{Str, str_eq}
use solid_pod_rs.Text.Laws.{str_eq_refl, str_eq_iff}
use solid_pod_rs.Text.Map.{lookup, lookup-remove_key, lookup-insert_key}
use solid_pod_rs.Idp.Session.{
  AuthCodeRecord, SessionRecord, SessionStore, elapsed, create_session, touched, lookup_session,
  revoke, issue_code, redeemed, take_code,
}

-- The operations on the store.
pub data Op : Type 0 where
  create_op : (now : ℕ) (id account_id : Str) → Op
  lookup_op : (now : ℕ) (id : Str) → Op
  revoke_op : (id : Str) → Op
  issue_op :
      (now : ℕ) (code client_id account_id redirect_uri : Str) (challenge scope : Option Str) → Op
  take_op : (now : ℕ) (code : Str) → Op

unfoldable pub apply : Op → SessionStore → SessionStore
apply (create_op now id account) s = create_session now id account s
apply (lookup_op now id) s = (lookup_session now id s).1
apply (revoke_op id) s = revoke id s
apply (issue_op now code c a r ch sc) s = (issue_code now code c a r ch sc s).1
apply (take_op now code) s = (take_code now code s).1

unfoldable pub run : List Op → SessionStore → SessionStore
unfolding apply
run [] s = s
run (op ∷ ops) s = run ops (apply op s)

-- The operation does not issue this code.
abbrev pub spares : Str → Op → Bool
spares code (issue_op now issued c a r ch sc) = not (str_eq issued code)
spares code _ = true

touched-codes :
    (now : ℕ) (id : Str) (s : SessionStore) (o : Option SessionRecord)
    → (touched now id s o).1.codes ≡ s.codes
unfolding touched
touched-codes now id s none = refl
touched-codes now id s (some e) =
    elim (Bool-cases (ltb s.session_ttl (elapsed now e.last_access))) [
      | inl h ↦ rw h refl
      | inr h ↦ rw h refl
    ]

redeemed-codes :
    (now : ℕ) (code : Str) (s : SessionStore) (o : Option AuthCodeRecord)
    → lookup code s.codes ≡ o
    → (other : Str)
    → lookup other (redeemed now code s o).1.codes
      ≡ (if str_eq code other then none else lookup other s.codes)
unfolding redeemed
redeemed-codes now code s none e other = elim (Bool-cases (str_eq code other)) [
  | inl h ↦ rw (h, ← (str_eq_iff code other).0 h, e) refl
  | inr h ↦ rw h refl
]
redeemed-codes now code s (some r) e other =
    elim (Bool-cases (ltb s.code_ttl (elapsed now r.issued_at))) [
      | inl h ↦ rw h (lookup-remove_key code other s.codes)
      | inr h ↦ rw h (lookup-remove_key code other s.codes)
    ]

-- What a redemption leaves of the codes.
take_code-codes :
    (now : ℕ) (code other : Str) (s : SessionStore)
    → lookup other (take_code now code s).1.codes
      ≡ (if str_eq code other then none else lookup other s.codes)
unfolding take_code
take_code-codes now code other s = redeemed-codes now code s (lookup code s.codes) refl other

apply-absent :
    (code : Str) (op : Op) (s : SessionStore)
    → spares code op ≡ true
    → lookup code s.codes ≡ none
    → lookup code (apply op s).codes ≡ none
unfolding apply
apply-absent code (create_op now id account) s h k = unfold create_session in k
apply-absent code (lookup_op now id) s h k =
    unfold lookup_session in rw (touched-codes now id s (lookup id s.sessions)) k
apply-absent code (revoke_op id) s h k = unfold revoke in k
apply-absent code (issue_op now issued c a r ch sc) s h k =
    unfold issue_code in rw (lookup-insert_key issued code _ s.codes) (ground arith)
apply-absent code (take_op now taken) s h k = rw (take_code-codes now taken code s) (ground arith)

run-absent :
    (code : Str) (ops : List Op) (s : SessionStore)
    → all (spares code) ops ≡ true
    → lookup code s.codes ≡ none
    → lookup code (run ops s).codes ≡ none
unfolding run
run-absent code [] s h k = k
run-absent code (op ∷ ops) s h k =
    run-absent code ops (apply op s) (ground arith) (apply-absent code op s (ground arith) k)

-- A code that was redeemed, with success or not, is never redeemed again: after any operations on
-- the store that do not issue the same code anew, and at any time, `take_code` gives none.
pub take_code-once :
    (code : Str) (ops : List Op) (s : SessionStore) (now later : ℕ)
    → all (spares code) ops ≡ true
    → (take_code later code (run ops (take_code now code s).1)).0 ≡ none
unfolding take_code redeemed
take_code-once code ops s now later h =
    rw
      (run-absent code ops (take_code now code s).1 h
        (take_code-codes now code code s ∙ rw (str_eq_refl code) refl))
      refl

-- The operation neither issues nor redeems this code.
abbrev pub leaves : Str → Op → Bool
leaves code (issue_op now issued c a r ch sc) = not (str_eq issued code)
leaves code (take_op now taken) = not (str_eq taken code)
leaves code _ = true

apply-kept :
    (code : Str) (op : Op) (s : SessionStore)
    → leaves code op ≡ true
    → lookup code (apply op s).codes ≡ lookup code s.codes
unfolding apply
apply-kept code (create_op now id account) s h = unfold create_session in refl
apply-kept code (lookup_op now id) s h =
    unfold lookup_session in rw (touched-codes now id s (lookup id s.sessions)) refl
apply-kept code (revoke_op id) s h = unfold revoke in refl
apply-kept code (issue_op now issued c a r ch sc) s h =
    unfold issue_code in rw (lookup-insert_key issued code _ s.codes) (ground arith)
apply-kept code (take_op now taken) s h = rw (take_code-codes now taken code s) (ground arith)

redeemed-ttl :
    (now : ℕ) (code : Str) (s : SessionStore) (o : Option AuthCodeRecord)
    → (redeemed now code s o).1.code_ttl ≡ s.code_ttl
unfolding redeemed
redeemed-ttl now code s none = refl
redeemed-ttl now code s (some r) = elim (Bool-cases (ltb s.code_ttl (elapsed now r.issued_at))) [
  | inl h ↦ rw h refl
  | inr h ↦ rw h refl
]

touched-ttl :
    (now : ℕ) (id : Str) (s : SessionStore) (o : Option SessionRecord)
    → (touched now id s o).1.code_ttl ≡ s.code_ttl
unfolding touched
touched-ttl now id s none = refl
touched-ttl now id s (some e) = elim (Bool-cases (ltb s.session_ttl (elapsed now e.last_access))) [
  | inl h ↦ rw h refl
  | inr h ↦ rw h refl
]

apply-ttl : (op : Op) (s : SessionStore) → (apply op s).code_ttl ≡ s.code_ttl
unfolding apply
apply-ttl (create_op now id account) s = unfold create_session in refl
apply-ttl (lookup_op now id) s =
    unfold lookup_session in touched-ttl now id s (lookup id s.sessions)
apply-ttl (revoke_op id) s = unfold revoke in refl
apply-ttl (issue_op now issued c a r ch sc) s = unfold issue_code in refl
apply-ttl (take_op now taken) s =
    unfold take_code in redeemed-ttl now taken s (lookup taken s.codes)

run-kept :
    (code : Str) (ops : List Op) (s : SessionStore)
    → all (leaves code) ops ≡ true
    → (lookup code (run ops s).codes ≡ lookup code s.codes) × ((run ops s).code_ttl ≡ s.code_ttl)
unfolding run
run-kept code [] s h = (refl, refl)
run-kept code (op ∷ ops) s h =
    let (same, ttl) = run-kept code ops (apply op s) (ground arith) in
    (same ∙ apply-kept code op s (ground arith), ttl ∙ apply-ttl op s)

-- A code that was issued gives its record after any operations on the store that neither issue
-- nor redeem the same code, as long as no more than the lifetime of codes has passed since, and
-- none after that.
pub take_code-issued :
    (now later : ℕ) (code client account redirect : Str) (challenge scope : Option Str)
    (ops : List Op) (s : SessionStore)
    → all (leaves code) ops ≡ true
    → (take_code later code
        (run ops (issue_code now code client account redirect challenge scope s).1)).0
      ≡ (if ltb s.code_ttl (elapsed later now)
          then none
          else some (issue_code now code client account redirect challenge scope s).0)
unfolding take_code redeemed issue_code
take_code-issued now later code client account redirect challenge scope ops s h =
    let (same, ttl) =
      run-kept code ops (issue_code now code client account redirect challenge scope s).1 h in
    rw (same, ttl, lookup-insert_key code code _ s.codes, str_eq_refl code) (ground arith)
