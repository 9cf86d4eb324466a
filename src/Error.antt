-- ===== src/Error.antt =====
-- `PodError` (crates/solid-pod-rs/src/error.rs). The texts of the messages are not kept.
use solid_pod_rs.Prelude.{◌≡◌, refl, ◌⊎◌, inl, inr}

pub data PodError : Type 0 where
  not_found already_exists forbidden unauthenticated io invalid_path invalid_content_type : PodError
  json url_parse base64 hex acl_parse nip98 watch backend precondition_failed : PodError
  unsupported bad_request payload_too_large quota_exceeded : PodError

pub data Result {ℓ} (A : Type ℓ) : Type ℓ where
  ok : A → Result A
  err : PodError → Result A

infixl 5 ◌>>=◌ ◌>>◌
abbrev pub ◌>>=◌ {ℓ κ} : {A : Type ℓ} {B : Type κ} → Result A → (A → Result B) → Result B
ok a >>= f = f a
err e >>= f = err e

abbrev pub ◌>>◌ {ℓ κ} : {A : Type ℓ} {B : Type κ} → Result A → Result B → Result B
m >> k = m >>= λ _. k

pub Result-cases {ℓ} :
    {A : Type ℓ} (r : Result A) → ((a : A) × (r ≡ ok a)) ⊎ ((e : PodError) × (r ≡ err e))
Result-cases (ok a) = inl (a, refl)
Result-cases (err e) = inr (e, refl)
