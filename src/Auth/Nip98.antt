-- ===== src/Auth/Nip98.antt =====
-- NIP-98 tokens (crates/solid-pod-rs/src/auth/nip98.rs), and the server's use of them
-- (crates/solid-pod-rs-server/src/lib.rs). Base64, hex, JSON, SHA-256, the Schnorr primitives and the
-- case mappings of Unicode are arguments. A body is a list of bytes.
pub mod Accepted
use solid_pod_rs.Prelude.{
  ℕ, ◌+◌, ◌-◌, ◌*◌, Bool, true, false, not, ◌||◌, Option, none, some, List, [], ◌∷◌, ◌++◌, ◌==◌,
  ltb, if◌then◌else◌, length,
}
use solid_pod_rs.Error.{PodError, nip98, base64, json, unsupported, Result, ok, err, ◌>>=◌, ◌>>◌}
use solid_pod_rs.Text.{
  Str, text, str_eq, is_empty, is_some, trim, byte_len, strip_prefix, trim_end_matches,
}

pub record Nip98Event : Type 0 where
  pub id : Str
  pub pubkey : Str
  pub created_at : ℕ
  pub kind : ℕ
  pub tags : List (List Str)
  pub content : Str
  pub sig : Str

pub record Nip98Verified : Type 0 where
  pub pubkey : Str
  pub url : Str
  pub method : Str
  pub payload_hash : Option Str
  pub created_at : ℕ

abbrev pub http_auth_kind : ℕ
http_auth_kind = 27235

abbrev pub timestamp_tolerance : ℕ
timestamp_tolerance = 60

abbrev pub max_event_size : ℕ
max_event_size = 65536

-- What the third-party crates do. `verify_digest` is the test of a signature by a key over bytes,
-- where `none` of a parser is its error; `schnorr` is the feature `nip98-schnorr`.
pub record Crypto : Type 1 where
  pub base64_decode : Str → Option (List ℕ)
  pub hex_decode : Str → Option (List ℕ)
  pub hex_encode : List ℕ → Str
  pub from_slice : List ℕ → Option Nip98Event
  pub canonical_json : Nip98Event → List ℕ
  pub sha256 : List ℕ → List ℕ
  pub to_lowercase : Str → Str
  pub to_uppercase : Str → Str
  pub Key : Type 0
  pub Signature : Type 0
  pub key_of : List ℕ → Option Key
  pub signature_of : List ℕ → Option Signature
  pub verify_digest : Key → List ℕ → Signature → Bool
  pub schnorr : Bool

abbrev pub abs_diff : ℕ → ℕ → ℕ
abs_diff a b = (a - b) + (b - a)

second : List Str → Option Str
second (name ∷ value ∷ rest) = some value
second _ = none

is_named : Str → List Str → Bool
is_named name [] = false
is_named name (n ∷ rest) = str_eq n name

tag_in : Str → List (List Str) → Option Str
unfolding second is_named
tag_in name [] = none
tag_in name (t ∷ ts) = let rest = tag_in name ts in if is_named name t then second t else rest

unfoldable pub get_tag : Nip98Event → Str → Option Str
unfolding tag_in
get_tag event name = tag_in name event.tags

unfoldable pub normalize_url : Str → Str
normalize_url u = trim_end_matches b'/' u

-- `ok_or_else` with an error of this file.
abbrev pub or_err {ℓ} : {A : Type ℓ} → PodError → Option A → Result A
or_err e none = err e
or_err e (some a) = ok a

-- `if refused { return Err(e) }`.
abbrev pub ensure : Bool → PodError → Result (Unit {0})
ensure allowed e = if allowed then ok tt else err e

module _ (c : Crypto) where
  unfoldable pub compute_event_id : Nip98Event → Str
  compute_event_id event = c.hex_encode (c.sha256 (c.canonical_json event))

  unfoldable pub verify_schnorr_signature : Nip98Event → Result (Unit {0})
  verify_schnorr_signature event = if not c.schnorr then err unsupported else do
    ensure (str_eq (c.to_lowercase (compute_event_id event)) (c.to_lowercase event.id)) nip98
    pub_bytes ← or_err nip98 (c.hex_decode event.pubkey)
    sig_bytes ← or_err nip98 (c.hex_decode event.sig)
    ensure (length sig_bytes == 64) nip98
    id_bytes ← or_err nip98 (c.hex_decode (compute_event_id event))
    vk ← or_err nip98 (c.key_of pub_bytes)
    sig ← or_err nip98 (c.signature_of sig_bytes)
    ensure (c.verify_digest vk id_bytes sig) nip98

  -- The hash that stands for the body.
  payload_checked : Option (List ℕ) → Option Str → Result (Option Str)
  payload_checked none tag = ok tag
  payload_checked (some []) tag = ok tag
  payload_checked (some (b ∷ bs)) none = err nip98
  payload_checked (some (b ∷ bs)) (some expected) =
      if str_eq (c.to_lowercase expected) (c.to_lowercase (c.hex_encode (c.sha256 (b ∷ bs))))
      then ok (some expected)
      else err nip98

  -- The checks on the event in their order, each part with what follows it.
  check_signature : Nip98Event → (token_url token_method : Str) → Option Str → Result Nip98Verified
  check_signature event token_url token_method payload_hash =
      (if c.schnorr then verify_schnorr_signature event else ok tt)
      >> ok (record {
        pubkey = event.pubkey;
        url = token_url;
        method = token_method;
        payload_hash = payload_hash;
        created_at = event.created_at;
      })

  check_method :
      (method : Str)
      → Option (List ℕ)
      → Nip98Event
      → (token_url token_method : Str) → Result Nip98Verified
  unfolding payload_checked check_signature
  check_method method body event token_url token_method =
      ensure (str_eq (c.to_uppercase token_method) (c.to_uppercase method)) nip98
      >> (payload_checked body (get_tag event (text "payload"))
          >>= check_signature event token_url token_method)

  check_url :
      (url method : Str) → Option (List ℕ) → Nip98Event → (token_url : Str) → Result Nip98Verified
  unfolding check_method
  check_url url method body event token_url =
      ensure (str_eq (normalize_url token_url) (normalize_url url)) nip98
      >> (or_err nip98 (get_tag event (text "method")) >>= check_method method body event token_url)

  check_event : (url method : Str) → Option (List ℕ) → (now : ℕ) → Nip98Event → Result Nip98Verified
  unfolding check_url
  check_event url method body now event = do
    ensure (event.kind == http_auth_kind) nip98
    ensure (byte_len event.pubkey == 64) nip98
    ensure (is_some (c.hex_decode event.pubkey)) nip98
    ensure (not (ltb timestamp_tolerance (abs_diff now event.created_at))) nip98
    or_err nip98 (get_tag event (text "u")) >>= check_url url method body event

  sized_event : List ℕ → Result Nip98Event
  sized_event bytes =
      ensure (not (ltb max_event_size (length bytes))) nip98 >> or_err json (c.from_slice bytes)

  decoded_event : Str → Result Nip98Event
  unfolding sized_event
  decoded_event token =
      ensure (not (ltb max_event_size (byte_len token))) nip98
      >> (or_err base64 (c.base64_decode token) >>= sized_event)

  unfoldable pub verify_at :
      (header url method : Str) → Option (List ℕ) → (now : ℕ) → Result Nip98Verified
  unfolding decoded_event check_event
  verify_at header url method body now =
      or_err nip98 (strip_prefix (text "Nostr ") header) >>= λ rest.
      decoded_event (trim rest) >>= check_event url method body now

  pubkey_of : Result Nip98Verified → Option Str
  pubkey_of (err e) = none
  pubkey_of (ok v) = some v.pubkey

  -- `extract_pubkey` of the server, on the header `Authorization`, the host and the path.
  unfoldable pub extract_pubkey : Option Str → (host path method : Str) → (now : ℕ) → Option Str
  unfolding pubkey_of
  extract_pubkey none host path method now = none
  extract_pubkey (some header) host path method now =
      pubkey_of (verify_at header (text "http://" ++ (host ++ path)) method none now)
