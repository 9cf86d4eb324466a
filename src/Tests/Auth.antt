-- ===== src/Tests/Auth.antt =====
-- NIP-98 tokens at concrete inputs.
use solid_pod_rs.Prelude.{ℕ, ◌≡◌, refl, true, some, none, List, [], ◌∷◌, ◌++◌, if◌then◌else◌}
use solid_pod_rs.Error.{nip98, ok, err}
use solid_pod_rs.Text.{Str, text, str_eq, trim, strip_prefix, byte_len, trim_end_matches}
use solid_pod_rs.Auth.Nip98.{
  Nip98Event, Nip98Verified, Crypto, verify_at, extract_pubkey, get_tag, normalize_url,
  verify_schnorr_signature, compute_event_id,
}
use solid_pod_rs.Auth.Nip98.Accepted.{Vouches, verify_at-Vouches}

abbrev key_text : Str
key_text = text "abababababababababababababababababababababababababababababababab"

abbrev login : Nip98Event
login = record {
  id = [];
  pubkey = key_text;
  created_at = 100;
  kind = 27235;
  tags = (text "u" ∷ text "http://pod/a" ∷ []) ∷ (text "method" ∷ text "PUT" ∷ []) ∷ [];
  content = [];
  sig = key_text;
}

-- Every coding is the identity, and every signature of 64 bytes is good.
abbrev toy : Crypto
toy = record {
  base64_decode = λ s. some s;
  hex_decode = λ s. some s;
  hex_encode = λ s. s;
  from_slice = λ s. if str_eq s (text "login") then some login else none;
  canonical_json = λ event. [];
  sha256 = λ s. s;
  to_lowercase = λ s. s;
  to_uppercase = λ s. s;
  Key = List ℕ;
  Signature = List ℕ;
  key_of = λ s. some s;
  signature_of = λ s. some s;
  verify_digest = λ k d s. true;
  schnorr = true;
}

abbrev login_verified : Nip98Verified
login_verified = record {
  pubkey = key_text;
  url = text "http://pod/a";
  method = text "PUT";
  payload_hash = none;
  created_at = 100;
}

login-verify :
    verify_at toy (text "Nostr login") (text "http://pod/a/") (text "PUT") none 130
    ≡ ok login_verified
unfolding verify_at strip_prefix text byte_len trim str_eq get_tag normalize_url trim_end_matches
    verify_schnorr_signature compute_event_id
login-verify = refl

late-verify :
    verify_at toy (text "Nostr login") (text "http://pod/a/") (text "PUT") none 161 ≡ err nip98
unfolding verify_at strip_prefix text byte_len trim str_eq
late-verify = refl

verify_at-Vouches_example :
    (rest : Str) × (bytes : List ℕ) × (event : Nip98Event) × (text "Nostr login"
      ≡ text "Nostr " ++ rest)
    × (toy.base64_decode (trim rest) ≡ some bytes)
    × (toy.from_slice bytes ≡ some event)
    × Vouches toy (text "http://pod/a/") (text "PUT") none 130 event login_verified
verify_at-Vouches_example =
    verify_at-Vouches toy (text "Nostr login") (text "http://pod/a/") (text "PUT") none 130
      login_verified login-verify

-- The server checks no body against the token, so any body goes with this one.
login-extract :
    extract_pubkey toy (some (text "Nostr login")) (text "pod") (text "/a") (text "PUT") 130
    ≡ some key_text
unfolding extract_pubkey verify_at strip_prefix text byte_len trim str_eq get_tag normalize_url
    trim_end_matches verify_schnorr_signature compute_event_id
login-extract = refl
