-- ===== src/Auth/Nip98/Accepted.antt =====
-- What an accepted token says.
use solid_pod_rs.Prelude.{
  ℕ, ◌≤◌, ◌≡◌, refl, sym, ap, ◌∙◌, Bool, true, false, not, Option, none, some, List, [], ◌∷◌, ◌++◌,
  ◌==◌, ==_iff, ltb, if◌then◌else◌, length, arith,
}
use solid_pod_rs.Error.{PodError, nip98, base64, json, Result, ok, err, ◌>>=◌, ◌>>◌}
use solid_pod_rs.Text.{Str, text, str_eq, is_some, trim, byte_len, strip_prefix}
use solid_pod_rs.Text.Laws.{str_eq_iff}
use solid_pod_rs.Text.Affix.{eq_of_strip_prefix}
use solid_pod_rs.Auth.Nip98.{
  Nip98Event, Nip98Verified, http_auth_kind, timestamp_tolerance, max_event_size, Crypto, abs_diff,
  get_tag, normalize_url, or_err, ensure, compute_event_id, verify_schnorr_signature,
  payload_checked, check_signature, check_method, check_url, check_event, sized_event,
  decoded_event, verify_at,
}

bind-ok :
    {A B : Type 0} (m : Result A) (f : A → Result B) (b : B)
    → (m >>= f) ≡ ok b
    → (a : A) × (m ≡ ok a) × (f a ≡ ok b)
bind-ok (ok a) f b h = (a, refl, h)
bind-ok (err e) f b h = cc

ok_inj : {A : Type 0} {a b : A} → ok a ≡ ok b → a ≡ b
ok_inj h = cc

taken_branch : {A : Type 0} (b : Bool) (x y z : A) → (if b then x else y) ≡ z → b ≡ true → x ≡ z
taken_branch true x y z h on = h
taken_branch false x y z h on = cc

then-ok :
    {B : Type 0} (allowed : Bool) (e : PodError) (m : Result B) (b : B)
    → (ensure allowed e >> m) ≡ ok b
    → (allowed ≡ true) × (m ≡ ok b)
then-ok true e m b h = (refl, h)
then-ok false e m b h = cc

ensured : (allowed : Bool) (e : PodError) → ensure allowed e ≡ ok tt → allowed ≡ true
ensured true e h = refl
ensured false e h = cc

or_err-ok : {A : Type 0} (e : PodError) (o : Option A) (a : A) → or_err e o ≡ ok a → o ≡ some a
or_err-ok e none a h = cc
or_err-ok e (some x) a h = cc

module _ (c : Crypto) where
  -- The tag of the payload is the hash of a body that is not empty.
  abbrev pub IsBodyHash : Option (List ℕ) → Nip98Event → Type 0
  IsBodyHash (some (b ∷ bs)) event =
      (hash : Str) × (get_tag event (text "payload") ≡ some hash)
      × (c.to_lowercase hash ≡ c.to_lowercase (c.hex_encode (c.sha256 (b ∷ bs))))
  IsBodyHash _ event = Unit

  -- The identifier is the digest of the contents, and the signature is the key's over it.
  pub record IsSigned (event : Nip98Event) : Type 0 where
    pub id_fits :
        c.to_lowercase (c.hex_encode (c.sha256 (c.canonical_json event))) ≡ c.to_lowercase event.id
    pub key_bytes : List ℕ
    pub sig_bytes : List ℕ
    pub id_bytes : List ℕ
    pub key : c.Key
    pub signature : c.Signature
    pub key_read : c.hex_decode event.pubkey ≡ some key_bytes
    pub sig_read : c.hex_decode event.sig ≡ some sig_bytes
    pub sig_long : length sig_bytes ≡ 64
    pub id_read : c.hex_decode (c.hex_encode (c.sha256 (c.canonical_json event))) ≡ some id_bytes
    pub is_key : c.key_of key_bytes ≡ some key
    pub is_signature : c.signature_of sig_bytes ≡ some signature
    pub verifies : c.verify_digest key id_bytes signature ≡ true

  -- The event vouches for the request.
  pub record Vouches (url method : Str) (body : Option (List ℕ)) (now : ℕ) (event : Nip98Event)
      (v : Nip98Verified) : Type 0 where
    pub kind_fits : event.kind ≡ http_auth_kind
    pub is_recent : abs_diff now event.created_at ≤ timestamp_tolerance
    pub has_url : get_tag event (text "u") ≡ some v.url
    pub url_fits : normalize_url v.url ≡ normalize_url url
    pub has_method : get_tag event (text "method") ≡ some v.method
    pub method_fits : c.to_uppercase v.method ≡ c.to_uppercase method
    pub body_fits : IsBodyHash body event
    pub is_signed : c.schnorr ≡ true → IsSigned event
    pub signer : v.pubkey ≡ event.pubkey

  tag-hash :
      (b : ℕ) (bs : List ℕ) (tag h : Option Str)
      → payload_checked c (some (b ∷ bs)) tag ≡ ok h
      → (hash : Str) × (tag ≡ some hash)
        × (c.to_lowercase hash ≡ c.to_lowercase (c.hex_encode (c.sha256 (b ∷ bs))))
  unfolding payload_checked
  tag-hash b bs none h e = cc
  tag-hash b bs (some expected) h e =
      let same : str_eq (c.to_lowercase expected)
            (c.to_lowercase (c.hex_encode (c.sha256 (b ∷ bs))))
          ≡ true =
        ground arith in
      (expected, refl, (str_eq_iff _ _).0 same)

  payload-IsBodyHash :
      (body : Option (List ℕ)) (event : Nip98Event) (h : Option Str)
      → payload_checked c body (get_tag event (text "payload")) ≡ ok h
      → IsBodyHash body event
  payload-IsBodyHash none event h e = tt
  payload-IsBodyHash (some []) event h e = tt
  payload-IsBodyHash (some (b ∷ bs)) event h e = tag-hash b bs (get_tag event (text "payload")) h e

  -- What the last checks leave of an accepted event.
  signed-ok :
      (event : Nip98Event) (token_url token_method : Str) (h : Option Str) (v : Nip98Verified)
      → check_signature c event token_url token_method h ≡ ok v
      → (v.pubkey ≡ event.pubkey)
        × (v.url ≡ token_url)
        × (v.method ≡ token_method)
        × (c.schnorr ≡ true → verify_schnorr_signature c event ≡ ok tt)
  unfolding check_signature
  signed-ok event token_url token_method h v e =
      let (u, signed, made) =
        bind-ok (if c.schnorr then verify_schnorr_signature c event else ok tt) (λ _. ok _) v e in
      let same = ok_inj made in
      (
        sym (ap (λ r. r.pubkey) same),
        sym (ap (λ r. r.url) same),
        sym (ap (λ r. r.method) same),
        taken_branch c.schnorr (verify_schnorr_signature c event) (ok tt) (ok u) signed,
      )

  signature-IsSigned :
      (event : Nip98Event)
      → c.schnorr ≡ true
      → verify_schnorr_signature c event ≡ ok tt
      → IsSigned event
  unfolding verify_schnorr_signature compute_event_id
  signature-IsSigned event on h =
      let h0 = rw on at h in
      let (same, h1) = then-ok _ nip98 _ tt h0 in
      let (kb, key_read, h2) = bind-ok (or_err nip98 (c.hex_decode event.pubkey)) _ tt h1 in
      let (sb, sig_read, h3) = bind-ok (or_err nip98 (c.hex_decode event.sig)) _ tt h2 in
      let (long, h4) = then-ok (length sb == 64) nip98 _ tt h3 in
      let (ib, id_read, h5) =
        bind-ok (or_err nip98 (c.hex_decode (c.hex_encode (c.sha256 (c.canonical_json event))))) _
          tt h4 in
      let (vk, is_key, h6) = bind-ok (or_err nip98 (c.key_of kb)) _ tt h5 in
      let (sg, is_sig, h7) = bind-ok (or_err nip98 (c.signature_of sb)) _ tt h6 in
      record {
        id_fits = (str_eq_iff _ _).0 same;
        key_bytes = kb;
        sig_bytes = sb;
        id_bytes = ib;
        key = vk;
        signature = sg;
        key_read = or_err-ok nip98 _ kb key_read;
        sig_read = or_err-ok nip98 _ sb sig_read;
        sig_long = (==_iff (length sb) 64).0 long;
        id_read = or_err-ok nip98 _ ib id_read;
        is_key = or_err-ok nip98 _ vk is_key;
        is_signature = or_err-ok nip98 _ sg is_sig;
        verifies = ensured (c.verify_digest vk ib sg) nip98 h7;
      }

  event-Vouches :
      (url method : Str) (body : Option (List ℕ)) (now : ℕ) (event : Nip98Event) (v : Nip98Verified)
      → check_event c url method body now event ≡ ok v
      → Vouches url method body now event v
  unfolding check_event check_url check_method
  event-Vouches url method body now event v h =
      let (kind, h1) = then-ok (event.kind == http_auth_kind) nip98 _ v h in
      let (long, h2) = then-ok (byte_len event.pubkey == 64) nip98 _ v h1 in
      let (hexed, h3) = then-ok (is_some (c.hex_decode event.pubkey)) nip98 _ v h2 in
      let (recent, h4) =
        then-ok (not (ltb timestamp_tolerance (abs_diff now event.created_at))) nip98 _ v h3 in
      let (token_url, has_url, h5) =
        bind-ok (or_err nip98 (get_tag event (text "u"))) (check_url c url method body event) v
          h4 in
      let (same_url, h6) =
        then-ok (str_eq (normalize_url token_url) (normalize_url url)) nip98 _ v h5 in
      let (token_method, has_method, h7) =
        bind-ok (or_err nip98 (get_tag event (text "method")))
          (check_method c method body event token_url) v h6 in
      let (same_method, h8) =
        then-ok (str_eq (c.to_uppercase token_method) (c.to_uppercase method)) nip98 _ v h7 in
      let (hash, checked, h9) =
        bind-ok (payload_checked c body (get_tag event (text "payload")))
          (check_signature c event token_url token_method) v h8 in
      let (signer, its_url, its_method, signed) =
        signed-ok event token_url token_method hash v h9 in
      record {
        kind_fits = (==_iff event.kind http_auth_kind).0 kind;
        is_recent = ground arith;
        has_url = or_err-ok nip98 _ token_url has_url ∙ ap some (sym its_url);
        url_fits = ap normalize_url its_url ∙ (str_eq_iff _ _).0 same_url;
        has_method = or_err-ok nip98 _ token_method has_method ∙ ap some (sym its_method);
        method_fits = ap c.to_uppercase its_method ∙ (str_eq_iff _ _).0 same_method;
        body_fits = payload-IsBodyHash body event hash checked;
        is_signed = λ on. signature-IsSigned event on (signed on);
        signer = signer;
      }

  -- A header that is accepted is `Nostr ` and the Base64 of the JSON of an event of the kind of
  -- HTTP authentication whose time differs from the present by at most 60 seconds, whose tags name
  -- the URL, up to slashes at the end, and the method, up to case, and the hash of the body, if
  -- there is a body that is not empty; with the feature for signatures the identifier of the event
  -- is, up to case, the hexadecimal digest of its canonical JSON, and its key verifies its
  -- signature of 64 bytes over that digest; and the key that is reported is that of the event.
  pub verify_at-Vouches :
      (header url method : Str) (body : Option (List ℕ)) (now : ℕ) (v : Nip98Verified)
      → verify_at c header url method body now ≡ ok v
      → (rest : Str) × (bytes : List ℕ) × (event : Nip98Event) × (header ≡ text "Nostr " ++ rest)
        × (c.base64_decode (trim rest) ≡ some bytes)
        × (c.from_slice bytes ≡ some event)
        × Vouches url method body now event v
  unfolding verify_at decoded_event sized_event
  verify_at-Vouches header url method body now v h =
      let (rest, stripped, h1) =
        bind-ok (or_err nip98 (strip_prefix (text "Nostr ") header))
          (λ rest. decoded_event c (trim rest) >>= check_event c url method body now) v h in
      let (event, decoded, h2) =
        bind-ok (decoded_event c (trim rest)) (check_event c url method body now) v h1 in
      let (short, h3) =
        then-ok (not (ltb max_event_size (byte_len (trim rest)))) nip98 _ event decoded in
      let (bytes, from_base64, h4) =
        bind-ok (or_err base64 (c.base64_decode (trim rest))) (sized_event c) event h3 in
      let (small, h5) = then-ok (not (ltb max_event_size (length bytes))) nip98 _ event h4 in
      (
        rest,
        bytes,
        event,
        eq_of_strip_prefix (text "Nostr ") header rest (or_err-ok nip98 _ rest stripped),
        or_err-ok base64 _ bytes from_base64,
        or_err-ok json _ event h5,
        event-Vouches url method body now event v h2,
      )
