-- ===== src/Security/Ssrf/Policy.antt =====
-- `SsrfPolicy` and what the checks let through.
use solid_pod_rs.Prelude.{
  ℕ, ◌≡◌, ◌≢◌, ◌↔◌, ◌++◌, ◌⊎◌, inl, inr, refl, ap, sym, ◌∙◌, Bool, true, false, not, ◌&&◌, ◌||◌,
  Option, none, some, List, [], ◌∷◌, Memᴰ, if◌then◌else◌, any, Bool-cases,
}
use solid_pod_rs.Text.{
  Str, text, str_eq, is_empty, trim, split, has, drop_empty, to_ascii_lowercase,
}
use solid_pod_rs.Security.Ssrf.{
  IpAddr, IpClass, public, private, loopback, link_local, multicast, reserved, SsrfError,
  missing_host, dns_failure, no_addresses, denylisted, blocked_class, Checked, safe, unsafe,
  classify, safe_or_blocked, first_part, and_then, check_all, first_of, resolved, resolve_and_check,
  is_known_metadata_hostname,
}

pub record SsrfPolicy : Type 0 where
  pub allow_private : Bool
  pub allow_loopback : Bool
  pub allow_link_local : Bool
  pub allowlist : List Str
  pub denylist : List Str

abbrev pub new_policy : SsrfPolicy
new_policy = record {
  allow_private = false;
  allow_loopback = false;
  allow_link_local = false;
  allowlist = [];
  denylist = [];
}

is_on : Str → Bool
is_on v =
    let w = to_ascii_lowercase (trim v) in
    str_eq w (text "1")
    || (str_eq w (text "true") || (str_eq w (text "yes") || str_eq w (text "on")))

-- The value of the variable, where it is set.
unfoldable pub env_bool : Option Str → Bool
unfolding is_on
env_bool none = false
env_bool (some v) = is_on v

trim_all : List Str → List Str
trim_all [] = []
trim_all (s ∷ ss) = trim s ∷ trim_all ss

unfoldable pub env_csv : Option Str → List Str
unfolding trim_all
env_csv none = []
env_csv (some raw) = drop_empty (trim_all (split b',' raw))

unfoldable pub list_contains_host : List Str → Str → Bool
list_contains_host hosts host_lower =
    any
      (λ entry.
        let e_host = first_part (split b':' (to_ascii_lowercase (trim entry))) in
        not (is_empty e_host) && str_eq e_host host_lower)
      hosts

abbrev pub permits : SsrfPolicy → IpClass → Bool
permits p public = true
permits p private = p.allow_private
permits p loopback = p.allow_loopback
permits p link_local = p.allow_link_local
permits p multicast = false
permits p reserved = false

-- The checks on the first address of a host.
judged : SsrfPolicy → Str → IpAddr → Checked IpAddr
judged p host_lower ip =
    if list_contains_host p.denylist host_lower
    then unsafe (denylisted ip)
    else if list_contains_host p.allowlist host_lower
    then safe ip
    else if permits p (classify ip)
    then safe ip
    else unsafe (blocked_class ip (classify ip))

judged_first : SsrfPolicy → Str → Option (List IpAddr) → Checked IpAddr
unfolding judged
judged_first p host_lower none = unsafe dns_failure
judged_first p host_lower (some []) = unsafe no_addresses
judged_first p host_lower (some (ip ∷ ips)) = judged p host_lower ip

-- The method `SsrfPolicy::resolve_and_check`, on the host and the port of the URL.
unfoldable pub policy_check :
    (Str → ℕ → Option (List IpAddr)) → SsrfPolicy → Option Str → (port : ℕ) → Checked IpAddr
unfolding judged_first
policy_check lookup_host p none port = unsafe missing_host
policy_check lookup_host p (some host) port =
    judged_first p (to_ascii_lowercase host) (lookup_host host port)

blocked-elim :
    (ip : IpAddr) (c : IpClass) (rest : Option SsrfError)
    → and_then (safe_or_blocked ip c) rest ≡ none
    → (c ≡ public) × (rest ≡ none)
unfolding safe_or_blocked and_then
blocked-elim ip public rest h = (refl, h)
blocked-elim ip _ rest h = cc

check_all-elim :
    (ips : List IpAddr) → check_all ips ≡ none → (ip : IpAddr) → Memᴰ ip ips → classify ip ≡ public
unfolding check_all
check_all-elim [] h ip m = elim m [ ]
check_all-elim (a ∷ ips) h ip (Memᴰ.head e) =
    ap classify e ∙ (blocked-elim a (classify a) (check_all ips) h).0
check_all-elim (a ∷ ips) h ip (Memᴰ.tail m) =
    check_all-elim ips (blocked-elim a (classify a) (check_all ips) h).1 ip m

check_all-intro :
    (ips : List IpAddr)
    → ((ip : IpAddr) → Memᴰ ip ips → classify ip ≡ public)
    → check_all ips ≡ none
unfolding check_all and_then safe_or_blocked
check_all-intro [] h = refl
check_all-intro (a ∷ ips) h =
    rw (h a (Memᴰ.head refl)) (check_all-intro ips (λ ip m. h ip (Memᴰ.tail m)))

first_of-safe :
    (ips : List IpAddr) (e : Option SsrfError) (ip : IpAddr)
    → first_of ips e ≡ safe ip
    → (e ≡ none) × (rest : List IpAddr) × (ips ≡ ip ∷ rest)
unfolding first_of
first_of-safe ips (some e) ip h = cc
first_of-safe [] none ip h = cc
first_of-safe (a ∷ ips) none ip h = (refl, ips, cc)

-- All the addresses are public, and the first of them is `ip`.
abbrev pub IsPublicFirst : IpAddr → Option (List IpAddr) → Type 0
IsPublicFirst ip found =
    (rest : List IpAddr) × (found ≡ some (ip ∷ rest))
    × ((a : IpAddr) → Memᴰ a (ip ∷ rest) → classify a ≡ public)

resolved-elim :
    (found : Option (List IpAddr)) (ip : IpAddr) → resolved found ≡ safe ip → IsPublicFirst ip found
unfolding resolved
resolved-elim none ip h = cc
resolved-elim (some ips) ip h =
    let (passed, rest, e) = first_of-safe ips (check_all ips) ip h in
    (rest, ap some e, check_all-elim (ip ∷ rest) (ap check_all (sym e) ∙ passed))

module _ (lookup_host : Str → Option (List IpAddr)) (host : Str) (ip : IpAddr) where
  resolve-elim :
      resolve_and_check lookup_host host ≡ safe ip
      → (is_known_metadata_hostname host ≡ false) × IsPublicFirst ip (lookup_host host)
  unfolding resolve_and_check
  resolve-elim h = elim (Bool-cases (is_known_metadata_hostname host)) [
    | inl e ↦ let bad = rw e at h in cc
    | inr e ↦ (e, resolved-elim (lookup_host host) ip (rw e at h))
  ]

  resolve-intro :
      (is_known_metadata_hostname host ≡ false) × IsPublicFirst ip (lookup_host host)
      → resolve_and_check lookup_host host ≡ safe ip
  unfolding resolve_and_check resolved first_of
  resolve-intro (e, (rest, found, all_public)) =
      rw (e, found, check_all-intro (ip ∷ rest) all_public) refl

  -- The check of a host lets an address through exactly if the host is no known name of a metadata
  -- service, the lookup succeeds with that address first, and all the addresses of the lookup are
  -- public.
  pub resolve_and_check_iff :
      (resolve_and_check lookup_host host ≡ safe ip)
      ↔ ((is_known_metadata_hostname host ≡ false) × IsPublicFirst ip (lookup_host host))
  resolve_and_check_iff = (resolve-elim, resolve-intro)

-- The text is a host without a colon, or that and a port behind a colon.
abbrev pub IsHostOf : Str → Str → Type 0
IsHostOf host t =
    (has b':' host ≡ false) × ((t ≡ host) ⊎ ((port : Str) × (t ≡ host ++ b':' ∷ port)))

-- Some entry, trimmed and in lower case, is the host, perhaps with a port.
abbrev pub IsListed : Str → List Str → Type 0
IsListed host hosts =
    (host ≢ [])
    × ((entry : Str) × Memᴰ entry hosts
        × IsHostOf (to_ascii_lowercase host) (to_ascii_lowercase (trim entry)))

-- The classes that a policy lets through: the public one, and those whose toggle is on.
abbrev pub IsOpen : SsrfPolicy → IpAddr → Type 0
IsOpen p ip =
    (classify ip ≡ public)
    ⊎ ((classify ip ≡ private) × (p.allow_private ≡ true))
    ⊎ ((classify ip ≡ loopback) × (p.allow_loopback ≡ true))
    ⊎ ((classify ip ≡ link_local) × (p.allow_link_local ≡ true))

-- The host is not denied, and it is allowed or the class of its first address is open.
abbrev pub IsPermitted : SsrfPolicy → Str → IpAddr → Type 0
IsPermitted p host ip = (¬ IsListed host p.denylist) × (IsListed host p.allowlist ⊎ IsOpen p ip)

-- What stands before the first colon.
host_of : Str → Str
host_of t = first_part (split b':' t)
