-- ===== src/Security/Ssrf.antt =====
-- The classes of addresses and the SSRF policy (crates/solid-pod-rs/src/security/ssrf.rs). The URL
-- parser and the DNS lookup are arguments. Of an error, the host's text and the cause are not kept;
-- counters are left out. A mask on a byte or a segment is written as a division.
pub mod Blocks
pub mod Policy
use solid_pod_rs.Prelude.{
  ℕ, ◌/◌, ◌%◌, Bool, true, false, not, ◌&&◌, ◌||◌, Option, none, some, List, [], ◌∷◌, ◌==◌, leb,
  if◌then◌else◌, any,
}
use solid_pod_rs.Text.{Str, text, str_eq, is_empty, trim, split, to_ascii_lowercase}

pub record Ipv4Addr : Type 0 where
  pub o0 : ℕ
  pub o1 : ℕ
  pub o2 : ℕ
  pub o3 : ℕ

pub record Ipv6Addr : Type 0 where
  pub s0 : ℕ
  pub s1 : ℕ
  pub s2 : ℕ
  pub s3 : ℕ
  pub s4 : ℕ
  pub s5 : ℕ
  pub s6 : ℕ
  pub s7 : ℕ

pub data IpAddr : Type 0 where
  v4 : Ipv4Addr → IpAddr
  v6 : Ipv6Addr → IpAddr

pub data IpClass : Type 0 where
  public private loopback link_local multicast reserved : IpClass

pub data SsrfError : Type 0 where
  missing_host dns_failure no_addresses : SsrfError
  denylisted : IpAddr → SsrfError
  blocked_class : IpAddr → IpClass → SsrfError

pub data Checked (A : Type 0) : Type 0 where
  safe : A → Checked A
  unsafe : SsrfError → Checked A

-- The tests of `Ipv4Addr` in the standard library.
abbrev pub is_octets : (a b c d : ℕ) → Ipv4Addr → Bool
is_octets a b c d ip = ip.o0 == a && (ip.o1 == b && (ip.o2 == c && ip.o3 == d))

abbrev pub is_documentation : Ipv4Addr → Bool
is_documentation ip =
    (ip.o0 == 192 && (ip.o1 == 0 && ip.o2 == 2))
    || ((ip.o0 == 198 && (ip.o1 == 51 && ip.o2 == 100))
        || (ip.o0 == 203 && (ip.o1 == 0 && ip.o2 == 113)))

abbrev pub is_private : Ipv4Addr → Bool
is_private ip =
    ip.o0 == 10
    || ((ip.o0 == 172 && (leb 16 ip.o1 && leb ip.o1 31)) || (ip.o0 == 192 && ip.o1 == 168))

-- The `match` on the first octet.
other_reserved : Ipv4Addr → Bool
other_reserved ip =
    ip.o0 == 0
    || ((ip.o0 == 100 && ip.o1 / 64 == 1)
        || ((ip.o0 == 192 && (ip.o1 == 0 && ip.o2 == 0))
            || ((ip.o0 == 192 && (ip.o1 == 88 && ip.o2 == 99))
                || ((ip.o0 == 198 && (ip.o1 == 18 || ip.o1 == 19))
                    || (leb 240 ip.o0 && leb ip.o0 255)))))

unfoldable pub classify_v4 : Ipv4Addr → IpClass
unfolding other_reserved
classify_v4 ip =
    if is_octets 169 254 169 254 ip
    then reserved
    else if is_octets 0 0 0 0 ip || (is_octets 255 255 255 255 ip || is_documentation ip)
    then reserved
    else if ip.o0 == 127
    then loopback
    else if ip.o0 == 169 && ip.o1 == 254
    then link_local
    else if leb 224 ip.o0 && leb ip.o0 239
    then multicast
    else if is_private ip
    then private
    else if other_reserved ip
    then reserved
    else public

abbrev pub is_segments : (a b c d e f g h : ℕ) → Ipv6Addr → Bool
is_segments a b c d e f g h ip =
    ip.s0 == a
    && (ip.s1 == b
        && (ip.s2 == c
            && (ip.s3 == d && (ip.s4 == e && (ip.s5 == f && (ip.s6 == g && ip.s7 == h))))))

unfoldable pub to_ipv4_mapped : Ipv6Addr → Option Ipv4Addr
to_ipv4_mapped ip =
    if ip.s0 == 0 && (ip.s1 == 0 && (ip.s2 == 0 && (ip.s3 == 0 && (ip.s4 == 0 && ip.s5 == 0xffff))))
    then some (record { o0 = ip.s6 / 256; o1 = ip.s6 % 256; o2 = ip.s7 / 256; o3 = ip.s7 % 256 })
    else none

-- The tests behind that for a mapped address.
native_v6 : Ipv6Addr → IpClass
native_v6 ip =
    if ip.s0 / 64 == 0x3fa
    then link_local
    else if ip.s0 / 512 == 0x7e
    then private
    else if ip.s0 / 64 == 0x3fb
    then private
    else if ip.s0 == 0x0100 && (ip.s1 == 0 && (ip.s2 == 0 && ip.s3 == 0))
    then reserved
    else if ip.s0 == 0x2001 && ip.s1 == 0x0db8
    then reserved
    else public

mapped_or_native : Ipv6Addr → Option Ipv4Addr → IpClass
unfolding native_v6
mapped_or_native ip (some ip4) = classify_v4 ip4
mapped_or_native ip none = native_v6 ip

unfoldable pub classify_v6 : Ipv6Addr → IpClass
unfolding mapped_or_native
classify_v6 ip =
    if is_segments 0xfd00 0x0ec2 0 0 0 0 0 0x0254 ip
    then reserved
    else if is_segments 0 0 0 0 0 0 0 0 ip
    then reserved
    else if is_segments 0 0 0 0 0 0 0 1 ip
    then loopback
    else if ip.s0 / 256 == 0xff
    then multicast
    else mapped_or_native ip (to_ipv4_mapped ip)

unfoldable pub classify : IpAddr → IpClass
unfolding classify_v4 classify_v6
classify (v4 ip) = classify_v4 ip
classify (v6 ip) = classify_v6 ip

safe_or_blocked : IpAddr → IpClass → Checked IpAddr
safe_or_blocked ip public = safe ip
safe_or_blocked ip class = unsafe (blocked_class ip class)

-- `Ok(())` carries the address here.
unfoldable pub check_ip_safe : IpAddr → Checked IpAddr
unfolding safe_or_blocked
check_ip_safe ip = safe_or_blocked ip (classify ip)

abbrev pub first_part : List Str → Str
first_part [] = []
first_part (s ∷ ss) = s

unfoldable pub is_known_metadata_hostname : Str → Bool
is_known_metadata_hostname host =
    let lc = to_ascii_lowercase (first_part (split b':' host)) in
    str_eq lc (text "metadata.google.internal")
    || (str_eq lc (text "metadata") || str_eq lc (text "metadata.goog"))

abbrev pub metadata_ip : IpAddr
metadata_ip = v4 (record { o0 = 169; o1 = 254; o2 = 169; o3 = 254 })

-- `url::Host`.
pub data Host : Type 0 where
  ipv4 : Ipv4Addr → Host
  ipv6 : Ipv6Addr → Host
  domain : Str → Host

checked : Checked IpAddr → Checked (Option IpAddr)
checked (safe a) = safe (some a)
checked (unsafe e) = unsafe e

-- `Ok(())` is `safe none`, or the address that was checked.
checked_host : Option Host → Checked (Option IpAddr)
unfolding checked check_ip_safe
checked_host none = unsafe missing_host
checked_host (some (ipv4 ip)) = checked (check_ip_safe (v4 ip))
checked_host (some (ipv6 ip)) = checked (check_ip_safe (v6 ip))
checked_host (some (domain d)) =
    if is_known_metadata_hostname d then unsafe (blocked_class metadata_ip reserved) else safe none

-- The parser gives `none` for an error, and else the host, if there is one.
unfoldable pub is_safe_url : (Str → Option (Option Host)) → Str → Checked (Option IpAddr)
unfolding checked_host check_ip_safe
is_safe_url parse url = elim (parse url) [ none ↦ unsafe missing_host | some h ↦ checked_host h ]

and_then : Checked IpAddr → Option SsrfError → Option SsrfError
and_then (safe a) rest = rest
and_then (unsafe e) rest = some e

-- The loop over the addresses of the free function `resolve_and_check`.
unfoldable pub check_all : List IpAddr → Option SsrfError
unfolding check_ip_safe and_then
check_all [] = none
check_all (ip ∷ ips) = and_then (check_ip_safe ip) (check_all ips)

first_of : List IpAddr → Option SsrfError → Checked IpAddr
first_of ips (some e) = unsafe e
first_of [] none = unsafe no_addresses
first_of (ip ∷ ips) none = safe ip

resolved : Option (List IpAddr) → Checked IpAddr
unfolding first_of check_all
resolved none = unsafe dns_failure
resolved (some ips) = first_of ips (check_all ips)

-- The lookup gives `none` for an error.
unfoldable pub resolve_and_check : (Str → Option (List IpAddr)) → Str → Checked IpAddr
unfolding resolved
resolve_and_check lookup_host host =
    if is_known_metadata_hostname host
    then unsafe (blocked_class metadata_ip reserved)
    else resolved (lookup_host host)
