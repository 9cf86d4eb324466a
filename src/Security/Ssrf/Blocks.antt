-- ===== src/Security/Ssrf/Blocks.antt =====
-- The classes of IPv4 addresses as a table of address blocks.
use solid_pod_rs.Prelude.{
  ℕ, ◌+◌, ◌-◌, ◌*◌, ◌/◌, ◌^◌, ◌<◌, ◌≡◌, Bool, ◌&&◌, ◌||◌, List, [], ◌∷◌, ◌==◌, leb, if◌then◌else◌,
  arith,
}
use solid_pod_rs.Security.Ssrf.{
  Ipv4Addr, IpClass, public, private, loopback, link_local, multicast, reserved, is_octets,
  classify_v4,
}

-- The octets are bytes.
pub record IsBytes (ip : Ipv4Addr) : Type 0 where
  pub b0 : ip.o0 < 256
  pub b1 : ip.o1 < 256
  pub b2 : ip.o2 < 256
  pub b3 : ip.o3 < 256

-- The address as a number.
abbrev pub address : Ipv4Addr → ℕ
address ip = ip.o0 * 16777216 + ip.o1 * 65536 + ip.o2 * 256 + ip.o3

-- The addresses that agree with `base` in their first `len` bits.
pub record Block : Type 0 where
  pub base : ℕ
  pub bits : ℕ
  pub class : IpClass

abbrev pub cidr : (a b c d len : ℕ) → IpClass → Block
cidr a b c d len class = record {
  base = address (record { o0 = a; o1 = b; o2 = c; o3 = d });
  bits = len;
  class = class;
}

abbrev pub contains_ip : Block → ℕ → Bool
contains_ip b n = n / 2 ^ (32 - b.bits) == b.base / 2 ^ (32 - b.bits)

-- The class of the first block that holds the address; an address in none of them is public.
abbrev pub first_class : List Block → ℕ → IpClass
first_class [] n = public
first_class (b ∷ bs) n = if contains_ip b n then b.class else first_class bs n

abbrev pub blocks : List Block
blocks =
    cidr 169 254 169 254 32 reserved
    ∷ cidr 0 0 0 0 32 reserved
    ∷ cidr 255 255 255 255 32 reserved
    ∷ cidr 192 0 2 0 24 reserved
    ∷ cidr 198 51 100 0 24 reserved
    ∷ cidr 203 0 113 0 24 reserved
    ∷ cidr 127 0 0 0 8 loopback
    ∷ cidr 169 254 0 0 16 link_local
    ∷ cidr 224 0 0 0 4 multicast
    ∷ cidr 10 0 0 0 8 private
    ∷ cidr 172 16 0 0 12 private
    ∷ cidr 192 168 0 0 16 private
    ∷ cidr 0 0 0 0 8 reserved
    ∷ cidr 100 64 0 0 10 reserved
    ∷ cidr 192 0 0 0 24 reserved
    ∷ cidr 192 88 99 0 24 reserved
    ∷ cidr 198 18 0 0 15 reserved
    ∷ cidr 240 0 0 0 4 reserved
    ∷ []

same_chain :
    (b1 b2 b3 b4 b5 b6 b7 b8 b9 b10 b11 b12 b13 b14 b15 b16 b17 b18 t1 t2 t3 t4 t5 t6 t7 t8 t9 t10
      t11 t12 t13 t14 t15 t16 t17 t18 : Bool)
    → t1 ≡ b1
    → t2 ≡ b2
    → t3 ≡ b3
    → t4 ≡ b4
    → t5 ≡ b5
    → t6 ≡ b6
    → t7 ≡ b7
    → t8 ≡ b8
    → t9 ≡ b9
    → t10 ≡ b10
    → t11 ≡ b11
    → t12 ≡ b12
    → t13 ≡ b13
    → t14 ≡ b14
    → t15 ≡ b15
    → t16 ≡ b16
    → t17 ≡ b17
    → t18 ≡ b18
    → (if b1
        then reserved
        else if b2 || (b3 || (b4 || (b5 || b6)))
        then reserved
        else if b7
        then loopback
        else if b8
        then link_local
        else if b9
        then multicast
        else if b10 || (b11 || b12)
        then private
        else if b13 || (b14 || (b15 || (b16 || (b17 || b18))))
        then reserved
        else public)
      ≡ (if t1
          then reserved
          else if t2
          then reserved
          else if t3
          then reserved
          else if t4
          then reserved
          else if t5
          then reserved
          else if t6
          then reserved
          else if t7
          then loopback
          else if t8
          then link_local
          else if t9
          then multicast
          else if t10
          then private
          else if t11
          then private
          else if t12
          then private
          else if t13
          then reserved
          else if t14
          then reserved
          else if t15
          then reserved
          else if t16
          then reserved
          else if t17
          then reserved
          else if t18
          then reserved
          else public)
same_chain b1 b2 b3 b4 b5 b6 b7 b8 b9 b10 b11 b12 b13 b14 b15 b16 b17 b18 t1 t2 t3 t4 t5 t6 t7 t8 t9
      t10 t11 t12 t13 t14 t15 t16 t17 t18 h1 h2 h3 h4 h5 h6 h7 h8 h9 h10 h11 h12 h13 h14 h15 h16 h17
      h18 =
    rw (h1, h2, h3, h4, h5, h6, h7, h8, h9, h10, h11, h12, h13, h14, h15, h16, h17, h18)
      (ground arith)

module _ (ip : Ipv4Addr) (h : IsBytes ip) where
  block1 :
      contains_ip (cidr 169 254 169 254 32 reserved) (address ip) ≡ is_octets 169 254 169 254 ip
  block1 = ground arith

  block2 : contains_ip (cidr 0 0 0 0 32 reserved) (address ip) ≡ is_octets 0 0 0 0 ip
  block2 = ground arith

  block3 :
      contains_ip (cidr 255 255 255 255 32 reserved) (address ip) ≡ is_octets 255 255 255 255 ip
  block3 = ground arith

  block4 :
      contains_ip (cidr 192 0 2 0 24 reserved) (address ip)
      ≡ (ip.o0 == 192 && (ip.o1 == 0 && ip.o2 == 2))
  block4 = ground arith

  block5 :
      contains_ip (cidr 198 51 100 0 24 reserved) (address ip)
      ≡ (ip.o0 == 198 && (ip.o1 == 51 && ip.o2 == 100))
  block5 = ground arith

  block6 :
      contains_ip (cidr 203 0 113 0 24 reserved) (address ip)
      ≡ (ip.o0 == 203 && (ip.o1 == 0 && ip.o2 == 113))
  block6 = ground arith

  block7 : contains_ip (cidr 127 0 0 0 8 loopback) (address ip) ≡ (ip.o0 == 127)
  block7 = ground arith

  block8 :
      contains_ip (cidr 169 254 0 0 16 link_local) (address ip) ≡ (ip.o0 == 169 && ip.o1 == 254)
  block8 = ground arith

  block9 : contains_ip (cidr 224 0 0 0 4 multicast) (address ip) ≡ (leb 224 ip.o0 && leb ip.o0 239)
  block9 = ground arith

  block10 : contains_ip (cidr 10 0 0 0 8 private) (address ip) ≡ (ip.o0 == 10)
  block10 = ground arith

  block11 :
      contains_ip (cidr 172 16 0 0 12 private) (address ip)
      ≡ (ip.o0 == 172 && (leb 16 ip.o1 && leb ip.o1 31))
  block11 = ground arith

  block12 : contains_ip (cidr 192 168 0 0 16 private) (address ip) ≡ (ip.o0 == 192 && ip.o1 == 168)
  block12 = ground arith

  block13 : contains_ip (cidr 0 0 0 0 8 reserved) (address ip) ≡ (ip.o0 == 0)
  block13 = ground arith

  block14 :
      contains_ip (cidr 100 64 0 0 10 reserved) (address ip) ≡ (ip.o0 == 100 && ip.o1 / 64 == 1)
  block14 = ground arith

  block15 :
      contains_ip (cidr 192 0 0 0 24 reserved) (address ip)
      ≡ (ip.o0 == 192 && (ip.o1 == 0 && ip.o2 == 0))
  block15 = ground arith

  block16 :
      contains_ip (cidr 192 88 99 0 24 reserved) (address ip)
      ≡ (ip.o0 == 192 && (ip.o1 == 88 && ip.o2 == 99))
  block16 = ground arith

  block17 :
      contains_ip (cidr 198 18 0 0 15 reserved) (address ip)
      ≡ (ip.o0 == 198 && (ip.o1 == 18 || ip.o1 == 19))
  block17 = ground arith

  block18 : contains_ip (cidr 240 0 0 0 4 reserved) (address ip) ≡ (leb 240 ip.o0 && leb ip.o0 255)
  block18 = ground arith

  -- For every IPv4 address the class that the tests of the code give is that of the first block of
  -- a table of address blocks, each written as a base and a length of prefix, that holds the
  -- address, and public if none does.
  pub classify_v4-first_class : classify_v4 ip ≡ first_class blocks (address ip)
  unfolding classify_v4
  classify_v4-first_class =
      same_chain _ _ _ _ _ _ _ _ _ _ _ _ _ _ _ _ _ _ _ _ _ _ _ _ _ _ _ _ _ _ _ _ _ _ _ _ block1
        block2 block3 block4 block5 block6 block7 block8 block9 block10 block11 block12 block13
        block14 block15 block16 block17 block18
