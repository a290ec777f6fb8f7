-- ===== src/Sage/Net/Ranges.antt =====
-- `isPublicAddress` of sage-halpin/server/net.ts against the ranges that it is meant to refuse.
use aijoes_app.Prelude.{
  ℕ, ◌+◌, ◌*◌, ◌/◌, ◌≤◌, ◌<◌, Bool, true, not, ◌≡◌, ◌≢◌, refl, ◌⊎◌, ap, arith, ◌==◌, ltb, leb, ◌&&◌,
  any, [], ◌∷◌,
}
use aijoes_app.Sage.Net.{Ipv4, ipv4_to_int, in_range, is_public_v4, Ipv6, v4, is_public_v6}

-- Four octets.
abbrev pub IsIpv4 : Ipv4 → Type 0
IsIpv4 ip = (ip.a < 256) × (ip.b < 256) × (ip.c < 256) × (ip.d < 256)

-- The ranges by their octets: this network, private and shared ones, the host itself, link-local
-- addresses (a cloud's metadata among them), those of protocols, documentation and benchmarks,
-- multicast and the reserved rest.
abbrev pub reserved : Ipv4 → Bool
reserved ip =
    any (λ hit. hit)
      ((ip.a == 0)
        ∷ (ip.a == 10)
        ∷ (ip.a == 100 && leb 64 ip.b && ltb ip.b 128)
        ∷ (ip.a == 127)
        ∷ (ip.a == 169 && ip.b == 254)
        ∷ (ip.a == 172 && leb 16 ip.b && ltb ip.b 32)
        ∷ (ip.a == 192 && ip.b == 0 && ip.c == 0)
        ∷ (ip.a == 192 && ip.b == 0 && ip.c == 2)
        ∷ (ip.a == 192 && ip.b == 168)
        ∷ (ip.a == 198 && leb 18 ip.b && ltb ip.b 20)
        ∷ (ip.a == 198 && ip.b == 51 && ip.c == 100)
        ∷ (ip.a == 203 && ip.b == 0 && ip.c == 113)
        ∷ (leb 224 ip.a && ltb ip.a 240)
        ∷ leb 240 ip.a
        ∷ [])

whole : (ip : Ipv4) → IsIpv4 ip → ipv4_to_int ip ≡ ((ip.a * 256 + ip.b) * 256 + ip.c) * 256 + ip.d
unfolding ipv4_to_int
whole ip h = omega arith

module _ (ip : Ipv4) (h : IsIpv4 ip) where
  abbrev n : ℕ
  n = ipv4_to_int ip

  first4 : n / 268435456 ≡ ip.a / 16
  first4 = let e = whole ip h in omega arith

  first8 : n / 16777216 ≡ ip.a
  first8 = let e = whole ip h in omega arith

  first10 : n / 4194304 ≡ ip.a * 4 + ip.b / 64
  first10 = let e = whole ip h in omega arith

  first12 : n / 1048576 ≡ ip.a * 16 + ip.b / 16
  first12 = let e = whole ip h in omega arith

  first15 : n / 131072 ≡ ip.a * 128 + ip.b / 2
  first15 = let e = whole ip h in omega arith

  first16 : n / 65536 ≡ ip.a * 256 + ip.b
  first16 = let e = whole ip h in omega arith

  first24 : n / 256 ≡ (ip.a * 256 + ip.b) * 256 + ip.c
  first24 = let e = whole ip h in omega arith

  in_0 : in_range n (record { a = 0; b = 0; c = 0; d = 0 }, 8) ≡ (ip.a == 0)
  unfolding ipv4_to_int
  in_0 = let e = first8 in ground arith

  in_10 : in_range n (record { a = 10; b = 0; c = 0; d = 0 }, 8) ≡ (ip.a == 10)
  unfolding ipv4_to_int
  in_10 = let e = first8 in ground arith

  in_100_64_0 :
      in_range n (record { a = 100; b = 64; c = 0; d = 0 }, 10)
      ≡ (ip.a == 100 && leb 64 ip.b && ltb ip.b 128)
  unfolding ipv4_to_int
  in_100_64_0 = let e = first10 in ground arith

  in_127 : in_range n (record { a = 127; b = 0; c = 0; d = 0 }, 8) ≡ (ip.a == 127)
  unfolding ipv4_to_int
  in_127 = let e = first8 in ground arith

  in_169_254_0 :
      in_range n (record { a = 169; b = 254; c = 0; d = 0 }, 16) ≡ (ip.a == 169 && ip.b == 254)
  unfolding ipv4_to_int
  in_169_254_0 = let e = first16 in ground arith

  in_172_16_0 :
      in_range n (record { a = 172; b = 16; c = 0; d = 0 }, 12)
      ≡ (ip.a == 172 && leb 16 ip.b && ltb ip.b 32)
  unfolding ipv4_to_int
  in_172_16_0 = let e = first12 in ground arith

  in_192_0_0 :
      in_range n (record { a = 192; b = 0; c = 0; d = 0 }, 24)
      ≡ (ip.a == 192 && ip.b == 0 && ip.c == 0)
  unfolding ipv4_to_int
  in_192_0_0 = let e = first24 in ground arith

  in_192_0_2 :
      in_range n (record { a = 192; b = 0; c = 2; d = 0 }, 24)
      ≡ (ip.a == 192 && ip.b == 0 && ip.c == 2)
  unfolding ipv4_to_int
  in_192_0_2 = let e = first24 in ground arith

  in_192_168_0 :
      in_range n (record { a = 192; b = 168; c = 0; d = 0 }, 16) ≡ (ip.a == 192 && ip.b == 168)
  unfolding ipv4_to_int
  in_192_168_0 = let e = first16 in ground arith

  in_198_18_0 :
      in_range n (record { a = 198; b = 18; c = 0; d = 0 }, 15)
      ≡ (ip.a == 198 && leb 18 ip.b && ltb ip.b 20)
  unfolding ipv4_to_int
  in_198_18_0 = let e = first15 in ground arith

  in_198_51_100 :
      in_range n (record { a = 198; b = 51; c = 100; d = 0 }, 24)
      ≡ (ip.a == 198 && ip.b == 51 && ip.c == 100)
  unfolding ipv4_to_int
  in_198_51_100 = let e = first24 in ground arith

  in_203_0_113 :
      in_range n (record { a = 203; b = 0; c = 113; d = 0 }, 24)
      ≡ (ip.a == 203 && ip.b == 0 && ip.c == 113)
  unfolding ipv4_to_int
  in_203_0_113 = let e = first24 in ground arith

  in_224 : in_range n (record { a = 224; b = 0; c = 0; d = 0 }, 4) ≡ (leb 224 ip.a && ltb ip.a 240)
  unfolding ipv4_to_int
  in_224 = let e = first4 in ground arith

  in_240 : in_range n (record { a = 240; b = 0; c = 0; d = 0 }, 4) ≡ (leb 240 ip.a)
  unfolding ipv4_to_int
  in_240 = let e = first4 in ground arith

-- An IPv4 address counts as public exactly if it is in none of the ranges of private, local,
-- documentation, multicast and reserved addresses.
pub is_public_v4-reserved : (ip : Ipv4) → IsIpv4 ip → is_public_v4 ip ≡ not (reserved ip)
unfolding is_public_v4
is_public_v4-reserved ip h = ap not (
    rw
      (
        in_0 ip h,
        in_10 ip h,
        in_100_64_0 ip h,
        in_127 ip h,
        in_169_254_0 ip h,
        in_172_16_0 ip h,
        in_192_0_0 ip h,
        in_192_0_2 ip h,
        in_192_168_0 ip h,
        in_198_18_0 ip h,
        in_198_51_100 ip h,
        in_203_0_113 ip h,
        in_224 ip h,
        in_240 ip h,
      )
      refl)

-- An IPv6 address that counts as public is neither unique-local, link-local, site-local nor multicast,
-- neither the host itself nor unspecified, and the IPv4 address that it carries, in any of the four
-- forms, counts as public.
pub is_public_v6-refuses :
    (g : Ipv6)
    → is_public_v6 g ≡ true
    → ((g.g0 < 64512) ⊎ (65024 ≤ g.g0))
      × ((g.g0 < 65152) ⊎ (65280 ≤ g.g0))
      × ((g.g0 < 65280) ⊎ (65536 ≤ g.g0))
      × (g.g0 ≡ 8194 → is_public_v4 (v4 g.g1 g.g2) ≡ true)
      × (g.g0 ≡ 100 → g.g1 ≡ 65435 → is_public_v4 (v4 g.g6 g.g7) ≡ true)
      × (g.g0 ≡ 0
          → g.g1 ≡ 0
          → g.g2 ≡ 0
          → g.g3 ≡ 0
          → g.g4 ≡ 0
          → (g.g5 ≡ 65535) ⊎ (g.g5 ≡ 0)
          → (is_public_v4 (v4 g.g6 g.g7) ≡ true) × ((g.g5 ≡ 65535) ⊎ (g.g6 ≢ 0) ⊎ (2 ≤ g.g7)))
unfolding is_public_v6
is_public_v6-refuses g h =
    (ground arith, ground arith, ground arith, ground arith, ground arith, ground arith)
