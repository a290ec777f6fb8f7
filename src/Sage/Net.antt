-- ===== src/Sage/Net.antt =====
-- sage-halpin/server/net.ts: which addresses a feed may be fetched from. An IPv4 address is its four
-- octets and an IPv6 address its eight groups, as `ipv6Groups` reads them. How a text is read as a
-- URL, what a name resolves to and what a server answers are parameters.
pub mod Ranges
pub mod Fetch
use Prim.Native.String.{String}
use aijoes_app.Prelude.{
  ℕ, zero, suc, ◌+◌, ◌-◌, ◌*◌, ◌/◌, ◌%◌, ◌^◌, ◌≤◌, Bool, true, false, not, ◌&&◌, ◌||◌, Option, none,
  some, List, [], ◌∷◌, any, all, find?, ltb, leb, ◌==◌, if◌then◌else◌, codes, starts_with,
  same_text,
}

pub record Ipv4 : Type 0 where
  pub a : ℕ
  pub b : ℕ
  pub c : ℕ
  pub d : ℕ

-- `(acc << 8) + part` and `>>> 0`: 32 bits.
unfoldable pub ipv4_to_int : Ipv4 → ℕ
ipv4_to_int ip = (((ip.a * 256 + ip.b) * 256 + ip.c) * 256 + ip.d) % 2 ^ 32

abbrev range : ℕ → ℕ → ℕ → ℕ → ℕ → Ipv4 × ℕ
range a b c d bits = (record { a = a; b = b; c = c; d = d }, bits)

abbrev pub private_v4 : List (Ipv4 × ℕ)
private_v4 =
    range 0 0 0 0 8
    ∷ range 10 0 0 0 8
    ∷ range 100 64 0 0 10
    ∷ range 127 0 0 0 8
    ∷ range 169 254 0 0 16
    ∷ range 172 16 0 0 12
    ∷ range 192 0 0 0 24
    ∷ range 192 0 2 0 24
    ∷ range 192 168 0 0 16
    ∷ range 198 18 0 0 15
    ∷ range 198 51 100 0 24
    ∷ range 203 0 113 0 24
    ∷ range 224 0 0 0 4
    ∷ range 240 0 0 0 4
    ∷ []

-- `n & mask` with the mask of the first bits: the bits after them are cleared.
abbrev pub masked : ℕ → ℕ → ℕ
masked n bits = n / 2 ^ (32 - bits) * 2 ^ (32 - bits)

abbrev pub in_range : ℕ → Ipv4 × ℕ → Bool
in_range n (base, bits) = masked n bits == masked (ipv4_to_int base) bits

unfoldable pub is_public_v4 : Ipv4 → Bool
is_public_v4 ip = not (any (in_range (ipv4_to_int ip)) private_v4)

pub record Ipv6 : Type 0 where
  pub g0 : ℕ
  pub g1 : ℕ
  pub g2 : ℕ
  pub g3 : ℕ
  pub g4 : ℕ
  pub g5 : ℕ
  pub g6 : ℕ
  pub g7 : ℕ

-- The IPv4 address of two groups.
abbrev pub v4 : ℕ → ℕ → Ipv4
v4 hi lo = record { a = hi / 256; b = hi % 256; c = lo / 256; d = lo % 256 }

abbrev pub zero4 : Ipv6 → Bool
zero4 g = g.g0 == 0 && g.g1 == 0 && g.g2 == 0 && g.g3 == 0

abbrev pub zero5 : Ipv6 → Bool
zero5 g = zero4 g && g.g4 == 0

-- `x & mask` for a mask of the first bits of 16 is the group without its last bits: 0xfe00 leaves
-- out nine, 0xffc0 six and 0xff00 eight.
unfoldable pub is_public_v6 : Ipv6 → Bool
is_public_v6 g =
    if zero5 g && g.g5 == 65535
    then is_public_v4 (v4 g.g6 g.g7)
    else if zero5 g && g.g5 == 0
    then if g.g6 == 0 && leb g.g7 1 then false else is_public_v4 (v4 g.g6 g.g7)
    else if g.g0 == 100 && g.g1 == 65435
    then is_public_v4 (v4 g.g6 g.g7)
    else if g.g0 == 8194
    then is_public_v4 (v4 g.g1 g.g2)
    else if g.g0 / 512 * 512 == 64512
    then false
    else if g.g0 / 64 * 64 == 65152
    then false
    else if g.g0 / 64 * 64 == 65216
    then false
    else if g.g0 / 256 * 256 == 65280
    then false
    else if g.g0 == 8193 && g.g1 == 3512
    then false
    else if g.g0 == 8193 && g.g1 == 0
    then false
    else if g.g0 == 256 && zero4 g
    then false
    else true

-- What `net.isIPv4` and `net.isIPv6` say of a text.
pub data Address : Type 0 where
  ipv4 : Ipv4 → Address
  ipv6 : Ipv6 → Address
  no_ip : Address

unfoldable pub is_public_address : Address → Bool
is_public_address (ipv4 ip) = is_public_v4 ip
is_public_address (ipv6 g) = is_public_v6 g
is_public_address no_ip = false

-- A URL that was read: its parts, and its host as an address.
pub record Url : Type 0 where
  pub protocol : String
  pub username : String
  pub password : String
  pub port : String
  pub hostname : String
  pub address : Address

abbrev pub is_ip : Address → Bool
is_ip no_ip = false
is_ip _ = true

unfoldable pub ends_with : List ℕ → List ℕ → Bool
ends_with p [] = starts_with p []
ends_with p (c ∷ s) = (starts_with p (c ∷ s) && starts_with (c ∷ s) p) || ends_with p s

-- The names that only a private network has. A host of a URL is in lower case.
unfoldable pub is_local_name : String → Bool
is_local_name host =
    same_text host "localhost"
    || ends_with (codes ".localhost") (codes host)
    || ends_with (codes ".local") (codes host)
    || ends_with (codes ".internal") (codes host)
    || same_text host "metadata.google.internal"

unfoldable pub is_feed_url : Url → Bool
is_feed_url url =
    same_text url.protocol "https:"
    && same_text url.username ""
    && same_text url.password ""
    && (same_text url.port "" || same_text url.port "443")
    && (not (is_ip url.address) || is_public_address url.address)
    && not (is_local_name url.hostname)

-- `publicOnlyLookup`: the address that is connected to, of those that a name resolves to.
unfoldable pub public_only_lookup : List Address → Option Address
public_only_lookup addresses =
    if all is_public_address addresses then find? is_public_address addresses else none
