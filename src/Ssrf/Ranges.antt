-- ===== src/Ssrf/Ranges.antt =====
-- src/daemon/server.rs. Which addresses the blocklist covers.
use skipjack_mcp.Base.{
  ℕ, ◌+◌, ◌*◌, ◌/◌, ◌^◌, ◌<◌, ◌≤◌, ◌≡◌, refl, ap, ◌∙◌, true, false, ◌||◌, none, some, List, [], ◌∷◌,
  map, All, any, arith, ◌↔◌, ◌⊎◌,
}
use mathlib.Core.Path.{ap₂}
use skipjack_mcp.Base.Text.{Text}
use skipjack_mcp.Ssrf.Defs.{
  IpAddr, v4, v6, Cidr, in_cidr, octets, blocklist, IpNets, Reads, ReadsAll, hits, is_ip_blocked,
}

hits-Reads :
    (nets : IpNets) (ip : IpAddr) (t : Text) (c : Cidr)
    → Reads nets (t, c)
    → hits nets ip t ≡ in_cidr c ip
hits-Reads nets ip t c (net, parsed, meaning) =
    ap (λ o. elim o [ none ↦ false | some n ↦ nets.contains n ip ]) parsed ∙ meaning ip

any-Reads :
    (nets : IpNets) (ip : IpAddr) (entries : List (Text × Cidr))
    → All (Reads nets) entries
    → any (hits nets ip) (map (λ entry. entry.0) entries)
      ≡ any (λ entry. in_cidr entry.1 ip) entries
any-Reads nets ip [] h = refl
any-Reads nets ip ((t, c) ∷ entries) (reads, rest) =
    ap₂ ◌||◌ (hits-Reads nets ip t c reads) (any-Reads nets ip entries rest)

-- An address is blocked exactly when it lies in one of the ranges.
is_ip_blocked_lem :
    (nets : IpNets) (ip : IpAddr)
    → ReadsAll nets
    → is_ip_blocked nets ip ≡ any (λ entry. in_cidr entry.1 ip) blocklist
unfolding is_ip_blocked
is_ip_blocked_lem nets ip h = any-Reads nets ip blocklist h

quotients :
    (a b c d : ℕ)
    → b < 256
    → c < 256
    → d < 256
    → (octets a b c d / 2 ^ 24 ≡ a)
      × (octets a b c d / 2 ^ 20 ≡ a * 16 + b / 16)
      × (octets a b c d / 2 ^ 16 ≡ a * 256 + b)
quotients a b c d hb hc hd = omega arith

-- What the list means for an IPv4 address by its octets.
abbrev pub IsPrivate : ℕ → ℕ → Type 0
IsPrivate a b =
    (a ≡ 127)
    ⊎ (a ≡ 10)
    ⊎ ((a ≡ 172) × (16 ≤ b) × (b ≤ 31))
    ⊎ ((a ≡ 192) × (b ≡ 168))
    ⊎ ((a ≡ 169) × (b ≡ 254))
    ⊎ (a ≡ 0)

-- Where the crate ipnet reads the ranges of the blocklist as documented, an IPv4 address is
-- blocked exactly when its octets say that it is loopback, private, link-local or of the current
-- network.
pub v4_blocked_iff :
    (nets : IpNets) (a b c d : ℕ)
    → ReadsAll nets
    → b < 256
    → c < 256
    → d < 256
    → (is_ip_blocked nets (v4 (octets a b c d)) ≡ true) ↔ IsPrivate a b
v4_blocked_iff nets a b c d h hb hc hd =
    let (first, nibble, second) = quotients a b c d hb hc hd in
    rw (is_ip_blocked_lem nets (v4 (octets a b c d)) h, first, nibble, second)
      (λ e. ground arith, λ p. ground arith)

-- Where the crate ipnet reads the ranges of the blocklist as documented, an IPv6 address is
-- blocked exactly when it is the loopback address, unique local or link-local.
pub v6_blocked_iff :
    (nets : IpNets) (ip : ℕ)
    → ReadsAll nets
    → (is_ip_blocked nets (v6 ip) ≡ true) ↔ (
        (ip ≡ 1)
        ⊎ (0xfc00 * 2 ^ 112 ≤ ip) × (ip < 0xfe00 * 2 ^ 112)
        ⊎ (0xfe80 * 2 ^ 112 ≤ ip) × (ip < 0xfec0 * 2 ^ 112))
v6_blocked_iff nets ip h =
    rw (is_ip_blocked_lem nets (v6 ip) h) (λ e. ground arith, λ p. ground arith)

-- The address ::ffff:a.b.c.d of an IPv4 address.
abbrev pub mapped : ℕ → ℕ
mapped ip = 0xffff * 2 ^ 32 + ip

-- Where the crate ipnet reads the ranges of the blocklist as documented, no IPv4-mapped IPv6
-- address is blocked, those of 127.0.0.1 and 10.0.0.1 included; nor is the unspecified address.
pub mapped_not_blocked :
    (nets : IpNets) (ip : ℕ)
    → ReadsAll nets
    → ip < 2 ^ 32
    → (is_ip_blocked nets (v6 (mapped ip)) ≡ false) × (is_ip_blocked nets (v6 0) ≡ false)
mapped_not_blocked nets ip h lt = (
  rw (is_ip_blocked_lem nets (v6 (mapped ip)) h) (ground arith),
  rw (is_ip_blocked_lem nets (v6 0) h),
)
