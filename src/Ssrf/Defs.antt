-- ===== src/Ssrf/Defs.antt =====
-- src/daemon/server.rs: `is_hostname_blocked`, `is_ip_blocked` and `validate_url`. The crates ipnet
-- and url, and the resolver, are parameters. Names are ASCII, as the url crate returns them.
use skipjack_mcp.Base.{
  ℕ, ◌+◌, ◌-◌, ◌*◌, ◌/◌, ◌^◌, ◌≡◌, Bool, false, not, ◌&&◌, ◌||◌, Option, none, some, List, [], ◌∷◌,
  map, ◌==◌, if◌then◌else◌, All, any,
}
use skipjack_mcp.Base.Text.{Text, bytes, text_eq, ends_with, to_lowercase}
use skipjack_mcp.Search.{Result, ok, err}

pub data IpAddr : Type 0 where
  v4 : ℕ → IpAddr
  v6 : ℕ → IpAddr

pub data Host : Type 0 where
  ipv4 : ℕ → Host
  ipv6 : ℕ → Host
  domain : Text → Host

-- A range of addresses: its base and prefix length.
pub data Cidr : Type 0 where
  range4 : ℕ → ℕ → Cidr
  range6 : ℕ → ℕ → Cidr

abbrev pub in_cidr : Cidr → IpAddr → Bool
in_cidr (range4 base len) (v4 ip) = ip / 2 ^ (32 - len) == base / 2 ^ (32 - len)
in_cidr (range6 base len) (v6 ip) = ip / 2 ^ (128 - len) == base / 2 ^ (128 - len)
in_cidr (range4 base len) (v6 ip) = false
in_cidr (range6 base len) (v4 ip) = false

abbrev pub octets : ℕ → ℕ → ℕ → ℕ → ℕ
octets a b c d = ((a * 256 + b) * 256 + c) * 256 + d

-- The literals of the blocklist, with what each denotes.
abbrev pub blocklist : List (Text × Cidr)
blocklist =
    (bytes "127.0.0.0/8", range4 (octets 127 0 0 0) 8)
    ∷ (bytes "10.0.0.0/8", range4 (octets 10 0 0 0) 8)
    ∷ (bytes "172.16.0.0/12", range4 (octets 172 16 0 0) 12)
    ∷ (bytes "192.168.0.0/16", range4 (octets 192 168 0 0) 16)
    ∷ (bytes "169.254.0.0/16", range4 (octets 169 254 0 0) 16)
    ∷ (bytes "::1/128", range6 1 128)
    ∷ (bytes "fc00::/7", range6 (0xfc00 * 2 ^ 112) 7)
    ∷ (bytes "fe80::/10", range6 (0xfe80 * 2 ^ 112) 10)
    ∷ (bytes "0.0.0.0/8", range4 (octets 0 0 0 0) 8)
    ∷ []

abbrev pub blocked : List Text
blocked = map (λ entry. entry.0) blocklist

-- The crate ipnet.
pub record IpNets : Type 1 where
  pub IpNet : Type 0
  pub parse : Text → Option IpNet
  pub contains : IpNet → IpAddr → Bool

-- What the crate documents of the literals: they parse, to the networks that they denote.
abbrev pub Reads : IpNets → Text × Cidr → Type 0
Reads nets (t, c) =
    (net : nets.IpNet) × (nets.parse t ≡ some net)
    × ((ip : IpAddr) → nets.contains net ip ≡ in_cidr c ip)

abbrev pub ReadsAll : IpNets → Type 0
ReadsAll nets = All (Reads nets) blocklist

-- The crate url: a parsed URL and its accessors.
pub record Urls : Type 1 where
  pub Url : Type 0
  pub parse : Text → Option Url
  pub scheme : Url → Text
  pub host : Url → Option Host
  pub port : Url → Option ℕ

pub data UrlError : Type 0 where
  invalid_url restricted dns_failed no_host : UrlError
  unsupported_scheme : Text → UrlError

unfoldable pub is_hostname_blocked : Text → Bool
is_hostname_blocked host =
    let host_lower = to_lowercase host in
    text_eq host_lower (bytes "localhost")
    || ends_with host_lower (bytes ".local")
    || text_eq host_lower (bytes "metadata.google.internal")

module _ (nets : IpNets) where
  abbrev pub hits : IpAddr → Text → Bool
  hits ip range = elim (nets.parse range) [ none ↦ false | some net ↦ nets.contains net ip ]

  -- The loop over the ranges.
  unfoldable pub is_ip_blocked : IpAddr → Bool
  is_ip_blocked ip = any (hits ip) blocked

  module _ (urls : Urls) (resolve : Text → ℕ → Option (List IpAddr)) where
    abbrev pub is_https : Text → Bool
    is_https scheme = text_eq scheme (bytes "https")

    -- The arms of the match on the host; `none` is success.
    unfoldable pub check_host : Text → Option ℕ → Option Host → Option UrlError
    check_host scheme port none = some no_host
    check_host scheme port (some (ipv4 ip)) =
        if is_ip_blocked (v4 ip) then some restricted else none
    check_host scheme port (some (ipv6 ip)) =
        if is_ip_blocked (v6 ip) then some restricted else none
    check_host scheme port (some (domain name)) =
        if is_hostname_blocked name
        then some restricted
        else elim (resolve name
            (elim port [ some p ↦ p | none ↦ if is_https scheme then 443 else 80 ])) [
              | none ↦ some dns_failed
              | some addrs ↦ if any is_ip_blocked addrs then some restricted else none
            ]

    abbrev pub check_parsed : urls.Url → Result UrlError urls.Url
    check_parsed url =
        let scheme = urls.scheme url in
        if not (text_eq scheme (bytes "http")) && not (is_https scheme)
        then err (unsupported_scheme scheme)
        else elim (check_host scheme (urls.port url) (urls.host url)) [
          | none ↦ ok url
          | some e ↦ err e
        ]

    unfoldable pub validate_url : Text → Result UrlError urls.Url
    validate_url url_str = elim (urls.parse url_str) [
      | none ↦ err invalid_url
      | some url ↦ check_parsed url
    ]
