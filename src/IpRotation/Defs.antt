-- ===== src/IpRotation/Defs.antt =====
-- src/anti_blocking/ip_rotation.rs. An address is a number below 2 ^ 128. The parser of the crate
-- ipnet, and the client builder and proxies of reqwest, are parameters.
use skipjack_mcp.Base.{
  ℕ, ◌+◌, ◌-◌, ◌%◌, ◌^◌, ◌≤◌, ◌<◌, ◌≡◌, ◌||◌, Option, none, some, List, [], ltb, leb, ◌==◌,
  if◌then◌else◌, length, is_empty, get_elem?,
}
use skipjack_mcp.Base.Text.{Text, bytes, text_eq}
use skipjack_mcp.Search.{Result, ok, err}

-- A parsed `Ipv6Net`: the prefix length and the address with all host bits zero.
pub record Net : Type 0 where
  pub prefix_len : ℕ
  pub network : ℕ

-- What the crate documents of a parsed network.
pub record IsNet (net : Net) : Type 0 where
  pub short : net.prefix_len ≤ 128
  pub host_bits_zero : net.network % 2 ^ (128 - net.prefix_len) ≡ 0
  pub address : net.network < 2 ^ 128

-- The error strings, by what they say.
pub data PoolError : Type 0 where
  invalid_cidr no_usable_hosts too_large missing_subnet missing_proxies no_proxy : PoolError
  unknown_strategy : Text → PoolError

pub record Ipv6Pool : Type 0 where
  pub network : ℕ
  pub pool_size : ℕ  -- u32
  pub cursor : ℕ  -- AtomicU32

-- `min(total - 2, u32::MAX)`, or none of a network of two addresses.
unfoldable pub usable_hosts : ℕ → ℕ
usable_hosts host_bits =
    let total = 2 ^ host_bits in
    if leb total 2 then 0 else if ltb (2 ^ 32 - 1) (total - 2) then 2 ^ 32 - 1 else total - 2

-- `Ipv6PoolStrategy::new`, for the parser's result.
unfoldable pub new_pool : Option Net → Result PoolError Ipv6Pool
new_pool none = err invalid_cidr
new_pool (some net) =
    if ltb 127 net.prefix_len
    then err no_usable_hosts
    else if ltb net.prefix_len 64
    then err too_large
    else ok (record {
      network = net.network;
      pool_size = usable_hosts (128 - net.prefix_len);
      cursor = 0;
    })

unfoldable pub nth_usable_host : ℕ → ℕ → ℕ
nth_usable_host network n = ((network + 1) % 2 ^ 128 + n) % 2 ^ 128

-- `fetch_add(1)`: the old value, and the new one with wrap-around.
abbrev pub fetch_add : ℕ → ℕ × ℕ
fetch_add cursor = (cursor, (cursor + 1) % 2 ^ 32)

unfoldable pub next_in_pool : Ipv6Pool → Option ℕ × Ipv6Pool
next_in_pool p =
    if p.pool_size == 0
    then (none, p)
    else (let (old, next) = fetch_add p.cursor in
        (some (nth_usable_host p.network (old % p.pool_size)), record p { cursor = next }))

pub record ProxyPool : Type 0 where
  pub proxies : List Text
  pub cursor : ℕ  -- AtomicU32

-- The implementors of the trait.
pub data Strategy : Type 0 where
  static_ip : Strategy
  ipv6_pool : Ipv6Pool → Strategy
  proxy_pool : ProxyPool → Strategy

unfoldable pub next_bind_addr : Strategy → Option ℕ × Strategy
next_bind_addr static_ip = (none, static_ip)
next_bind_addr (ipv6_pool p) = let (addr, p') = next_in_pool p in (addr, ipv6_pool p')
next_bind_addr (proxy_pool p) = (none, proxy_pool p)

-- The index of the proxy that a call of `configure_client` takes.
unfoldable pub proxy_index : ProxyPool → ℕ
proxy_index p = p.cursor % (length p.proxies % 2 ^ 32)

module _ {Builder Proxy : Type 0} (local_address : ℕ → Builder → Builder)
    (with_proxy : Proxy → Builder → Builder) (proxy_all : Text → Option Proxy) where
  abbrev pub bind_to : Option ℕ → Builder → Builder
  bind_to none builder = builder
  bind_to (some addr) builder = local_address addr builder

  -- An index out of range is a panic in the source; the builder is kept here.
  abbrev pub use_proxy : Option Text → Builder → Builder
  use_proxy none builder = builder
  use_proxy (some url) builder = elim (proxy_all url) [
    | none ↦ builder
    | some proxy ↦ with_proxy proxy builder
  ]

  unfoldable pub configure_client : Strategy → Builder → Builder × Strategy
  unfolding proxy_index
  configure_client static_ip builder = (builder, static_ip)
  configure_client (ipv6_pool p) builder =
      let (addr, p') = next_in_pool p in (bind_to addr builder, ipv6_pool p')
  configure_client (proxy_pool p) builder = (
    use_proxy (get_elem? p.proxies (proxy_index p)) builder,
    proxy_pool (record p { cursor = (fetch_add p.cursor).1 }),
  )

module _ (parse : Text → Option Net) where
  abbrev build_ipv6 : Option Text → Result PoolError Strategy
  build_ipv6 none = err missing_subnet
  build_ipv6 (some subnet) = elim (new_pool (parse subnet)) [
    | ok p ↦ ok (ipv6_pool p)
    | err e ↦ err e
  ]

  -- The check for an empty list stands before `ProxyPoolStrategy::new`, whose assertion it meets.
  abbrev build_proxies : Option (List Text) → Result PoolError Strategy
  build_proxies none = err missing_proxies
  build_proxies (some urls) =
      if is_empty urls
      then err no_proxy
      else ok (proxy_pool (record { proxies = urls; cursor = 0 }))

  unfoldable pub build_ip_rotation_strategy :
      Text → Option Text → Option (List Text) → Result PoolError Strategy
  build_ip_rotation_strategy name ipv6_subnet proxies =
      if text_eq name (bytes "static") || text_eq name []
      then ok static_ip
      else if text_eq name (bytes "ipv6_pool")
      then build_ipv6 ipv6_subnet
      else if text_eq name (bytes "proxy_pool")
      then build_proxies proxies
      else err (unknown_strategy name)
