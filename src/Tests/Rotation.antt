-- ===== src/Tests/Rotation.antt =====
-- The rotation of addresses and proxies at concrete inputs.
use skipjack_mcp.Base.{
  ℕ, ◌+◌, ◌*◌, ◌%◌, ◌^◌, ◌<◌, ◌≡◌, refl, Option, none, some, List, [], ◌∷◌, ◌-◌, arith,
}
use skipjack_mcp.Base.Text.{Text, bytes}
use skipjack_mcp.Search.{ok}
use skipjack_mcp.IpRotation.Defs.{
  Net, IsNet, Ipv6Pool, new_pool, next_in_pool, proxy_pool, usable_hosts,
  build_ip_rotation_strategy,
}
use skipjack_mcp.IpRotation.Pool.{after_calls, pool_round_robin}

-- 2001:db8::/125, with six hosts, and a /127.
abbrev small_net : Net
small_net = record { prefix_len = 125; network = 0x20010db8 * 2 ^ 96 }

abbrev tiny_net : Net
tiny_net = record { prefix_len = 127; network = 0x20010db8 * 2 ^ 96 }

abbrev small_pool : Ipv6Pool
small_pool = record { network = 0x20010db8 * 2 ^ 96; pool_size = 6; cursor = 0 }

abbrev tiny_pool : Ipv6Pool
tiny_pool = record { network = 0x20010db8 * 2 ^ 96; pool_size = 0; cursor = 0 }

small_made : new_pool (some small_net) ≡ ok small_pool
unfolding new_pool usable_hosts
small_made = refl

tiny_made : new_pool (some tiny_net) ≡ ok tiny_pool
unfolding new_pool usable_hosts
tiny_made = refl

small-IsNet : IsNet small_net
small-IsNet = record { short = ground arith; host_bits_zero = refl; address = ground arith }

pool_round_robin_example :
    ((next_in_pool (after_calls 7 small_pool)).0 ≡ some (small_net.network + 1 + 7 % 2 ^ 32 % 6))
    × (small_net.network < small_net.network + 1 + 7 % 2 ^ 32 % 6)
    × (small_net.network + 1 + 7 % 2 ^ 32 % 6 + 1
        < small_net.network + 2 ^ (128 - small_net.prefix_len))
pool_round_robin_example =
    pool_round_robin small_net small_pool 7 small-IsNet small_made (ground arith)

abbrev proxies : List Text
proxies = bytes "http://a" ∷ bytes "http://b" ∷ []

built :
    build_ip_rotation_strategy (λ s. none) (bytes "proxy_pool") none (some proxies)
    ≡ ok (proxy_pool (record { proxies = proxies; cursor = 0 }))
unfolding build_ip_rotation_strategy
built = refl

abbrev bind : ℕ → List Text → List Text
bind addr builder = builder

abbrev route : Text → List Text → List Text
route proxy builder = proxy ∷ builder

abbrev known : Text → Option Text
known url = some url
