-- ===== src/IpRotation/Pool.antt =====
-- src/anti_blocking/ip_rotation.rs. The addresses that a pool hands out.
use skipjack_mcp.Base.{
  ℕ, zero, suc, ◌+◌, ◌-◌, ◌*◌, ◌%◌, ◌^◌, ◌≤◌, ◌<◌, ◌≡◌, ◌≢◌, ◌↔◌, refl, ap, sym, ◌∙◌, Option, none,
  some, arith,
}
use native.Mathlib.Nat.{add-zero, add-suc, pow-suc, pow-zero, zero-add, mod-eq_of_lt}
use native.Mathlib.Decide.{dec_lt}
use skipjack_mcp.Search.{ok}
use skipjack_mcp.IpRotation.Defs.{
  Net, IsNet, Ipv6Pool, usable_hosts, new_pool, nth_usable_host, next_in_pool,
}

usable_hosts_bounds :
    (host_bits : ℕ)
    → (usable_hosts host_bits < 2 ^ 32) × (usable_hosts host_bits ≤ 2 ^ host_bits - 2)
unfolding usable_hosts
usable_hosts_bounds host_bits = ground arith

-- A network that fits its prefix ends below 2 ^ 128.
network_end :
    (network block rest : ℕ)
    → network % block ≡ 0
    → network < block * rest
    → network + block ≤ block * rest
network_end network block rest h lt = grind arith

pow_split : (a b : ℕ) → 2 ^ (a + b) ≡ 2 ^ a * 2 ^ b
pow_split a zero = simp (add-zero, pow-zero) (omega arith)
pow_split a (suc b) = simp (add-suc, pow-suc) (omega (arith, pow_split a b))

-- The state after `n` calls.
pub after_calls : ℕ → Ipv6Pool → Ipv6Pool
after_calls zero p = p
after_calls (suc n) p = after_calls n (next_in_pool p).1

after_calls_lem :
    (n : ℕ) (p : Ipv6Pool)
    → 0 < p.pool_size
    → p.cursor < 2 ^ 32
    → ((after_calls n p).network ≡ p.network)
      × ((after_calls n p).pool_size ≡ p.pool_size)
      × ((after_calls n p).cursor ≡ (p.cursor + n) % 2 ^ 32)
unfolding after_calls next_in_pool
after_calls_lem zero p pos small = (refl, refl, omega arith)
after_calls_lem (suc n) p pos small =
    let p' = (next_in_pool p).1 in
    let step : (p'.network ≡ p.network)
        × (p'.pool_size ≡ p.pool_size)
        × (p'.cursor ≡ (p.cursor + 1) % 2 ^ 32) =
      (ground arith, ground arith, ground arith) in
    let rest = after_calls_lem n p' (rw step.1 pos) (rw step.2 (omega arith)) in
    (rest.0 ∙ step.0, rest.1 ∙ step.1, rest.2 ∙ omega (arith, step.2))

-- The network of a pool lies within the addresses.
room : (net : Net) → IsNet net → net.network + 2 ^ (128 - net.prefix_len) ≤ 2 ^ 128
room net i =
    let whole : 128 ≡ 128 - net.prefix_len + net.prefix_len = omega (arith, i.short) in
    let split : 2 ^ 128 ≡ 2 ^ (128 - net.prefix_len) * 2 ^ net.prefix_len =
      ap (λ k. 2 ^ k) whole ∙ pow_split (128 - net.prefix_len) net.prefix_len in
    omega (
      arith,
      split,
      network_end net.network (2 ^ (128 - net.prefix_len)) (2 ^ net.prefix_len) i.host_bits_zero
          (omega (arith, split, i.address)),
    )

new_pool_lem :
    (net : Net) (p : Ipv6Pool)
    → new_pool (some net) ≡ ok p
    → (p.network ≡ net.network)
      × (p.pool_size ≡ usable_hosts (128 - net.prefix_len))
      × (p.cursor ≡ 0)
unfolding new_pool
new_pool_lem net p e = (ground arith, ground arith, ground arith)

next_some :
    (p : Ipv6Pool)
    → 0 < p.pool_size
    → (next_in_pool p).0 ≡ some (nth_usable_host p.network (p.cursor % p.pool_size))
unfolding next_in_pool
next_some p pos = ground arith

nth_usable_host_lem :
    (network n : ℕ) → network + 1 + n < 2 ^ 128 → nth_usable_host network n ≡ network + 1 + n
unfolding nth_usable_host
nth_usable_host_lem network n h = omega arith

-- Call `n` of a new pool of a parsed network, if the pool has hosts, returns the address behind
-- the network's by one more than `n`, counted modulo 2 ^ 32 and then modulo the size of the
-- pool; the address is neither the network's nor the last one of the subnet.
pub pool_round_robin :
    (net : Net) (p : Ipv6Pool) (n : ℕ)
    → IsNet net
    → new_pool (some net) ≡ ok p
    → 0 < p.pool_size
    → let addr = net.network + 1 + n % 2 ^ 32 % p.pool_size in
      ((next_in_pool (after_calls n p)).0 ≡ some addr)
      × (net.network < addr)
      × (addr + 1 < net.network + 2 ^ (128 - net.prefix_len))
pool_round_robin net p n i made pos =
    let (same, size, start) = new_pool_lem net p made in
    let (network, pool, cursor) = after_calls_lem n p pos (rw start (omega arith)) in
    let bounds = usable_hosts_bounds (128 - net.prefix_len) in
    let index = n % 2 ^ 32 % p.pool_size in
    let small : index < p.pool_size = omega arith in
    let inside : net.network + 1 + index + 1 < net.network + 2 ^ (128 - net.prefix_len) =
      omega (arith, bounds, size, small) in
    (
      next_some (after_calls n p) (rw pool pos)
          ∙ rw (network, pool, cursor, same, start, zero-add)
              (ap some (nth_usable_host_lem net.network index (omega (arith, inside, room net i)))),
      omega arith,
      inside,
    )

-- The first `pool_size` calls of a new pool of a parsed network return different addresses.
pub pool_no_repeat :
    (net : Net) (p : Ipv6Pool) (m n : ℕ)
    → IsNet net
    → new_pool (some net) ≡ ok p
    → m < n
    → n < p.pool_size
    → (next_in_pool (after_calls m p)).0 ≢ (next_in_pool (after_calls n p)).0
pool_no_repeat net p m n i made lt small = λ e.
    let size = (new_pool_lem net p made).1 in
    let bounds = usable_hosts_bounds (128 - net.prefix_len) in
    let first = (pool_round_robin net p m i made (omega arith)).0 in
    let second = (pool_round_robin net p n i made (omega arith)).0 in
    let same : ◌≡◌ {A = Option ℕ} (some (net.network + 1 + m % 2 ^ 32 % p.pool_size))
        (some (net.network + 1 + n % 2 ^ 32 % p.pool_size)) =
      sym first ∙ e ∙ second in
    let small_m : m % 2 ^ 32 ≡ m = omega (arith, bounds, size) in
    let small_n : n % 2 ^ 32 ≡ n = omega (arith, bounds, size) in
    let index_m : m % 2 ^ 32 % p.pool_size ≡ m = rw small_m (mod-eq_of_lt (omega arith)) in
    let index_n : n % 2 ^ 32 % p.pool_size ≡ n = rw small_n (mod-eq_of_lt small) in
    let addresses : net.network + 1 + m % 2 ^ 32 % p.pool_size
        ≡ net.network + 1 + n % 2 ^ 32 % p.pool_size =
      cc in
    omega (arith, addresses, index_m, index_n)

pow_pos : (k : ℕ) → 0 < 2 ^ k
pow_pos zero = omega arith
pow_pos (suc k) = simp pow-suc (omega (arith, pow_pos k))

usable_hosts_pos : (k : ℕ) → 0 < usable_hosts (suc (suc k))
unfolding usable_hosts
usable_hosts_pos k =
    let four : 2 ^ suc (suc k) ≡ 2 ^ k * 4 = simp pow-suc (omega arith) in
    rw four (ground (arith, pow_pos k))

usable_hosts_one : usable_hosts 1 ≡ 0
unfolding usable_hosts
usable_hosts_one = refl

new_pool_range :
    (net : Net) (p : Ipv6Pool)
    → new_pool (some net) ≡ ok p
    → (64 ≤ net.prefix_len) × (net.prefix_len ≤ 127)
unfolding new_pool
new_pool_range net p e = ground arith

next_none_iff : (p : Ipv6Pool) → ((next_in_pool p).0 ≡ none) ↔ (p.pool_size ≡ 0)
unfolding next_in_pool
next_none_iff p = (λ e. ground arith, λ e. ground arith)

-- A new pool returns no address exactly when its network is a /127, which the constructor
-- accepts.
pub pool_empty_iff :
    (net : Net) (p : Ipv6Pool)
    → new_pool (some net) ≡ ok p
    → ((next_in_pool p).0 ≡ none) ↔ (net.prefix_len ≡ 127)
pool_empty_iff net p made =
    let size = (new_pool_lem net p made).1 in
    let range = new_pool_range net p made in
    (
      λ e. long net.prefix_len range.0 range.1 (sym size ∙ (next_none_iff p).0 e),
      λ e. (next_none_iff p).1 (size ∙ ap (λ k. usable_hosts (128 - k)) e ∙ usable_hosts_one),
    )
  where
    long : (k : ℕ) → 64 ≤ k → k ≤ 127 → usable_hosts (128 - k) ≡ 0 → k ≡ 127
    long k low high none_left = elim (dec_lt k 127) [
      | yes lt ↦
          let shape : 128 - k ≡ suc (suc (126 - k)) = omega arith in
          absurd (omega (arith, usable_hosts_pos (126 - k), rw shape at none_left))
      | no ge ↦ omega arith
    ]
