-- ===== src/IpRotation/Factory.antt =====
-- src/anti_blocking/ip_rotation.rs. The factory, and the rotation of proxies.
use skipjack_mcp.Base.{
  ℕ, zero, suc, ◌+◌, ◌%◌, ◌^◌, ◌<◌, ◌≡◌, refl, ap, ◌∙◌, Option, none, some, List, [], ◌∷◌, length,
  get_elem?, arith,
}
use skipjack_mcp.Base.Text.{Text}
use native.Mathlib.Nat.{zero-add}
use skipjack_mcp.Search.{ok}
use skipjack_mcp.IpRotation.Defs.{
  Net, ProxyPool, Strategy, static_ip, ipv6_pool, proxy_pool, new_pool, use_proxy, configure_client,
  build_ip_rotation_strategy,
}

get_elem?-in_range {ℓ} :
    {A : Type ℓ} (xs : List A) (i : ℕ) → i < length xs → (x : A) × (get_elem? xs i ≡ some x)
get_elem?-in_range [] i lt = absurd (omega arith)
get_elem?-in_range (x ∷ xs) zero lt = (x, refl)
get_elem?-in_range (x ∷ xs) (suc i) lt = get_elem?-in_range xs i (omega arith)

-- What the factory may return: each strategy is fresh, a pool of addresses is what the constructor
-- makes of the given subnet, and a pool of proxies has the given URLs, at least one.
pub IsFresh : (Text → Option Net) → Option Text → Option (List Text) → Strategy → Type 0
IsFresh parse subnet proxies static_ip = Unit
IsFresh parse subnet proxies (ipv6_pool p) =
    (s : Text) × (subnet ≡ some s) × (new_pool (parse s) ≡ ok p)
IsFresh parse subnet proxies (proxy_pool p) =
    (proxies ≡ some p.proxies) × (0 < length p.proxies) × (p.cursor ≡ 0)

-- A strategy that the factory returns is static; a pool of addresses as the constructor makes it
-- of the given subnet; or a pool of the given proxies, of which there is at least one, with its
-- cursor at the first.
pub factory-IsFresh :
    (parse : Text → Option Net) (name : Text) (subnet : Option Text) (proxies : Option (List Text))
    (s : Strategy)
    → build_ip_rotation_strategy parse name subnet proxies ≡ ok s
    → IsFresh parse subnet proxies s
unfolding build_ip_rotation_strategy IsFresh
factory-IsFresh parse name subnet proxies static_ip h = tt
factory-IsFresh parse name none proxies (ipv6_pool p) h = absurd (ground arith)
factory-IsFresh parse name (some s) proxies (ipv6_pool p) h = (s, refl, ground arith)
factory-IsFresh parse name subnet none (proxy_pool p) h = absurd (ground arith)
factory-IsFresh parse name subnet (some []) (proxy_pool p) h = absurd (ground arith)
factory-IsFresh parse name subnet (some (u ∷ urls)) (proxy_pool p) h =
    (ground arith, ground arith, ground arith)

module _ {Builder Proxy : Type 0} (local_address : ℕ → Builder → Builder)
    (with_proxy : Proxy → Builder → Builder) (proxy_all : Text → Option Proxy) where
  -- The strategy after `n` requests.
  pub after_requests : ℕ → Builder → Strategy → Strategy
  after_requests zero builder s = s
  after_requests (suc n) builder s =
      after_requests n builder (configure_client local_address with_proxy proxy_all s builder).1

  after_requests_lem :
      (n : ℕ) (builder : Builder) (p : ProxyPool)
      → p.cursor < 2 ^ 32
      → after_requests n builder (proxy_pool p)
        ≡ proxy_pool (record p { cursor = (p.cursor + n) % 2 ^ 32 })
  unfolding after_requests configure_client
  after_requests_lem zero builder p small =
      ap (λ c. proxy_pool (record p { cursor = c })) (omega arith)
  after_requests_lem (suc n) builder p small =
      after_requests_lem n builder (record p { cursor = (p.cursor + 1) % 2 ^ 32 }) (omega arith)
      ∙ ap (λ c. proxy_pool (record p { cursor = c })) (omega arith)

  uses :
      (urls : List Text) (c : ℕ) (builder : Builder) (url : Text)
      → get_elem? urls (c % (length urls % 2 ^ 32)) ≡ some url
      → (configure_client local_address with_proxy proxy_all
          (proxy_pool (record { proxies = urls; cursor = c }))
          builder).0
        ≡ use_proxy local_address with_proxy proxy_all (some url) builder
  unfolding configure_client
  uses urls c builder url found =
      ap (λ u. use_proxy local_address with_proxy proxy_all u builder) found

  -- Request `n` of a new pool of fewer than 2 ^ 32 proxies, at least one, goes to the proxy
  -- whose index is `n`, modulo 2 ^ 32 and then modulo their number, and that index is in
  -- range.
  pub proxy_round_robin :
      (urls : List Text) (n : ℕ) (builder : Builder)
      → 0 < length urls
      → length urls < 2 ^ 32
      → (url : Text) × (get_elem? urls (n % 2 ^ 32 % length urls) ≡ some url)
        × ((configure_client local_address with_proxy proxy_all
              (after_requests n builder (proxy_pool (record { proxies = urls; cursor = 0 })))
              builder).0
            ≡ use_proxy local_address with_proxy proxy_all (some url) builder)
  proxy_round_robin urls n builder pos small =
      let index = n % 2 ^ 32 % length urls in
      let (url, found) = get_elem?-in_range urls index (grind arith) in
      let width : length urls % 2 ^ 32 ≡ length urls = omega arith in
      let start : ProxyPool = record { proxies = urls; cursor = 0 } in
      (
        url,
        found,
        rw (after_requests_lem n builder start (omega arith), zero-add)
            (uses urls (n % 2 ^ 32) builder url (rw width found)),
      )
