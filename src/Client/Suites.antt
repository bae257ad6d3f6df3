-- ===== src/Client/Suites.antt =====
-- src/anti_blocking/tls.rs. What a TLS configuration offers and trusts.
use mathlib.Core.List.{Permᴰ}
use mathlib.Core.List.Permᴰ
use skipjack_mcp.Base.{◌≡◌, List, take}
use skipjack_mcp.Client.Tls.{Rustls}

module _ (rustls : Rustls)
    (shuffle-perm : (xs : List (rustls.Suite)) → Permᴰ (rustls.shuffle xs) xs) where
  -- The suites of the crate in another order, the first three in their places.
  abbrev pub IsShuffle : List (rustls.Suite) → Type 0
  IsShuffle suites =
      (take 3 suites ≡ take 3 rustls.cipher_suites) × Permᴰ suites rustls.cipher_suites
