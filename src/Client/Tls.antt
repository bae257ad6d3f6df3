-- ===== src/Client/Tls.antt =====
-- src/anti_blocking/tls.rs: `build_shuffled_tls_config`. The crates rustls, rustls_native_certs and rand
-- are a parameter.
use skipjack_mcp.Base.{Bool, List, [], ◌∷◌, ◌++◌, ltb, if◌then◌else◌, length, take, drop, is_empty}
use skipjack_mcp.Base.Text.{Text, bytes}
use skipjack_mcp.Search.{Result, ok, err}

pub record Rustls : Type 1 where
  pub Suite : Type 0
  pub Cert : Type 0
  pub RootCertStore : Type 0
  pub ClientConfig : Type 0
  -- `default_provider().cipher_suites`, and `shuffle` of a slice.
  pub cipher_suites : List Suite
  pub shuffle : List Suite → List Suite
  -- `load_native_certs()`, and its errors with their `{:?}`.
  pub native_certs : List Cert
  pub native_errors : List Text
  pub debug_errors : List Text → Text
  pub empty_store : RootCertStore
  pub add : RootCertStore → Cert → Result Text RootCertStore
  pub is_store_empty : RootCertStore → Bool
  -- The builder, with the suites and the root certificates; it fails on the protocol versions.
  pub builder : List Suite → RootCertStore → Result Text ClientConfig

module _ (rustls : Rustls) where
  open rustls use {
    Suite, Cert, RootCertStore, ClientConfig, cipher_suites, shuffle, native_certs, native_errors,
    debug_errors, empty_store, add, is_store_empty, builder,
  }

  unfoldable pub shuffled_suites : List Suite
  shuffled_suites =
      if ltb 3 (length cipher_suites)
      then take 3 cipher_suites ++ shuffle (drop 3 cipher_suites)
      else cipher_suites

  -- The loop over the certificates.
  unfoldable pub add_all : RootCertStore → List Cert → Result Text RootCertStore
  add_all store [] = ok store
  add_all store (cert ∷ certs) = elim (add store cert) [
    | err e ↦ err (bytes "failed to add root certificate: " ++ e)
    | ok store' ↦ add_all store' certs
  ]

  abbrev pub detail : Text
  detail =
      if is_empty native_errors then bytes "no certificates found" else debug_errors native_errors

  unfoldable pub build_shuffled_tls_config : Result Text ClientConfig
  unfolding shuffled_suites add_all
  build_shuffled_tls_config = elim (add_all empty_store native_certs) [
    | err e ↦ err e
    | ok store ↦
        if is_store_empty store
        then err (bytes "failed to load system root certificates: " ++ detail)
        else elim (builder shuffled_suites store) [
          | err e ↦ err (bytes "failed to set protocol versions: " ++ e)
          | ok config ↦ ok config
        ]
  ]

  unfoldable pub can_shuffle_ciphers : Bool
  can_shuffle_ciphers = ltb 3 (length cipher_suites)
