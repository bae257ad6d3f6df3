-- ===== src/Ssrf/Validate.antt =====
-- src/daemon/server.rs. What `validate_url` lets through.
use skipjack_mcp.Base.{
  ℕ, ◌≡◌, refl, ap, ◌∙◌, ◌↔◌, ◌⊎◌, inl, inr, Bool, true, false, Option, none, some, List, [], ◌∷◌,
  if◌then◌else◌, All, any, arith, Option-cases,
}
use skipjack_mcp.Base.Text.{Text, bytes, text_eq}
use skipjack_mcp.Search.{ok}
use skipjack_mcp.Ssrf.Defs.{
  IpAddr, v4, v6, Host, ipv4, ipv6, domain, IpNets, Urls, is_hostname_blocked, is_ip_blocked,
  is_https, check_host, check_parsed, validate_url,
}

any-eq-false_iff {ℓ} :
    {A : Type ℓ} (p : A → Bool) (xs : List A) → (any p xs ≡ false) ↔ All (λ x. p x ≡ false) xs
any-eq-false_iff p [] = (λ e. tt, λ h. refl)
any-eq-false_iff p (x ∷ xs) = (
  λ e. (ground arith, (any-eq-false_iff p xs).0 (ground arith)),
  λ h. let rest = (any-eq-false_iff p xs).1 h.1 in ground arith,
)

module _ (nets : IpNets) (urls : Urls) (resolve : Text → ℕ → Option (List IpAddr)) where
  -- The port that the resolver is asked for.
  abbrev pub asked : Text → Option ℕ → ℕ
  asked scheme port = elim port [
    | some p ↦ p
    | none ↦ if is_https nets urls resolve scheme then 443 else 80
  ]

  -- Every address that the host stands for is outside the blocklist, and so is its name.
  abbrev pub IsPublic : Text → Option ℕ → Option Host → Type 0
  IsPublic scheme port none = ⊥
  IsPublic scheme port (some (ipv4 ip)) = is_ip_blocked nets (v4 ip) ≡ false
  IsPublic scheme port (some (ipv6 ip)) = is_ip_blocked nets (v6 ip) ≡ false
  IsPublic scheme port (some (domain name)) =
      (is_hostname_blocked name ≡ false)
      × ((addrs : List IpAddr) × (resolve name (asked scheme port) ≡ some addrs)
          × All (λ ip. is_ip_blocked nets ip ≡ false) addrs)

  check_host-IsPublic :
      (scheme : Text) (port : Option ℕ) (host : Option Host)
      → check_host nets urls resolve scheme port host ≡ none
      → IsPublic scheme port host
  unfolding check_host
  check_host-IsPublic scheme port none h = cc
  check_host-IsPublic scheme port (some (ipv4 ip)) h = ground arith
  check_host-IsPublic scheme port (some (ipv6 ip)) h = ground arith
  check_host-IsPublic scheme port (some (domain name)) h =
      elim (Option-cases (resolve name (asked scheme port))) [
        | inl unknown ↦ absurd (ground arith)
        | inr (addrs, found) ↦ (
          ground arith,
          (addrs, found, (any-eq-false_iff (is_ip_blocked nets) addrs).0 (ground arith)),
        )
      ]

  IsPublic-check_host :
      (scheme : Text) (port : Option ℕ) (host : Option Host)
      → IsPublic scheme port host
      → check_host nets urls resolve scheme port host ≡ none
  unfolding check_host
  IsPublic-check_host scheme port none h = absurd h
  IsPublic-check_host scheme port (some (ipv4 ip)) h = rw h
  IsPublic-check_host scheme port (some (ipv6 ip)) h = rw h
  IsPublic-check_host scheme port (some (domain name)) (fine, (addrs, found, all)) =
      let none_blocked = (any-eq-false_iff (is_ip_blocked nets) addrs).1 all in ground arith

  check_parsed_iff :
      (u url : urls.Url)
      → (check_parsed nets urls resolve u ≡ ok url) ↔ (
          (u ≡ url)
          × ((text_eq (urls.scheme url) (bytes "http") ≡ true)
              ⊎ (text_eq (urls.scheme url) (bytes "https") ≡ true))
          × (check_host nets urls resolve (urls.scheme url) (urls.port url) (urls.host url) ≡ none))
  check_parsed_iff u url = (λ e. (ground arith, ground arith, ground arith), λ p. ground arith)

  -- `validate_url` accepts a URL exactly when it parses, its scheme is http or https, and its
  -- host is an address outside the blocklist or a name that is not blocked itself and that the
  -- resolver maps to addresses outside the blocklist only.
  pub validate_url_iff :
      (text : Text) (url : urls.Url)
      → (validate_url nets urls resolve text ≡ ok url) ↔ (
          (urls.parse text ≡ some url)
          × ((text_eq (urls.scheme url) (bytes "http") ≡ true)
              ⊎ (text_eq (urls.scheme url) (bytes "https") ≡ true))
          × IsPublic (urls.scheme url) (urls.port url) (urls.host url))
  unfolding validate_url
  validate_url_iff text url = elim (Option-cases (urls.parse text)) [
    | inl bad ↦ (λ e. absurd (ground arith), λ p. absurd (ground arith))
    | inr (u, parsed) ↦ (
      λ e.
          let (same, scheme, checked) = (check_parsed_iff u url).0 (ground arith) in
          (
            parsed ∙ ap some same,
            scheme,
            check_host-IsPublic (urls.scheme url) (urls.port url) (urls.host url) checked,
          ),
      λ (p, scheme, public).
          let valid = (check_parsed_iff url url).1 (
            refl,
            scheme,
            IsPublic-check_host (urls.scheme url) (urls.port url) (urls.host url) public,
          ) in
          ground arith,
    )
  ]
