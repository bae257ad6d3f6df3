-- ===== src/Tests/Network.antt =====
-- The checks on URLs, the fetcher and the rotation of addresses at concrete inputs. The crates are
-- instantiated by small functions.
use skipjack_mcp.Base.{
  ℕ, ◌*◌, ◌^◌, ◌≤◌, ◌<◌, ◌≡◌, ◌↔◌, ◌⊎◌, refl, true, false, Option, none, some, List, [], ◌∷◌, suc,
  length, map, All, arith, if◌then◌else◌, ◌==◌, ◌&&◌,
}
use mathlib.Core.Path.{subst}
use skipjack_mcp.Base.Text.{Text, bytes, text_eq, lower}
use skipjack_mcp.Base.Dict as Dict
use skipjack_mcp.Search.{ok, err}
use skipjack_mcp.Ssrf.Defs.{
  IpAddr, v4, v6, Host, ipv4, Cidr, in_cidr, range4, range6, octets, blocklist, IpNets, ReadsAll,
  Urls, is_ip_blocked, validate_url,
}
use skipjack_mcp.Ssrf.Ranges.{IsPrivate, mapped, v4_blocked_iff, v6_blocked_iff, mapped_not_blocked}
use skipjack_mcp.Ssrf.Validate.{IsPublic, validate_url_iff}
use skipjack_mcp.Spa.Defs.{
  detect_spa, strip_tags, region, ignored, panicked, strip_tag, find, replace_range,
  is_char_boundary, begins,
}
use skipjack_mcp.Fetch.Defs.{
  max_redirects, HttpResponse, FetchResult, Action, follow, stop, Policy, Web, redirect_policy,
  handle_fetch, read_body_capped,
}
use skipjack_mcp.Fetch.Body.{payload, read_body_capped_iff}
use skipjack_mcp.Fetch.Requests.{
  Allowed, Obeys, IsValidated, IsCoherent, Panics, fetch_requests-IsValidated, fetch-IsCoherent,
}
use skipjack_mcp.Spa.Detect.{IsAscii, Decided, detect_spa_total}

unfoldable parse_range : Text → Option Cidr
unfolding Dict.lookup
parse_range text = Dict.lookup text blocklist

abbrev nets : IpNets
nets = record { IpNet = Cidr; parse = parse_range; contains = in_cidr }

reads_all : ReadsAll nets
unfolding parse_range
reads_all = (
  (range4 (octets 127 0 0 0) 8, refl, λ ip. refl),
  (
    (range4 (octets 10 0 0 0) 8, refl, λ ip. refl),
    (
      (range4 (octets 172 16 0 0) 12, refl, λ ip. refl),
      (
        (range4 (octets 192 168 0 0) 16, refl, λ ip. refl),
        (
          (range4 (octets 169 254 0 0) 16, refl, λ ip. refl),
          (
            (range6 1 128, refl, λ ip. refl),
            (
              (range6 (0xfc00 * 2 ^ 112) 7, refl, λ ip. refl),
              (
                (range6 (0xfe80 * 2 ^ 112) 10, refl, λ ip. refl),
                ((range4 (octets 0 0 0 0) 8, refl, λ ip. refl), tt),
              ),
            ),
          ),
        ),
      ),
    ),
  ),
)

v4_blocked_iff_example : (is_ip_blocked nets (v4 (octets 172 20 0 1)) ≡ true) ↔ IsPrivate 172 20
v4_blocked_iff_example =
    v4_blocked_iff nets 172 20 0 1 reads_all (ground arith) (ground arith) (ground arith)

abbrev loopback : ℕ
loopback = 1

v6_blocked_iff_example : (is_ip_blocked nets (v6 loopback) ≡ true) ↔ (
    (loopback ≡ 1)
    ⊎ (0xfc00 * 2 ^ 112 ≤ loopback) × (loopback < 0xfe00 * 2 ^ 112)
    ⊎ (0xfe80 * 2 ^ 112 ≤ loopback) × (loopback < 0xfec0 * 2 ^ 112))
v6_blocked_iff_example = v6_blocked_iff nets loopback reads_all

mapped_not_blocked_example :
    (is_ip_blocked nets (v6 (mapped (octets 127 0 0 1))) ≡ false)
    × (is_ip_blocked nets (v6 0) ≡ false)
mapped_not_blocked_example = mapped_not_blocked nets (octets 127 0 0 1) reads_all (ground arith)

abbrev host_of : Text → Option Host
host_of text =
    if text_eq text (bytes "inside")
    then some (ipv4 (octets 10 0 0 1))
    else some (ipv4 (octets 93 184 216 34))

abbrev pub urls : Urls
urls = record {
  Url = Text;
  parse = λ text. some text;
  scheme = λ url. bytes "https";
  host = host_of;
  port = λ url. none;
}

abbrev pub resolve : Text → ℕ → Option (List IpAddr)
resolve name port = none

validate_url_iff_example :
    (validate_url nets urls resolve (bytes "outside") ≡ ok (bytes "outside")) ↔ (
      (urls.parse (bytes "outside") ≡ some (bytes "outside"))
      × ((text_eq (urls.scheme (bytes "outside")) (bytes "http") ≡ true)
          ⊎ (text_eq (urls.scheme (bytes "outside")) (bytes "https") ≡ true))
      × IsPublic nets urls resolve
          (urls.scheme (bytes "outside"))
          (urls.port (bytes "outside"))
          (urls.host (bytes "outside")))
validate_url_iff_example = validate_url_iff nets urls resolve (bytes "outside") (bytes "outside")

-- A client that requests the targets of redirects for as long as its policy follows them.
abbrev pass : Action → Text → List Text → List Text
pass follow target rest = target ∷ rest
pass stop target rest = []

abbrev hops : Policy → ℕ → List Text → List Text
hops policy n [] = []
hops policy n (target ∷ targets) = pass (policy n target) target (hops policy (suc n) targets)

pass-Allowed :
    (policy : Policy) (n : ℕ) (target : Text) (rest : List Text) (a : Action)
    → policy n target ≡ a
    → Allowed policy (suc n) rest
    → Allowed policy n (pass a target rest)
pass-Allowed policy n target rest follow e h = (e, h)
pass-Allowed policy n target rest stop e h = tt

hops-Allowed :
    (policy : Policy) (n : ℕ) (targets : List Text) → Allowed policy n (hops policy n targets)
hops-Allowed policy n [] = tt
hops-Allowed policy n (target ∷ targets) =
    pass-Allowed policy n target (hops policy (suc n) targets) (policy n target) refl
      (hops-Allowed policy (suc n) targets)

abbrev targets : List Text
targets = bytes "next" ∷ bytes "inside" ∷ []

abbrev page : HttpResponse
page = record {
  url = bytes "outside";
  status = 200;
  content_length = none;
  chunks = ok (bytes "<p>") ∷ ok (bytes "text") ∷ [];
}

abbrev pub fetcher : Web
fetcher = record {
  Tls = Unit;
  Client = Policy;
  tls = ok tt;
  user_agent = [];
  build = λ tls agent policy timeout_secs. ok policy;
  send = λ policy url. (ok page, url ∷ hops policy 1 targets);
  is_utf8 = λ body. true;
  convert = λ html. some (some html);
  spa_warning = bytes "!";
  to_lowercase = map lower;
}

fetcher-Obeys : (policy : Policy) → Obeys fetcher policy
fetcher-Obeys policy tls timeout_secs client url e =
    let same : policy ≡ client = cc in
    (
      hops client 1 targets,
      refl,
      subst (λ q. Allowed policy 1 (hops q 1 targets)) same (hops-Allowed policy 1 targets),
    )

fetch_requests-IsValidated_example :
    All
      (IsValidated fetcher nets urls resolve)
      (handle_fetch fetcher nets urls resolve (bytes "outside") 30).1
    × (length (handle_fetch fetcher nets urls resolve (bytes "outside") 30).1 ≤ max_redirects)
fetch_requests-IsValidated_example =
    fetch_requests-IsValidated fetcher nets urls resolve (bytes "outside") 30
      (fetcher-Obeys (redirect_policy fetcher nets urls resolve))

fetch-IsCoherent_example :
    ((r : FetchResult) × ((handle_fetch fetcher nets urls resolve (bytes "outside") 30).0 ≡ some r)
      × IsCoherent fetcher nets urls resolve r)
    ⊎ Panics fetcher nets urls resolve
        (bytes "outside")
        30
        (handle_fetch fetcher nets urls resolve (bytes "outside") 30).0
fetch-IsCoherent_example = fetch-IsCoherent fetcher nets urls resolve (bytes "outside") 30

read_body_capped_iff_example : (read_body_capped 10 page ≡ ok (bytes "<p>text")) ↔ (
    (payload page.chunks ≡ some (bytes "<p>text"))
    × (length (bytes "<p>text") ≤ 10)
    × ((cl : ℕ) → page.content_length ≡ some cl → cl ≤ 10))
read_body_capped_iff_example = read_body_capped_iff 10 page (bytes "<p>text")

abbrev spa_page : Text
spa_page = bytes "<div id=root></div><script>x</script>"

detect_spa_total_example :
    ((stripped : Text) × (strip_tags (map lower) spa_page ignored ≡ ok stripped)
      × (length stripped ≤ length spa_page)
      × (region (map lower) (bytes "noscript") stripped ≡ none)
      × Decided (map lower) (bytes "!") spa_page stripped)
    ⊎ ((detect_spa (map lower) (bytes "!") spa_page ≡ err panicked) × ¬ IsAscii spa_page)
detect_spa_total_example = detect_spa_total (map lower) (bytes "!") spa_page (λ s a. refl)

-- The capital I with a dot takes two bytes, its lower case three.
unfoldable dotted_lower : Text → Text
dotted_lower [] = []
dotted_lower (c ∷ []) = lower c ∷ []
dotted_lower (c ∷ d ∷ s) =
    let rest = dotted_lower s in
    let other = dotted_lower (d ∷ s) in
    if c == 0xc4 && d == 0xb0 then 0x69 ∷ 0xcc ∷ 0x87 ∷ rest else lower c ∷ other

-- A page of 19 bytes, of which the loop would take those from 3 to 20.
strip_tags-panicked :
    strip_tags dotted_lower (0xc4 ∷ 0xb0 ∷ bytes "<script></script>") ignored ≡ err panicked
unfolding strip_tags strip_tag region find replace_range is_char_boundary begins dotted_lower
strip_tags-panicked = refl
