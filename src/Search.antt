-- ===== src/Search.antt =====
-- src/search/provider.rs and src/search/request.rs: the types that the components exchange. A
-- `String` is its bytes, and the type of scores is a parameter `F`.
use skipjack_mcp.Base.{ℕ, Bool, List, Option, ◌≡◌, ◌⊎◌, refl, inl, inr}
use skipjack_mcp.Base.Text.{Text}

pub data Tag : Type 0 where
  web news academic code privacy finance images video shopping knowledge playwright : Tag

pub data ProviderError : Type 0 where
  http_error : ℕ → Text → ProviderError
  rate_limited : Option ℕ → ProviderError
  access_denied : ProviderError
  captcha_detected : Text → ProviderError
  timeout : ℕ → ProviderError
  parse_error : Text → ProviderError
  not_configured : Text → ProviderError
  internal : Text → ProviderError

pub data Result {ℓ κ} (E : Type κ) (A : Type ℓ) : Type (ℓ ⊔ κ) where
  ok : A → Result E A
  err : E → Result E A

-- The operator `?`.
infixl 5 ◌>>=◌
abbrev pub ◌>>=◌ {ℓ κ} :
    {E : Type 0} {A : Type ℓ} {B : Type κ} → Result E A → (A → Result E B) → Result E B
ok a >>= f = f a
err e >>= f = err e

pub Result-cases {ℓ κ} :
    {E : Type κ} {A : Type ℓ} (r : Result E A) → ((a : A) × (r ≡ ok a)) ⊎ ((e : E) × (r ≡ err e))
Result-cases (ok a) = inl (a, refl)
Result-cases (err e) = inr (e, refl)

pub record SearchResult (F : Type 0) : Type 0 where
  pub title : Text
  pub url : Text
  pub snippet : Text
  pub published_date : Option Text
  pub provider_name : Text
  pub rank_score : F

pub data Freshness : Type 0 where
  day week month year : Freshness

pub record SearchRequest : Type 0 where
  pub request_id : Text
  pub query : Text
  pub limit : ℕ
  pub providers : List Text
  pub language : Option Text
  pub country : Option Text
  pub safe_search : Bool
  pub freshness : Option Freshness
  pub dispatch_mode : Option Text

pub record SearchResponse (F : Type 0) : Type 0 where
  pub request_id : Text
  pub results : List (SearchResult F)
  pub total_found : ℕ
  pub providers_used : List Text
  pub cache_hit : Bool
  pub elapsed_ms : ℕ
