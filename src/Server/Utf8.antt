-- ===== src/Server/Utf8.antt =====
-- UTF-8 around a byte of ASCII, for the chunks of src/daemon/server.rs.
use skipjack_mcp.Base.{
  ℕ, zero, suc, ◌≤◌, ◌<◌, ◌≡◌, refl, sym, ◌∙◌, inl, inr, true, false, none, some, [], ◌∷◌, ◌++◌,
  arith, Option-cases,
}
use skipjack_mcp.Base.Text.{Text}
use skipjack_mcp.Server.Lines.{utf8_lead, utf8_from}

lead_ascii : (c : ℕ) → c < 0x80 → utf8_lead c ≡ some (0, 0, 0)
unfolding utf8_lead
lead_ascii c h = ground arith

lead-low :
    (b pending low high : ℕ) → utf8_lead b ≡ some (pending, low, high) → 0 < pending → 0x80 ≤ low
unfolding utf8_lead
lead-low b pending low high e h = ground arith

utf8_from-some :
    (low high b pending low' high' : ℕ) (s : Text)
    → utf8_lead b ≡ some (pending, low', high')
    → utf8_from 0 low high (b ∷ s) ≡ utf8_from pending low' high' s
unfolding utf8_from
utf8_from-some low high b pending low' high' s e = rw (e, utf8_from) refl

utf8_from-none :
    (low high b : ℕ) (s : Text) → utf8_lead b ≡ none → utf8_from 0 low high (b ∷ s) ≡ false
unfolding utf8_from
utf8_from-none low high b s e = rw (e, utf8_from) refl

utf8_from_end : (low high : ℕ) → utf8_from 0 low high [] ≡ true
unfolding utf8_from
utf8_from_end low high = refl

utf8_from_short :
    (pending low high c : ℕ) (t : Text)
    → c < 0x80
    → 0x80 ≤ low
    → ¬ (utf8_from (suc pending) low high (c ∷ t) ≡ true)
unfolding utf8_from
utf8_from_short pending low high c t hc hl h = ground arith

utf8_from_within :
    (pending low high b c : ℕ) (s t : Text)
    → (utf8_from pending 0x80 0xbf (s ++ c ∷ t) ≡ true
        → (utf8_from pending 0x80 0xbf s ≡ true) × (utf8_from 0 0 0 t ≡ true))
    → utf8_from (suc pending) low high (b ∷ s ++ c ∷ t) ≡ true
    → (utf8_from (suc pending) low high (b ∷ s) ≡ true) × (utf8_from 0 0 0 t ≡ true)
unfolding utf8_from
utf8_from_within pending low high b c s t ih h = ground arith

-- A byte of ASCII is a character: what stands before it is UTF-8, and so is what stands behind it.
pub utf8_from-split :
    (pending low high c : ℕ) (s t : Text)
    → c < 0x80
    → (0 < pending → 0x80 ≤ low)
    → utf8_from pending low high (s ++ c ∷ t) ≡ true
    → (utf8_from pending low high s ≡ true) × (utf8_from 0 0 0 t ≡ true)
utf8_from-split zero low high c [] t hc hl h =
    (utf8_from_end low high, sym (utf8_from-some low high c 0 0 0 t (lead_ascii c hc)) ∙ h)
utf8_from-split (suc pending) low high c [] t hc hl h =
    absurd (utf8_from_short pending low high c t (omega arith) (hl (omega arith)) h)
utf8_from-split zero low high c (b ∷ s) t hc hl h = elim (Option-cases (utf8_lead b)) [
  | inl e ↦ absurd (let wrong = utf8_from-none low high b (s ++ c ∷ t) e in cc)
  | inr ((pending, low', high'), e) ↦
      let rest =
        utf8_from-split pending low' high' c s t hc (lead-low b pending low' high' e)
          (sym (utf8_from-some low high b pending low' high' (s ++ c ∷ t) e) ∙ h) in
      (utf8_from-some low high b pending low' high' s e ∙ rest.0, rest.1)
]
utf8_from-split (suc pending) low high c (b ∷ s) t hc hl h =
    utf8_from_within pending low high b c s t
      (utf8_from-split pending 0x80 0xbf c s t hc (λ _. omega arith)) h
