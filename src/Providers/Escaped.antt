-- ===== src/Providers/Escaped.antt =====
-- What `urlencoding` of src/search/providers/searxng.rs makes of a text.
use skipjack_mcp.Base.{
  ℕ, ◌+◌, ◌-◌, ◌*◌, ◌/◌, ◌%◌, ◌<◌, ◌≡◌, refl, sym, ap, ◌∙◌, inl, inr, Bool, true, false, ◌||◌, [],
  ◌∷◌, ◌++◌, leb, ◌==◌, if◌then◌else◌, All, All-append, arith, Bool-cases, ==_iff,
}
use skipjack_mcp.Base.Text.{Text}
use skipjack_mcp.Providers.Searxng.{is_unreserved, hex_digit, encode_byte, urlencoding}

-- Percent-decoding, as RFC 3986 has it.
abbrev pub unhex : ℕ → ℕ
unhex d = if leb d b'9' then d - b'0' else d + 10 - b'A'

unfoldable pub percent_decode : Text → Text
percent_decode [] = []
percent_decode (c ∷ []) = c ∷ []
percent_decode (c ∷ a ∷ []) = c ∷ a ∷ []
percent_decode (c ∷ a ∷ b ∷ s) = elim (c == b'%') [
  | true ↦ (unhex a * 16 + unhex b) ∷ percent_decode s
  | false ↦ c ∷ percent_decode (a ∷ b ∷ s)
]

-- A character that has no meaning of its own in a query.
abbrev pub is_inert : ℕ → Bool
is_inert c = is_unreserved c || c == b'%'

decode_plain :
    (c : ℕ) (t : Text) → (c == b'%') ≡ false → percent_decode (c ∷ t) ≡ c ∷ percent_decode t
unfolding percent_decode
decode_plain c [] e = refl
decode_plain c (a ∷ []) e = refl
decode_plain c (a ∷ b ∷ t) e = rw (e, percent_decode) refl

decode_escape :
    (a b : ℕ) (t : Text)
    → percent_decode (b'%' ∷ a ∷ b ∷ t) ≡ (unhex a * 16 + unhex b) ∷ percent_decode t
unfolding percent_decode
decode_escape a b t = refl

unhex-hex_digit : (d : ℕ) → d < 16 → unhex (hex_digit d) ≡ d
unhex-hex_digit d h = ground arith

hex_digit-inert : (d : ℕ) → d < 16 → is_inert (hex_digit d) ≡ true
hex_digit-inert d h = ground arith

decode_byte :
    (b : ℕ) (t : Text) → b < 256 → percent_decode (encode_byte b ++ t) ≡ b ∷ percent_decode t
decode_byte b t h = elim (Bool-cases (is_unreserved b)) [
  | inl plain ↦ rw plain (decode_plain b t (ground arith))
  | inr other ↦ elim (Bool-cases (b == b' ')) [
    | inl space ↦
        let space_code : unhex b'2' * 16 + unhex b'0' ≡ b = sym ((==_iff b b' ').0 space) in
        rw (other, space) (decode_escape b'2' b'0' t ∙ ap (λ c. c ∷ percent_decode t) space_code)
    | inr escaped ↦
        let digits : unhex (hex_digit (b / 16)) * 16 + unhex (hex_digit (b % 16)) ≡ b =
          omega (
            arith,
            unhex-hex_digit (b / 16) (omega arith),
            unhex-hex_digit (b % 16) (omega arith),
          ) in
        rw (other, escaped)
          (decode_escape (hex_digit (b / 16)) (hex_digit (b % 16)) t
            ∙ ap (λ c. c ∷ percent_decode t) digits)
  ]
]

encode_byte-inert : (b : ℕ) → b < 256 → All (λ c. is_inert c ≡ true) (encode_byte b)
encode_byte-inert b h = elim (Bool-cases (is_unreserved b)) [
  | inl plain ↦ rw plain (ground arith, tt)
  | inr other ↦ elim (Bool-cases (b == b' ')) [
    | inl space ↦ rw (other, space) (refl, (refl, (refl, tt)))
    | inr escaped ↦
        rw (other, escaped)
          (
            refl,
            (hex_digit-inert (b / 16) (omega arith), (hex_digit-inert (b % 16) (omega arith), tt)),
          )
  ]
]

-- Percent-decoding gives back the bytes that `urlencoding` was given, and what it makes of them
-- consists of unreserved characters and percent signs.
pub urlencoding-decode :
    (s : Text)
    → All (λ b. b < 256) s
    → (percent_decode (urlencoding s) ≡ s) × All (λ c. is_inert c ≡ true) (urlencoding s)
unfolding urlencoding percent_decode
urlencoding-decode [] h = (refl, tt)
urlencoding-decode (b ∷ s) h =
    let (same, inert) = urlencoding-decode s h.1 in
    (
      decode_byte b (urlencoding s) h.0 ∙ ap (◌∷◌ b) same,
      All-append _ (encode_byte b) (urlencoding s) (encode_byte-inert b h.0) inert,
    )
