-- ===== src/Server/Trim.antt =====
-- `str::trim` of the standard library, by which src/daemon/server.rs prepares a line: the characters
-- with the property White_Space are taken off at both ends, each in its one to three bytes.
use skipjack_mcp.Base.{ℕ, Bool, true, false, ◌&&◌, ◌||◌, [], ◌∷◌, leb, ◌==◌}
use skipjack_mcp.Base.Text.{Text}

abbrev one : ℕ → Bool
one a = a == 0x20 || (leb 0x9 a && leb a 0xd)

abbrev two : ℕ → ℕ → Bool
two a b = a == 0xc2 && (b == 0x85 || b == 0xa0)

abbrev three : ℕ → ℕ → ℕ → Bool
three a b c =
    (a == 0xe1 && b == 0x9a && c == 0x80)
    || (a == 0xe2
        && b == 0x80
        && ((leb 0x80 c && leb c 0x8a) || c == 0xa8 || c == 0xa9 || c == 0xaf))
    || (a == 0xe2 && b == 0x81 && c == 0x9f)
    || (a == 0xe3 && b == 0x80 && c == 0x80)

-- The text is white space only.
unfoldable pub is_white : Text → Bool
is_white [] = true
is_white (a ∷ []) = one a
is_white (a ∷ b ∷ []) = (one a && one b) || two a b
is_white (a ∷ b ∷ c ∷ s) =
    (one a && is_white (b ∷ c ∷ s)) || (two a b && is_white (c ∷ s)) || (three a b c && is_white s)

unfoldable pub trim_start : Text → Text
trim_start [] = []
trim_start (a ∷ []) = elim (one a) [ true ↦ [] | false ↦ a ∷ [] ]
trim_start (a ∷ b ∷ []) = elim (one a) [
  | true ↦ trim_start (b ∷ [])
  | false ↦ elim (two a b) [ true ↦ [] | false ↦ a ∷ b ∷ [] ]
]
trim_start (a ∷ b ∷ c ∷ s) = elim (one a) [
  | true ↦ trim_start (b ∷ c ∷ s)
  | false ↦ elim (two a b) [
    | true ↦ trim_start (c ∷ s)
    | false ↦ elim (three a b c) [ true ↦ trim_start s | false ↦ a ∷ b ∷ c ∷ s ]
  ]
]

unfoldable pub trim_end : Text → Text
unfolding is_white
trim_end [] = []
trim_end (a ∷ s) = elim (is_white (a ∷ s)) [ true ↦ [] | false ↦ a ∷ trim_end s ]

unfoldable pub trim : Text → Text
unfolding trim_start trim_end
trim s = trim_end (trim_start s)
