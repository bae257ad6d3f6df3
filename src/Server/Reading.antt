-- ===== src/Server/Reading.antt =====
-- What a read of a line amounts to, for `read_line_limited` of src/daemon/server.rs.
use mathlib.Core.List.{append_assoc}
use skipjack_mcp.Base.{
  ℕ, ◌+◌, ◌≤◌, ◌<◌, ◌≡◌, ◌⊎◌, sym, ap, ◌∙◌, inl, inr, true, List, [], ◌∷◌, ◌++◌, map, length, All,
  All-append,
}
use skipjack_mcp.Base.Text.{Text}
use skipjack_mcp.Search.{Result, ok, err}
use skipjack_mcp.Url.Split.{IsFree}
use skipjack_mcp.Server.Lines.{is_utf8, newline, max_size_exceeded, Reader, Read}
use skipjack_mcp.Server.Position.{Cuts}

-- Reads that yield a byte and what comes with it.
abbrev pub yields : List (ℕ × Text) → List (Result Text Text)
yields chunks = map (λ c. ok (c.0 ∷ c.1)) chunks

abbrev pub concat : List (ℕ × Text) → Text
concat [] = []
concat ((b, s) ∷ chunks) = (b ∷ s) ++ concat chunks

abbrev pub IsWhole : ℕ × Text → Type 0
IsWhole (b, s) = is_utf8 (b ∷ s) ≡ true

-- The reader still holds these bytes, in whole characters.
abbrev pub Holds : Text → Reader → Type 0
Holds bytes reader =
    (held : Text) × (chunks : List (ℕ × Text)) × (reader
      ≡ record { buffer = held; reads = yields chunks })
    × (bytes ≡ held ++ concat chunks)
    × (is_utf8 held ≡ true)
    × All IsWhole chunks

module _ (max_size : ℕ) where
  -- The line ends in the bytes that are left; `buf` is what was read of it before.
  abbrev pub ReadsLine : Text → Text → Text → Text → Read → Type 0
  ReadsLine buf bytes line rest read =
      Cuts bytes line rest
      × (length (buf ++ line) ≤ max_size)
      × (read.0 ≡ ok (length (buf ++ line) + 1))
      × (read.1 ≡ buf ++ line)
      × Holds rest read.2

  -- No line ends in the bytes that are left, and they are not too many.
  abbrev pub ReadsEnd : Text → Text → Read → Type 0
  ReadsEnd buf bytes read =
      IsFree newline bytes × (length (buf ++ bytes) ≤ max_size + 1) × (read.0 ≡ ok 0)

  -- The line that ends in the bytes that are left is too long, or they are too many for one.
  abbrev pub IsTooLong : Text → Text → Type 0
  IsTooLong buf bytes =
      ((line : Text) × (rest : Text) × Cuts bytes line rest × (max_size < length (buf ++ line)))
      ⊎ ((start : Text) × (more : Text) × (bytes ≡ start ++ more)
          × IsFree newline start
          × (max_size + 1 < length (buf ++ start)))

  abbrev pub Reads : Text → Text → Read → Type 0
  Reads buf bytes read =
      ((line : Text) × (rest : Text) × ReadsLine buf bytes line rest read)
      ⊎ (ReadsEnd buf bytes read ⊎ (IsTooLong buf bytes × (read.0 ≡ err max_size_exceeded)))

  -- A chunk without a newline, put in front.
  Cuts-shift :
      (held more line rest : Text)
      → IsFree newline held
      → Cuts more line rest
      → Cuts (held ++ more) (held ++ line) rest
  Cuts-shift held more line rest free (shape, ends) = (
    ap (◌++◌ held) shape ∙ sym (append_assoc held line (newline ∷ rest)),
    All-append _ held line free ends,
  )

  pub Reads-shift :
      (buf held more : Text) (read : Read)
      → IsFree newline held
      → Reads (buf ++ held) more read
      → Reads buf (held ++ more) read
  Reads-shift buf held more read free (inl (line, rest, (cuts, fits, r, l, h))) =
      let moved = append_assoc buf held line in
      inl (
        held ++ line,
        rest,
        (Cuts-shift held more line rest free cuts, rw (← moved) fits, rw (← moved) r, l ∙ moved, h),
      )
  Reads-shift buf held more read free (inr (inl (ends, fits, r))) =
      inr (inl (All-append _ held more free ends, rw (← append_assoc buf held more) fits, r))
  Reads-shift buf held more read free (inr (inr (inl (line, rest, cuts, over), r))) = inr (
      inr (
        inl (
          held ++ line,
          rest,
          Cuts-shift held more line rest free cuts,
          rw (← append_assoc buf held line) over,
        ),
        r,
      ))
  Reads-shift buf held more read free (inr (inr (inr (start, rest, shape, ends, over), r))) = inr (
      inr (
        inr (
          held ++ start,
          rest,
          ap (◌++◌ held) shape ∙ sym (append_assoc held start rest),
          All-append _ held start free ends,
          rw (← append_assoc buf held start) over,
        ),
        r,
      ))
