-- ===== src/Server/Frames.antt =====
-- What `read_line_limited` of src/daemon/server.rs returns from a socket that yields whole characters.
use mathlib.Core.List.{append_assoc, append-nil}
use skipjack_mcp.Base.{
  ℕ, ◌+◌, ◌≤◌, ◌≡◌, refl, sym, ap, ◌∙◌, inl, inr, true, some, List, [], ◌∷◌, ◌++◌, leb, length,
  take, drop, All, arith, tests, Bool-cases, Option-cases, length-append,
}
use skipjack_mcp.Base.Text.{Text}
use skipjack_mcp.Search.{Result, ok}
use skipjack_mcp.Server.Lines.{
  is_utf8, chunk_str, newline, position, Reader, Read, examine, refill, read_line_limited,
}
use skipjack_mcp.Server.Position.{Cuts, IsCut, position-some, position-none}
use skipjack_mcp.Server.Rounds.{
  chunk_str_whole, examine_fits, examine_over, examine_cut_fits, examine_cut_over, refill_step,
  refill_end, read_nothing, read_held,
}
use skipjack_mcp.Server.Utf8.{utf8_from-split}
use skipjack_mcp.Server.Reading.{yields, concat, IsWhole, Holds, Reads, Reads-shift}

module _ (max_size : ℕ) where
  -- What a round that finds the newline returns, in terms of the cut.
  cut_shape :
      (held buf : Text) (reads : List (Result Text Text)) (rest : Read) (pos : ℕ)
      (before after : Text)
      → position held ≡ some pos
      → take pos held ≡ before
      → drop (pos + 1) held ≡ after
      → pos ≡ length before
      → is_utf8 before ≡ true
      → length (buf ++ before) ≤ max_size
      → examine max_size held (length buf) buf reads rest
        ≡ (ok (length (buf ++ before) + 1), buf ++ before, record { buffer = after; reads = reads })
  cut_shape held buf reads rest pos before after f front back size whole fits =
      let total : length buf + (pos + 1) ≡ length (buf ++ before) + 1 =
        omega (arith, length-append buf before) in
      let text : chunk_str (take pos held) ≡ before =
        ap chunk_str front ∙ chunk_str_whole before whole in
      rw (← total, ← text, ← back)
        (examine_cut_fits max_size held (length buf) buf reads rest pos f (omega arith))

  examine_cut :
      (held buf : Text) (chunks : List (ℕ × Text)) (rest : Read) (pos : ℕ)
      → is_utf8 held ≡ true
      → All IsWhole chunks
      → position held ≡ some pos
      → IsCut held pos
      → Reads max_size buf
          (held ++ concat chunks)
          (examine max_size held (length buf) buf (yields chunks) rest)
  examine_cut held buf chunks rest pos whole wholes f
        (before, after, (shape, free), front, back, size) =
      let (left, right) =
        utf8_from-split 0 0 0 newline before after (omega arith) (λ h. omega arith)
          (ap is_utf8 (sym shape) ∙ whole) in
      let cuts : Cuts (held ++ concat chunks) before (after ++ concat chunks) = (
        ap (λ t. t ++ concat chunks) shape ∙ append_assoc before (newline ∷ after) (concat chunks),
        free,
      ) in
      elim (Bool-cases (leb (length (buf ++ before)) max_size)) [
        | inl fits ↦
            let found =
              cut_shape held buf (yields chunks) rest pos before after f front back size left
                (omega tests) in
            inl (
              before,
              after ++ concat chunks,
              (
                cuts,
                omega tests,
                ap (λ r. r.0) found,
                ap (λ r. r.1) found,
                (after, chunks, ap (λ r. r.2) found, refl, right, wholes),
              ),
            )
        | inr over ↦ inr (
            inr (
              inl (before, after ++ concat chunks, cuts, omega tests),
              examine_cut_over max_size held (length buf) buf (yields chunks) rest pos f
                  (omega (tests, length-append buf before)),
            ))
      ]

  examine-Reads :
      (held buf : Text) (chunks : List (ℕ × Text)) (rest : Read)
      → is_utf8 held ≡ true
      → All IsWhole chunks
      → (length (buf ++ held) ≤ max_size + 1 → Reads max_size (buf ++ held) (concat chunks) rest)
      → Reads max_size buf
          (held ++ concat chunks)
          (examine max_size held (length buf) buf (yields chunks) rest)
  examine-Reads held buf chunks rest whole wholes next = elim (Option-cases (position held)) [
    | inl n ↦ elim (Bool-cases (leb (length buf + length held) (max_size + 1))) [
      | inl fits ↦
          rw (examine_fits max_size held (length buf) buf (yields chunks) rest n (omega tests)) (
            Reads-shift max_size buf held (concat chunks) rest (position-none held n)
              (next (omega (tests, length-append buf held))))
      | inr over ↦ inr (
          inr (
            inr (
              held,
              concat chunks,
              refl,
              position-none held n,
              omega (tests, length-append buf held),
            ),
            examine_over max_size held (length buf) buf (yields chunks) rest n (omega tests),
          ))
    ]
    | inr (pos, f) ↦ examine_cut held buf chunks rest pos whole wholes f (position-some held pos f)
  ]

  refill-Reads :
      (chunks : List (ℕ × Text)) (buf : Text)
      → All IsWhole chunks
      → length buf ≤ max_size + 1
      → Reads max_size buf (concat chunks) (refill max_size (yields chunks) (length buf) buf)
  refill-Reads [] buf wholes fits =
      inr (inl (tt, rw (append-nil buf) fits, refill_end max_size (length buf) buf))
  refill-Reads ((b, s) ∷ chunks) buf (whole, wholes) fits =
      let next : length (buf ++ b ∷ s) ≤ max_size + 1
          → Reads max_size (buf ++ b ∷ s) (concat chunks) (
              refill max_size (yields chunks) (length buf + length (b ∷ s))
                (buf ++ chunk_str (b ∷ s))) =
        λ small.
          rw (chunk_str_whole (b ∷ s) whole, ← length-append buf (b ∷ s))
            (refill-Reads chunks (buf ++ b ∷ s) wholes small) in
      rw (refill_step max_size b s (yields chunks) (length buf) buf)
        (examine-Reads (b ∷ s) buf chunks _ whole wholes next)

  -- When the chunks that a reader yields hold whole UTF-8 characters, `read_line_limited`
  -- returns the first line, of at most `max_size` bytes, with its length and one, and leaves
  -- what follows the newline; or it returns zero, where at most `max_size + 1` bytes come
  -- without a newline; or an error of size, where the first line is longer than `max_size` or
  -- more than `max_size + 1` bytes come without a newline.
  pub read-Reads :
      (bytes : Text) (reader : Reader)
      → Holds bytes reader
      → Reads max_size [] bytes (read_line_limited max_size reader)
  read-Reads bytes reader ([], chunks, shape, whole, held, wholes) =
      rw (shape, whole, read_nothing max_size (yields chunks))
        (refill-Reads chunks [] wholes (omega arith))
  read-Reads bytes reader (b ∷ s, chunks, shape, whole, held, wholes) =
      rw (shape, whole, read_held max_size b s (yields chunks))
        (examine-Reads (b ∷ s) [] chunks _ held wholes
          λ small. rw (chunk_str_whole (b ∷ s) held) (refill-Reads chunks (b ∷ s) wholes small))
