-- ===== src/Server/Rounds.antt =====
-- The rounds of `read_line_limited` of src/daemon/server.rs, case by case.
use skipjack_mcp.Base.{
  ℕ, ◌+◌, ◌≤◌, ◌<◌, ◌≡◌, refl, true, false, none, some, List, [], ◌∷◌, ◌++◌, ltb, length, take,
  drop, arith,
}
use skipjack_mcp.Base.Text.{Text}
use skipjack_mcp.Search.{Result, ok, err}
use skipjack_mcp.Server.Lines.{
  is_utf8, chunk_str, position, max_size_exceeded, io, Read, end_of_line, examine, refill,
  read_line_limited,
}

pub chunk_str_whole : (s : Text) → is_utf8 s ≡ true → chunk_str s ≡ s
unfolding chunk_str
chunk_str_whole s whole = rw whole refl

module _ (max_size : ℕ) where
  pub examine_fits :
      (held : Text) (total : ℕ) (buf : Text) (reads : List (Result Text Text)) (rest : Read)
      → position held ≡ none
      → total + length held ≤ max_size + 1
      → examine max_size held total buf reads rest ≡ rest
  unfolding examine
  examine_fits held total buf reads rest n fits =
      let small : ltb (max_size + 1) (total + length held) ≡ false = ground arith in
      rw (n, small, examine) refl

  pub examine_over :
      (held : Text) (total : ℕ) (buf : Text) (reads : List (Result Text Text)) (rest : Read)
      → position held ≡ none
      → max_size + 1 < total + length held
      → (examine max_size held total buf reads rest).0 ≡ err max_size_exceeded
  unfolding examine
  examine_over held total buf reads rest n over =
      let large : ltb (max_size + 1) (total + length held) ≡ true = ground arith in
      rw (n, large, examine) refl

  pub examine_cut_fits :
      (held : Text) (total : ℕ) (buf : Text) (reads : List (Result Text Text)) (rest : Read)
      (pos : ℕ)
      → position held ≡ some pos
      → total + (pos + 1) ≤ max_size + 1
      → examine max_size held total buf reads rest ≡ (
        ok (total + (pos + 1)),
        buf ++ chunk_str (take pos held),
        record { buffer = drop (pos + 1) held; reads = reads },
      )
  unfolding examine end_of_line
  examine_cut_fits held total buf reads rest pos f fits =
      let small : ltb (max_size + 1) (total + (pos + 1)) ≡ false = ground arith in
      rw (f, small, examine, end_of_line) refl

  pub examine_cut_over :
      (held : Text) (total : ℕ) (buf : Text) (reads : List (Result Text Text)) (rest : Read)
      (pos : ℕ)
      → position held ≡ some pos
      → max_size + 1 < total + (pos + 1)
      → (examine max_size held total buf reads rest).0 ≡ err max_size_exceeded
  unfolding examine end_of_line
  examine_cut_over held total buf reads rest pos f over =
      let large : ltb (max_size + 1) (total + (pos + 1)) ≡ true = ground arith in
      rw (f, large, examine, end_of_line) refl

  pub refill_step :
      (b : ℕ) (s : Text) (reads : List (Result Text Text)) (total : ℕ) (buf : Text)
      → refill max_size (ok (b ∷ s) ∷ reads) total buf
        ≡ examine max_size
            (b ∷ s)
            total
            buf
            reads
            (refill max_size reads (total + length (b ∷ s)) (buf ++ chunk_str (b ∷ s)))
  unfolding refill
  refill_step b s reads total buf = refl

  pub refill_end : (total : ℕ) (buf : Text) → (refill max_size [] total buf).0 ≡ ok 0
  unfolding refill
  refill_end total buf = refl

  pub refill_empty :
      (reads : List (Result Text Text)) (total : ℕ) (buf : Text)
      → (refill max_size (ok [] ∷ reads) total buf).0 ≡ ok 0
  unfolding refill
  refill_empty reads total buf = refl

  pub refill_failed :
      (e : Text) (reads : List (Result Text Text)) (total : ℕ) (buf : Text)
      → (refill max_size (err e ∷ reads) total buf).0 ≡ err (io e)
  unfolding refill
  refill_failed e reads total buf = refl

  pub read_nothing :
      (reads : List (Result Text Text))
      → read_line_limited max_size (record { buffer = []; reads = reads })
        ≡ refill max_size reads 0 []
  unfolding read_line_limited
  read_nothing reads = refl

  pub read_held :
      (b : ℕ) (s : Text) (reads : List (Result Text Text))
      → read_line_limited max_size (record { buffer = b ∷ s; reads = reads })
        ≡ examine max_size
            (b ∷ s)
            0
            []
            reads
            (refill max_size reads (length (b ∷ s)) (chunk_str (b ∷ s)))
  unfolding read_line_limited
  read_held b s reads = refl
