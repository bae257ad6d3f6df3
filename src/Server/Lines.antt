-- ===== src/Server/Lines.antt =====
-- src/daemon/server.rs: `read_line_limited`. A socket is what its reads yield, one after the other; a
-- read of nothing, and the end of the list, is the end of the stream. `std::str::from_utf8` is written
-- out as the table of well-formed byte sequences that its documentation refers to.
use skipjack_mcp.Base.{
  ℕ, zero, suc, ◌+◌, Bool, true, false, ◌&&◌, Option, none, some, List, [], ◌∷◌, ◌++◌, ltb, leb,
  ◌==◌, if◌then◌else◌, length, take, drop,
}
use skipjack_mcp.Base.Text.{Text}
use skipjack_mcp.Search.{Result, ok, err}

-- What may follow a first byte: the number of further bytes, and the range of the next of them.
unfoldable pub utf8_lead : ℕ → Option (ℕ × ℕ × ℕ)
utf8_lead b =
    if ltb b 0x80
    then some (0, 0, 0)
    else if ltb b 0xc2
    then none
    else if ltb b 0xe0
    then some (1, 0x80, 0xbf)
    else if b == 0xe0
    then some (2, 0xa0, 0xbf)
    else if b == 0xed
    then some (2, 0x80, 0x9f)
    else if ltb b 0xf0
    then some (2, 0x80, 0xbf)
    else if b == 0xf0
    then some (3, 0x90, 0xbf)
    else if ltb b 0xf4
    then some (3, 0x80, 0xbf)
    else if b == 0xf4
    then some (3, 0x80, 0x8f)
    else none

-- `pending` bytes of a character are missing, the next of them between `low` and `high`.
unfoldable pub utf8_from : ℕ → ℕ → ℕ → Text → Bool
unfolding utf8_lead
utf8_from zero low high [] = true
utf8_from (suc pending) low high [] = false
utf8_from zero low high (b ∷ s) = elim (utf8_lead b) [
  | none ↦ false
  | some (pending, low', high') ↦ utf8_from pending low' high' s
]
utf8_from (suc pending) low high (b ∷ s) =
    (leb low b && leb b high) && utf8_from pending 0x80 0xbf s

abbrev pub is_utf8 : Text → Bool
is_utf8 s = utf8_from 0 0 0 s

-- `std::str::from_utf8(chunk).unwrap_or("")`
unfoldable pub chunk_str : Text → Text
unfolding utf8_from
chunk_str chunk = if is_utf8 chunk then chunk else []

abbrev pub newline : ℕ
newline = b'\n'

-- `iter().position(|&b| b == b'\n')`
unfoldable pub position : Text → Option ℕ
position [] = none
position (b ∷ s) =
    let rest = position s in
    if b == newline then some 0 else elim rest [ none ↦ none | some pos ↦ some (suc pos) ]

pub data ReadError : Type 0 where
  max_size_exceeded : ReadError
  io : Text → ReadError

-- A `BufReader`: the bytes it holds, and what further reads of the socket yield.
pub record Reader : Type 0 where
  pub buffer : Text
  pub reads : List (Result Text Text)

-- What one call leaves: the result, the line, and the reader.
abbrev pub Read : Type 0
Read = Result ReadError ℕ × Text × Reader

module _ (max_size : ℕ) where
  -- The newline lies at `pos` of what the reader holds.
  unfoldable pub end_of_line : ℕ → Text → ℕ → Text → List (Result Text Text) → Read
  unfolding chunk_str
  end_of_line pos buffer total buf reads =
      let line = buf ++ chunk_str (take pos buffer) in
      if ltb (max_size + 1) (total + (pos + 1))
      then (err max_size_exceeded, line, record { buffer = buffer; reads = reads })
      else (ok (total + (pos + 1)), line, record { buffer = drop (pos + 1) buffer; reads = reads })

  -- A round of the loop on the bytes that the reader holds; `rest` is what follows the round.
  unfoldable pub examine : Text → ℕ → Text → List (Result Text Text) → Read → Read
  unfolding position end_of_line
  examine buffer total buf reads rest = elim (position buffer) [
    | some pos ↦ end_of_line pos buffer total buf reads
    | none ↦
        if ltb (max_size + 1) (total + length buffer)
        then (err max_size_exceeded, buf, record { buffer = buffer; reads = reads })
        else rest
  ]

  -- The rounds that begin with a refill.
  unfoldable pub refill : List (Result Text Text) → ℕ → Text → Read
  unfolding examine chunk_str
  refill [] total buf = (ok 0, buf, record { buffer = []; reads = [] })
  refill (err e ∷ reads) total buf = (err (io e), buf, record { buffer = []; reads = reads })
  refill (ok [] ∷ reads) total buf = (ok 0, buf, record { buffer = []; reads = reads })
  refill (ok (b ∷ bytes) ∷ reads) total buf =
      examine (b ∷ bytes) total buf reads
        (refill reads (total + length (b ∷ bytes)) (buf ++ chunk_str (b ∷ bytes)))

  -- The bytes and the reader; the first round does not refill if the reader holds bytes.
  unfoldable pub read_line_limited : Reader → Read
  unfolding refill examine chunk_str
  read_line_limited reader = elim reader.buffer [
    | [] ↦ refill reader.reads 0 []
    | b ∷ held ↦
        examine (b ∷ held) 0 [] reader.reads
          (refill reader.reads (length (b ∷ held)) (chunk_str (b ∷ held)))
  ]
