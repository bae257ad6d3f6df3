-- ===== src/Fetch/Body.antt =====
-- src/daemon/server.rs. The cap on the body.
use mathlib.Core.List.{append-nil, append_assoc}
use skipjack_mcp.Base.{
  ℕ, ◌≤◌, ◌≡◌, ◌↔◌, refl, sym, ap, ◌∙◌, false, Option, none, some, List, [], ◌∷◌, ◌++◌, ltb, length,
  length-append, arith, tests, Bool-cases, Option-cases, inl, inr,
}
use skipjack_mcp.Base.Text.{Text}
use skipjack_mcp.Search.{Result, ok, err}
use skipjack_mcp.Fetch.Defs.{HttpResponse, read_chunks, read_body_capped}

-- The bytes of all chunks, if each arrives.
abbrev pub payload : List (Result Text Text) → Option Text
payload [] = some []
payload (err e ∷ chunks) = none
payload (ok chunk ∷ chunks) = elim (payload chunks) [
  | none ↦ none
  | some rest ↦ some (chunk ++ rest)
]

read_chunks_ok :
    (max_bytes : ℕ) (body : Text) (chunks : List (Result Text Text)) (p : Text)
    → payload chunks ≡ some p
    → length (body ++ p) ≤ max_bytes
    → read_chunks max_bytes body chunks ≡ ok (body ++ p)
unfolding read_chunks
read_chunks_ok max_bytes body [] p h le =
    let empty : [] ≡ p = ground arith in rw (← empty, append-nil)
read_chunks_ok max_bytes body (err e ∷ chunks) p h le = cc
read_chunks_ok max_bytes body (ok chunk ∷ chunks) p h le = elim (Option-cases (payload chunks)) [
  | inl lost ↦ absurd (ground arith)
  | inr (rest, found) ↦
      let shape : chunk ++ rest ≡ p = ground arith in
      let whole : body ++ p ≡ (body ++ chunk) ++ rest =
        ap (◌++◌ body) (sym shape) ∙ sym (append_assoc body chunk rest) in
      let size : length ((body ++ chunk) ++ rest) ≤ max_bytes = rw (← whole) le in
      let fits : ltb max_bytes (length (body ++ chunk)) ≡ false =
        ground (arith, length-append (body ++ chunk) rest) in
      rw (fits, whole) (read_chunks_ok max_bytes (body ++ chunk) chunks rest found size)
]

read_chunks_sound :
    (max_bytes : ℕ) (body : Text) (chunks : List (Result Text Text)) (r : Text)
    → length body ≤ max_bytes
    → read_chunks max_bytes body chunks ≡ ok r
    → (p : Text) × (payload chunks ≡ some p) × (body ++ p ≡ r) × (length r ≤ max_bytes)
unfolding read_chunks
read_chunks_sound max_bytes body [] r le h =
    let same : body ≡ r = ground arith in ([], refl, append-nil body ∙ same, rw (← same) le)
read_chunks_sound max_bytes body (err e ∷ chunks) r le h = cc
read_chunks_sound max_bytes body (ok chunk ∷ chunks) r le h =
    elim (Bool-cases (ltb max_bytes (length (body ++ chunk)))) [
      | inl over ↦ absurd (ground arith)
      | inr fits ↦
          let (p, found, whole, size) =
            read_chunks_sound max_bytes (body ++ chunk) chunks r (omega tests) (ground arith) in
          (chunk ++ p, ground arith, sym (append_assoc body chunk p) ∙ whole, size)
    ]

read_all_iff :
    (max_bytes : ℕ) (chunks : List (Result Text Text)) (r : Text)
    → (read_chunks max_bytes [] chunks ≡ ok r)
      ↔ ((payload chunks ≡ some r) × (length r ≤ max_bytes))
read_all_iff max_bytes chunks r = (
  λ h.
      let (p, found, same, size) = read_chunks_sound max_bytes [] chunks r (omega arith) h in
      (found ∙ ap some same, size),
  λ h. read_chunks_ok max_bytes [] chunks r h.0 h.1,
)

-- A body is returned exactly when every chunk arrives, all of them together are at most
-- `max_bytes` long, and so is the declared length, if there is one; it is then the whole body.
pub read_body_capped_iff :
    (max_bytes : ℕ) (response : HttpResponse) (r : Text)
    → (read_body_capped max_bytes response ≡ ok r) ↔ (
        (payload response.chunks ≡ some r)
        × (length r ≤ max_bytes)
        × ((cl : ℕ) → response.content_length ≡ some cl → cl ≤ max_bytes))
unfolding read_body_capped
read_body_capped_iff max_bytes response r = elim (Option-cases response.content_length) [
  | inl absent ↦ (
    λ h.
        let (found, size) = (read_all_iff max_bytes response.chunks r).0 (ground arith) in
        (found, size, λ cl e. cc),
    λ (found, size, declared).
        let all = (read_all_iff max_bytes response.chunks r).1 (found, size) in ground arith,
  )
  | inr (cl, declared) ↦ (
    λ h.
        let (found, size) = (read_all_iff max_bytes response.chunks r).0 (ground arith) in
        (found, size, λ k e. ground arith),
    λ (found, size, small).
        let all = (read_all_iff max_bytes response.chunks r).1 (found, size) in
        let fits = small cl declared in ground arith,
  )
]
