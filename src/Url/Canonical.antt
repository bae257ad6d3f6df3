-- ===== src/Url/Canonical.antt =====
-- src/search/merge.rs. What `canonicalize_url` forgets.
use skipjack_mcp.Base.{
  ℕ, ◌⊎◌, inl, inr, false, arith, [], ◌≡◌, refl, sym, ap, ◌∙◌, Option, none, some, List, ◌∷◌, ◌++◌,
  filter_by, All,
}
use skipjack_mcp.Base.Text.{Text, bytes, ends_with}
use skipjack_mcp.Url.Defs.{
  split_first, join, keeps, with_query, strip_tracking, strip_slash, strip_suffix, UrlCrate,
  lower_scheme_and_host, canonicalize_url,
}
use skipjack_mcp.Url.Split.{
  IsFree, split_first-free, split_first-append, split_at-append, split_at-free, split-join,
  IsFree-join, IsFree-query,
}

-- A URL: what stands before the query, the query if there is one, and the fragment. A query has a
-- first pair and others.
pub record Parts : Type 0 where
  pub base : Text
  pub query : Option (Text × List Text)
  pub fragment : Option Text

abbrev pub pairs_of : Option (Text × List Text) → List Text
pairs_of none = []
pairs_of (some (pair, pairs)) = pair ∷ pairs

-- The pairs without a tracking parameter.
abbrev pub kept : Parts → List Text
kept p = filter_by keeps (pairs_of p.query)

abbrev pub with_pairs : Text → Option (Text × List Text) → Text
with_pairs base none = base
with_pairs base (some (pair, pairs)) = base ++ b'?' ∷ join b'&' (pair ∷ pairs)

abbrev pub without_fragment : Parts → Text
without_fragment p = with_pairs p.base p.query

abbrev pub with_fragment : Text → Option Text → Text
with_fragment url none = url
with_fragment url (some f) = url ++ b'#' ∷ f

abbrev pub spelled : Parts → Text
spelled p = with_fragment (without_fragment p) p.fragment

-- The parts contain no delimiter that would end them.
abbrev pub IsParted : Parts → Type 0
IsParted p =
    IsFree b'?' p.base
    × IsFree b'#' p.base
    × All (IsFree b'&') (pairs_of p.query)
    × All (IsFree b'#') (pairs_of p.query)

fragment_lem :
    (url : Text) (fragment : Option Text)
    → IsFree b'#' url
    → split_first b'#' (with_fragment url fragment) ≡ url
fragment_lem url none h = split_first-free b'#' url h
fragment_lem url (some f) h = split_first-append b'#' url f h

strip_tracking_lem :
    (base : Text) (query : Option (Text × List Text))
    → IsFree b'?' base
    → All (IsFree b'&') (pairs_of query)
    → strip_tracking (with_pairs base query) ≡ with_query base (filter_by keeps (pairs_of query))
unfolding strip_tracking with_query
strip_tracking_lem base none mark amp = rw (split_at-free b'?' base mark, strip_tracking) refl
strip_tracking_lem base (some (pair, pairs)) mark amp =
    rw
      (
        split_at-append b'?' base (join b'&' (pair ∷ pairs)) mark,
        split-join b'&' pair pairs amp,
        strip_tracking,
      )
      refl

with_pairs-IsFree :
    (base : Text) (query : Option (Text × List Text))
    → IsFree b'#' base
    → All (IsFree b'#') (pairs_of query)
    → IsFree b'#' (with_pairs base query)
with_pairs-IsFree base none hash rest = hash
with_pairs-IsFree base (some (pair, pairs)) hash rest =
    IsFree-query b'#' b'?' base (join b'&' (pair ∷ pairs)) refl hash
      (IsFree-join b'#' b'&' (pair ∷ pairs) refl rest)

-- What is left of a URL that the crate url normalizes to the parts.
canonicalize_url-parts :
    (u : UrlCrate) (raw : Text) (p : Parts)
    → IsParted p
    → lower_scheme_and_host u raw ≡ spelled p
    → canonicalize_url u raw ≡ strip_slash (with_query p.base (kept p))
unfolding canonicalize_url
canonicalize_url-parts u raw p (mark, hash, amp, rest) e =
    let plain = with_pairs-IsFree p.base p.query hash rest in
    rw
      (
        e,
        fragment_lem (without_fragment p) p.fragment plain,
        strip_tracking_lem p.base p.query mark amp,
      )
      refl

-- The second text is the first with a slash, which is not the end of `//` or `:/`.
abbrev pub IsClosed : Text → Text → Type 0
IsClosed s t =
    (t ≡ s ++ bytes "/") × (ends_with s (bytes ":") ≡ false) × (ends_with s (bytes "/") ≡ false)

strip_suffix-append : (c : ℕ) (s : Text) → strip_suffix c (s ++ c ∷ []) ≡ some s
unfolding strip_suffix
strip_suffix-append c [] = ground arith
strip_suffix-append c (d ∷ []) = let last = strip_suffix-append c [] in rw (last, strip_suffix) refl
strip_suffix-append c (d ∷ e ∷ s) =
    let rest = strip_suffix-append c (e ∷ s) in rw (rest, strip_suffix) refl

strip_suffix-none : (c : ℕ) (s : Text) → ends_with s (c ∷ []) ≡ false → strip_suffix c s ≡ none
unfolding strip_suffix
strip_suffix-none c [] h = refl
strip_suffix-none c (d ∷ []) h = ground arith
strip_suffix-none c (d ∷ e ∷ s) h =
    let rest = strip_suffix-none c (e ∷ s) (ground arith) in rw (rest, strip_suffix) refl

strip_slash-IsClosed : (s t : Text) → IsClosed s t → strip_slash t ≡ strip_slash s
unfolding strip_slash
strip_slash-IsClosed s t (e, colon, slash) =
    rw (e, strip_suffix-append b'/' s, colon, slash, strip_suffix-none b'/' s slash, strip_slash)
      refl

-- The bases agree; or one closes the other with a slash, and no pair is kept.
abbrev pub SameBase : Parts → Parts → Type 0
SameBase p q = (p.base ≡ q.base) ⊎ ((kept p ≡ []) × IsClosed p.base q.base)

SameBase-lem :
    (p q : Parts)
    → SameBase p q
    → kept p ≡ kept q
    → strip_slash (with_query p.base (kept p)) ≡ strip_slash (with_query q.base (kept q))
unfolding with_query
SameBase-lem p q (inl same) c =
    ap (λ base. strip_slash (with_query base (kept p))) same
    ∙ ap (λ pairs. strip_slash (with_query q.base pairs)) c
SameBase-lem p q (inr (nothing, closed)) c =
    ap (λ pairs. strip_slash (with_query p.base pairs)) nothing
    ∙ sym (strip_slash-IsClosed p.base q.base closed)
    ∙ ap (λ pairs. strip_slash (with_query q.base pairs)) (sym nothing ∙ c)

-- Take two URLs with or without a query and a fragment, whose parts have delimiters only between
-- them once scheme and host are in lower case. If they agree except for the fragment and for
-- pairs of the query with a tracking parameter, they have the same canonical form; and so do
-- they if no other pair is in their queries and the second has a slash at the end of what stands
-- before the query, behind neither a colon nor a slash, and the first is the same without it.
pub canonicalize_url-forgets :
    (u : UrlCrate) (raw other : Text) (p q : Parts)
    → IsParted p
    → IsParted q
    → lower_scheme_and_host u raw ≡ spelled p
    → lower_scheme_and_host u other ≡ spelled q
    → SameBase p q
    → kept p ≡ kept q
    → canonicalize_url u raw ≡ canonicalize_url u other
canonicalize_url-forgets u raw other p q h k e f b c =
    canonicalize_url-parts u raw p h e
    ∙ SameBase-lem p q b c
    ∙ sym (canonicalize_url-parts u other q k f)
